-- ===== src/Approval/Store/Resolution.antt =====
-- What `resolve_approval_request` does to a request.
use blue_lagoon.Base.{
  ◌<◌, ◌≡◌, ◌⊎◌, refl, ap, ◌∙◌, sym, inl, inr, Bool-cases, Option-cases, true, some, ==_refl,
  text_eq, ok, err, Result-cases, arith,
}
use blue_lagoon.Contracts.Action.{Uuid, Instant, ApprovalRequestStatus, ApprovalResolutionDecision}
use blue_lagoon.Approval.Records.{
  ApprovalRequestRecord, ApprovalResolutionAttempt, ApprovalResolutionResult, ResolutionTransition,
  approval_resolution_to_status, ApprovalError, request_not_found, no_longer_pending,
}
use blue_lagoon.Approval.Checks.{validate_resolution_attempt}
use blue_lagoon.Approval.Store.{
  ApprovalStore, row_is_pending, get_approval_request, get_approval_request_by_token, resolve_row,
  update_rows, apply_resolution_transition, store_after, resolution_event, external_transition,
  choose_transition, resolve_locked, resolve_approval_request,
}
use blue_lagoon.Approval.Store.Rows.{Distinct}
use blue_lagoon.Approval.Store.Lookup.{In, find-In, find-update_rows, any-is_target}
use blue_lagoon.Approval.Store.Choice.{
  SamePrincipal, Chosen, expires, invalidates, external, choose_transition-Chosen,
}

-- A successful resolution: the row that the token names was pending, and one of the three
-- transitions was applied to it.
pub record Resolved (clock : Instant) (attempt : ApprovalResolutionAttempt) (s : ApprovalStore)
    (result : ApprovalResolutionResult) (after : ApprovalStore) : Type 0 where
  pub row : ApprovalRequestRecord
  pub transition : ResolutionTransition
  pub attempt_valid : validate_resolution_attempt attempt ≡ ok tt
  pub found : get_approval_request_by_token attempt.token s.requests ≡ some row
  pub was_pending : row_is_pending row ≡ true
  pub chosen : Chosen row attempt transition
  pub request : result.request ≡ resolve_row clock transition attempt.resolved_at row
  pub decision : result.event.decision ≡ transition.decision
  pub actor : result.event.resolved_by ≡ transition.actor_ref
  pub about : result.event.approval_request_id ≡ row.approval_request_id
  pub rows :
      after.requests
      ≡ update_rows clock row.approval_request_id transition attempt.resolved_at s.requests

module _ (clock : Instant) (resolution_id : Uuid) (attempt : ApprovalResolutionAttempt)
    (s : ApprovalStore) (distinct : Distinct s.requests) where
  abbrev resolved_as : ApprovalRequestRecord → ResolutionTransition → ApprovalResolutionResult
  resolved_as row transition = record {
    request = resolve_row clock transition attempt.resolved_at row;
    event = resolution_event resolution_id row transition attempt.resolved_at;
  }

  -- The update and the read that follows it succeed on a pending row of the table.
  resolve_locked_lem :
      (row : ApprovalRequestRecord) (transition : ResolutionTransition)
      → In row s.requests
      → row_is_pending row ≡ true
      → choose_transition row attempt ≡ ok transition
      → resolve_locked clock resolution_id attempt row s
        ≡ (ok (resolved_as row transition), store_after clock row transition attempt.resolved_at s)
  unfolding resolve_locked apply_resolution_transition get_approval_request
  resolve_locked_lem row transition i p c =
      let target = any-is_target row s.requests i p in
      let back = find-update_rows clock transition attempt.resolved_at row s.requests distinct i in
      rw (p, c) (rw target (ground (arith, back, ==_refl row.approval_request_id)))

  -- How a resolution succeeds.
  record Success : Type 0 where
    row : ApprovalRequestRecord
    transition : ResolutionTransition
    attempt_valid : validate_resolution_attempt attempt ≡ ok tt
    found : get_approval_request_by_token attempt.token s.requests ≡ some row
    was_pending : row_is_pending row ≡ true
    choice : choose_transition row attempt ≡ ok transition
    outcome :
        resolve_approval_request clock resolution_id attempt s
        ≡ (ok (resolved_as row transition), store_after clock row transition attempt.resolved_at s)

  locked_cases :
      (row : ApprovalRequestRecord)
      → In row s.requests
      → ((e : ApprovalError) × (resolve_locked clock resolution_id attempt row s ≡ (err e, s)))
        ⊎ ((transition : ResolutionTransition) × (row_is_pending row ≡ true)
            × (choose_transition row attempt ≡ ok transition))
  unfolding resolve_locked
  locked_cases row i = elim (Bool-cases (row_is_pending row)) [
    | inr p ↦ inl (no_longer_pending, rw p)
    | inl p ↦ elim (Result-cases (choose_transition row attempt)) [
      | inl (transition, c) ↦ inr (transition, p, c)
      | inr (e, c) ↦ inl (e, rw (p, c))
    ]
  ]

  -- A resolution fails and changes nothing, or succeeds.
  resolve_cases :
      ((e : ApprovalError) × (resolve_approval_request clock resolution_id attempt s ≡ (err e, s)))
      ⊎ Success
  unfolding resolve_approval_request get_approval_request_by_token
  resolve_cases = elim (Result-cases (validate_resolution_attempt attempt)) [
    | inr (e, v) ↦ inl (e, rw (v, resolve_approval_request))
    | inl (u, v) ↦ elim (Option-cases (get_approval_request_by_token attempt.token s.requests)) [
      | inl absent ↦ inl (request_not_found, rw (v, resolve_approval_request) (rw absent))
      | inr (row, found) ↦
          let i = (find-In (λ r. text_eq r.token attempt.token) s.requests row found).1 in
          elim (locked_cases row i) [
            | inl (e, q) ↦ inl (e, rw (v, resolve_approval_request) (rw found q))
            | inr (transition, p, c) ↦ inr (record {
              row = row;
              transition = transition;
              attempt_valid = v;
              found = found;
              was_pending = p;
              choice = c;
              outcome =
                  rw (v, resolve_approval_request)
                    (rw found (resolve_locked_lem row transition i p c));
            })
          ]
    ]
  ]

-- Over a table with distinct keys, an attempt that fails changes nothing, and one that succeeds finds
-- a pending request by its token and applies exactly one transition to it: `expired` from the expiry
-- time on, else `invalidated` if the fingerprint of the action changed, else the decision of an
-- actor of the requesting principal; the result is the row as it now stands in the table.
pub resolve_approval_request_lem :
    (clock : Instant) (resolution_id : Uuid) (attempt : ApprovalResolutionAttempt)
    (s : ApprovalStore)
    → Distinct s.requests
    → let (result, after) = resolve_approval_request clock resolution_id attempt s in
      ((e : ApprovalError) × (result ≡ err e) × (after ≡ s))
      ⊎ ((resolved : ApprovalResolutionResult) × (result ≡ ok resolved)
          × Resolved clock attempt s resolved after)
resolve_approval_request_lem clock resolution_id attempt s distinct =
    elim (resolve_cases clock resolution_id attempt s distinct) [
      | inl (e, q) ↦ inl (e, ap (λ t. t.0) q, ap (λ t. t.1) q)
      | inr r ↦ inr (
        resolved_as clock resolution_id attempt s distinct r.row r.transition,
        ap (λ t. t.0) r.outcome,
        record {
          row = r.row;
          transition = r.transition;
          attempt_valid = r.attempt_valid;
          found = r.found;
          was_pending = r.was_pending;
          chosen = choose_transition-Chosen r.row attempt r.transition r.choice;
          request = refl;
          decision = refl;
          actor = refl;
          about = refl;
          rows = ap (λ t. t.1.requests) r.outcome;
        },
      )
    ]

approved_choice :
    (row : ApprovalRequestRecord) (attempt : ApprovalResolutionAttempt)
    (transition : ResolutionTransition)
    → Chosen row attempt transition
    → approval_resolution_to_status transition.decision ≡ ApprovalRequestStatus.approved
    → (attempt.decision ≡ ApprovalResolutionDecision.approved)
      × (attempt.resolved_at < row.expires_at)
      × (row.action_fingerprint.value ≡ attempt.expected_action_fingerprint.value)
      × SamePrincipal row attempt
unfolding external_transition
approved_choice row attempt transition (expires late e) h = ground arith
approved_choice row attempt transition (invalidates early changed e) h = ground arith
approved_choice row attempt transition (external early mark principal e) h =
    (ground arith, early, mark, principal)

-- A request ends up approved only by an attempt that says so, made before the request expired, for
-- the unchanged action, by an actor of the principal that asked.
pub approved_only_by_principal :
    (clock : Instant) (resolution_id : Uuid) (attempt : ApprovalResolutionAttempt)
    (s : ApprovalStore) (resolved : ApprovalResolutionResult)
    → Distinct s.requests
    → (resolve_approval_request clock resolution_id attempt s).0 ≡ ok resolved
    → resolved.request.status ≡ ApprovalRequestStatus.approved
    → (row : ApprovalRequestRecord) × (get_approval_request_by_token attempt.token s.requests
        ≡ some row)
      × (row_is_pending row ≡ true)
      × (attempt.decision ≡ ApprovalResolutionDecision.approved)
      × (attempt.resolved_at < row.expires_at)
      × (row.action_fingerprint.value ≡ attempt.expected_action_fingerprint.value)
      × SamePrincipal row attempt
approved_only_by_principal clock resolution_id attempt s resolved distinct h approved =
    elim (resolve_approval_request_lem clock resolution_id attempt s distinct) [
      | inl (e, q, r) ↦ cc
      | inr (resolved', q, r) ↦
          let same : resolved' ≡ resolved = cc in
          let status : approval_resolution_to_status r.transition.decision
              ≡ ApprovalRequestStatus.approved =
            ap (λ (row : ApprovalRequestRecord). row.status)
              (sym r.request ∙ ap (λ (t : ApprovalResolutionResult). t.request) same)
            ∙ approved in
          let (decision, early, mark, principal) =
            approved_choice r.row attempt r.transition r.chosen status in
          (r.row, r.found, r.was_pending, decision, early, mark, principal)
    ]
