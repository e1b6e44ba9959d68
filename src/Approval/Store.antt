-- ===== src/Approval/Store.antt =====
-- The table of approval requests with the operations of crates/harness/src/approval.rs.
-- An operation runs in a transaction, so an error inside it leaves the store as it was. `clock` is
-- the database's `NOW()`, and the ids that `Uuid::now_v7` draws are arguments. The table's UNIQUE
-- constraints and its unique index on pending fingerprints are tests of the INSERT.
pub mod Rows
pub mod Invariant
pub mod Lookup
pub mod Choice
pub mod Resolution
pub mod Expiry
pub mod History
use blue_lagoon.Base.{
  ℕ, suc, Bool, true, false, not, ◌&&◌, ◌||◌, Option, none, some, List, [], ◌∷◌, map, Text, leb,
  ltb, ◌==◌, if◌then◌else◌, any, find, count_if, codes, text_eq, Result, ok, err, ◌>>=◌, ◌>>◌,
}
use blue_lagoon.Contracts.Action.{
  Uuid, Instant, GovernedActionFingerprint, ApprovalRequestStatus, ApprovalResolutionDecision,
}
use blue_lagoon.Config.{ApprovalsConfig}
use blue_lagoon.Recovery.Decision.{RecoveryApprovalState, RecoveryError}
use blue_lagoon.Recovery.Checkpoint.{RecoveryStore, recover_approval_request_transition}
use blue_lagoon.Approval.Records.{
  NewApprovalRequestRecord, ApprovalRequestRecord, ApprovalResolutionAttempt,
  ApprovalResolutionEvent, ApprovalResolutionResult, ResolutionTransition, ApprovalAuditEvent,
  ApprovalError, pending_limit_reached, insert_conflict, request_not_found, no_longer_pending,
  approval_expiry_actor, approval_invalidation_actor, approval_event_kind, approval_event_severity,
  approval_resolution_to_status,
}
use blue_lagoon.Approval.Checks.{
  validate_new_approval_request, validate_resolution_attempt, validate_resolution_actor,
}

pub record ApprovalStore : Type 0 where
  pub requests : List ApprovalRequestRecord
  pub audit : List ApprovalAuditEvent

abbrev pub is_pending : ApprovalRequestStatus → Bool
is_pending ApprovalRequestStatus.pending = true
is_pending _ = false

abbrev pub row_is_pending : ApprovalRequestRecord → Bool
row_is_pending row = is_pending row.status

unfoldable pub pending_count : List ApprovalRequestRecord → ℕ
unfolding count_if
pending_count rows = count_if row_is_pending rows

abbrev pub not_found_or : Option ApprovalRequestRecord → Result ApprovalError ApprovalRequestRecord
not_found_or none = err request_not_found
not_found_or (some row) = ok row

-- `get_approval_request` and `get_approval_request_by_token`: the key is unique.
unfoldable pub get_approval_request :
    Uuid → List ApprovalRequestRecord → Result ApprovalError ApprovalRequestRecord
unfolding find
get_approval_request id rows = not_found_or (find (λ row. row.approval_request_id == id) rows)

unfoldable pub get_approval_request_by_token :
    Text → List ApprovalRequestRecord → Option ApprovalRequestRecord
unfolding find
get_approval_request_by_token token rows = find (λ row. text_eq row.token token) rows

abbrev pub new_row : Instant → NewApprovalRequestRecord → ApprovalRequestRecord
new_row clock request = record {
  approval_request_id = request.approval_request_id;
  trace_id = request.trace_id;
  execution_id = request.execution_id;
  action_proposal_id = request.action_proposal_id;
  action_fingerprint = request.action_fingerprint;
  action_kind = request.action_kind;
  risk_tier = request.risk_tier;
  title = request.title;
  consequence_summary = request.consequence_summary;
  capability_scope = request.capability_scope;
  status = ApprovalRequestStatus.pending;
  requested_by = request.requested_by;
  token = request.token;
  requested_at = request.requested_at;
  expires_at = request.expires_at;
  resolved_at = none;
  resolution_kind = none;
  resolved_by = none;
  resolution_reason = none;
  created_at = clock;
  updated_at = clock;
}

-- The row would break a constraint of the table against this one.
abbrev pub collides : NewApprovalRequestRecord → ApprovalRequestRecord → Bool
collides request row =
    row.approval_request_id == request.approval_request_id
    || text_eq row.token request.token
    || (row_is_pending row && text_eq row.action_fingerprint.value request.action_fingerprint.value)

abbrev pub audit_event : Text → Text → Uuid → ApprovalRequestRecord → ApprovalAuditEvent
audit_event kind severity id row = record {
  trace_id = row.trace_id;
  execution_id = row.execution_id;
  event_kind = kind;
  severity = severity;
  approval_request_id = id;
}

-- The check of the limit and the transaction of the INSERT. `counted` is the number of pending
-- requests that `enforce_pending_request_limit` read before the transaction, so it may be stale.
unfoldable pub create_counted :
    ApprovalsConfig
    → (clock : Instant) (counted : ℕ) → NewApprovalRequestRecord
    → ApprovalStore
    → Result ApprovalError ApprovalRequestRecord × ApprovalStore
unfolding any
create_counted config clock counted request s =
    let row = new_row clock request in
    elim (validate_new_approval_request request) [
      | err e ↦ (err e, s)
      | ok _ ↦
          if leb config.max_pending_requests counted
          then (err pending_limit_reached, s)
          else if any (collides request) s.requests
          then (err insert_conflict, s)
          else (
            get_approval_request request.approval_request_id (row ∷ s.requests),
            record {
              requests = row ∷ s.requests;
              audit =
                  audit_event (codes "approval_request_created") (codes "info")
                    request.approval_request_id row
                  ∷ s.audit;
            },
          )
    ]

-- The whole operation, where nothing else runs in between.
unfoldable pub create_approval_request :
    ApprovalsConfig
    → (clock : Instant) → NewApprovalRequestRecord
    → ApprovalStore
    → Result ApprovalError ApprovalRequestRecord × ApprovalStore
unfolding create_counted pending_count
create_approval_request config clock request s =
    create_counted config clock (pending_count s.requests) request s

-- The SET of the UPDATE.
abbrev pub resolve_row :
    (clock : Instant)
    → ResolutionTransition
    → (resolved_at : Instant) → ApprovalRequestRecord
    → ApprovalRequestRecord
resolve_row clock transition resolved_at row = record row {
  status = approval_resolution_to_status transition.decision;
  resolved_at = some resolved_at;
  resolution_kind = some transition.decision;
  resolved_by = some transition.actor_ref;
  resolution_reason = transition.reason;
  updated_at = clock;
}

-- The WHERE of the UPDATE.
abbrev pub is_target : Uuid → ApprovalRequestRecord → Bool
is_target id row = row.approval_request_id == id && row_is_pending row

unfoldable pub update_rows :
    (clock : Instant)
    → (id : Uuid) → ResolutionTransition
    → (resolved_at : Instant) → List ApprovalRequestRecord
    → List ApprovalRequestRecord
update_rows clock id transition resolved_at [] = []
update_rows clock id transition resolved_at (row ∷ rows) =
    (if is_target id row then resolve_row clock transition resolved_at row else row)
    ∷ update_rows clock id transition resolved_at rows

abbrev pub resolution_event :
    (resolution_id : Uuid)
    → ApprovalRequestRecord
    → ResolutionTransition
    → Instant
    → ApprovalResolutionEvent
resolution_event resolution_id locked transition resolved_at = record {
  resolution_id = resolution_id;
  approval_request_id = locked.approval_request_id;
  decision = transition.decision;
  resolved_by = transition.actor_ref;
  resolved_at = resolved_at;
  reason = transition.reason;
}

abbrev pub store_after :
    (clock : Instant)
    → ApprovalRequestRecord
    → ResolutionTransition
    → Instant
    → ApprovalStore
    → ApprovalStore
store_after clock locked transition resolved_at s =
    let id = locked.approval_request_id in
    record {
      requests = update_rows clock id transition resolved_at s.requests;
      audit = audit_event transition.event_kind transition.severity id locked ∷ s.audit;
    }

-- `none` if the UPDATE affects no row. `locked` is what was read before, and may be stale.
unfoldable pub apply_resolution_transition :
    (clock : Instant) (resolution_id : Uuid)
    → (locked : ApprovalRequestRecord) → ResolutionTransition
    → (resolved_at : Instant) → ApprovalStore
    → Option (ApprovalResolutionEvent × ApprovalStore)
unfolding any update_rows
apply_resolution_transition clock resolution_id locked transition resolved_at s =
    if any (is_target locked.approval_request_id) s.requests
    then some (
      resolution_event resolution_id locked transition resolved_at,
      store_after clock locked transition resolved_at s,
    )
    else none

abbrev pub expiry_transition : ResolutionTransition
expiry_transition = record {
  decision = ApprovalResolutionDecision.expired;
  actor_ref = approval_expiry_actor;
  reason = some (codes "approval request expired before resolution");
  event_kind = codes "approval_request_expired";
  severity = codes "warn";
}

abbrev pub invalidation_transition : ResolutionTransition
invalidation_transition = record {
  decision = ApprovalResolutionDecision.invalidated;
  actor_ref = approval_invalidation_actor;
  reason = some (codes "approval request invalidated because the action fingerprint changed");
  event_kind = codes "approval_request_invalidated";
  severity = codes "warn";
}

unfoldable pub external_transition : ApprovalResolutionAttempt → ResolutionTransition
unfolding approval_event_kind approval_event_severity
external_transition attempt = record {
  decision = attempt.decision;
  actor_ref = attempt.actor_ref;
  reason = attempt.reason;
  event_kind = approval_event_kind attempt.decision;
  severity = approval_event_severity attempt.decision;
}

-- How `resolve_approval_request` chooses the transition of a pending request.
unfoldable pub choose_transition :
    ApprovalRequestRecord → ApprovalResolutionAttempt → Result ApprovalError ResolutionTransition
choose_transition row attempt =
    if leb row.expires_at attempt.resolved_at
    then ok expiry_transition
    else if not (text_eq row.action_fingerprint.value attempt.expected_action_fingerprint.value)
    then ok invalidation_transition
    else do validate_resolution_actor row attempt; ok (external_transition attempt)

-- What follows the choice: the row that was locked is updated, and read again.
abbrev pub finish_resolution :
    Option (ApprovalResolutionEvent × ApprovalStore)
    → Uuid
    → ApprovalStore
    → Result ApprovalError ApprovalResolutionResult × ApprovalStore
finish_resolution none id s = (err no_longer_pending, s)
finish_resolution (some (event, after)) id s = elim (get_approval_request id after.requests) [
  | err e ↦ (err e, after)
  | ok row ↦ (ok (record { request = row; event = event }), after)
]

-- `resolve_approval_request` on the row that the token names.
unfoldable pub resolve_locked :
    (clock : Instant) (resolution_id : Uuid)
    → ApprovalResolutionAttempt
    → ApprovalRequestRecord
    → ApprovalStore
    → Result ApprovalError ApprovalResolutionResult × ApprovalStore
resolve_locked clock resolution_id attempt row s =
    if not (row_is_pending row)
    then (err no_longer_pending, s)
    else elim (choose_transition row attempt) [
      | err e ↦ (err e, s)
      | ok transition ↦
          finish_resolution
            (apply_resolution_transition clock resolution_id row transition attempt.resolved_at s)
            row.approval_request_id s
    ]

unfoldable pub resolve_approval_request :
    (clock : Instant) (resolution_id : Uuid)
    → ApprovalResolutionAttempt
    → ApprovalStore
    → Result ApprovalError ApprovalResolutionResult × ApprovalStore
unfolding resolve_locked
resolve_approval_request clock resolution_id attempt s =
    elim (validate_resolution_attempt attempt) [
      | err e ↦ (err e, s)
      | ok _ ↦ elim (get_approval_request_by_token attempt.token s.requests) [
        | none ↦ (err request_not_found, s)
        | some row ↦ resolve_locked clock resolution_id attempt row s
      ]
    ]
