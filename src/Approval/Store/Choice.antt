-- ===== src/Approval/Store/Choice.antt =====
-- Which transition `resolve_approval_request` chooses for a pending request.
use blue_lagoon.Base.{
  ◌≤◌, ◌<◌, ◌≡◌, ◌≢◌, inl, inr, Bool-cases, text_eq, text_eq_iff, leb, ok, >>=-eq-ok, arith,
}
use blue_lagoon.Approval.Records.{
  ApprovalRequestRecord, ApprovalResolutionAttempt, ResolutionTransition, ApprovalActorRef,
}
use blue_lagoon.Approval.Checks.{parse_actor_ref, validate_resolution_actor}
use blue_lagoon.Approval.Store.{
  expiry_transition, invalidation_transition, external_transition, choose_transition,
}

-- The actor that resolves is of the principal that asked.
pub record SamePrincipal (row : ApprovalRequestRecord) (attempt : ApprovalResolutionAttempt)
    : Type 0 where
  pub asked : ApprovalActorRef
  pub asks : parse_actor_ref row.requested_by ≡ ok asked
  pub acted : ApprovalActorRef
  pub acts : parse_actor_ref attempt.actor_ref ≡ ok acted
  pub same : acted.principal ≡ asked.principal

validate_resolution_actor-SamePrincipal :
    (row : ApprovalRequestRecord) (attempt : ApprovalResolutionAttempt)
    → validate_resolution_actor row attempt ≡ ok tt
    → SamePrincipal row attempt
unfolding validate_resolution_actor
validate_resolution_actor-SamePrincipal row attempt h =
    let (asked, e, h') = >>=-eq-ok (parse_actor_ref row.requested_by) _ h in
    let (acted, f, h'') = >>=-eq-ok (parse_actor_ref attempt.actor_ref) _ h' in
    record {
      asked = asked;
      asks = e;
      acted = acted;
      acts = f;
      same = ground (arith, text_eq_iff acted.principal asked.principal);
    }

-- Which transition a pending row takes: expiry first, then a changed fingerprint, then the actor.
pub data Chosen (row : ApprovalRequestRecord) (attempt : ApprovalResolutionAttempt)
    (transition : ResolutionTransition) : Type 0 where
  expires :
      row.expires_at ≤ attempt.resolved_at
      → transition ≡ expiry_transition
      → Chosen row attempt transition
  invalidates :
      attempt.resolved_at < row.expires_at
      → row.action_fingerprint.value ≢ attempt.expected_action_fingerprint.value
      → transition ≡ invalidation_transition
      → Chosen row attempt transition
  external :
      attempt.resolved_at < row.expires_at
      → row.action_fingerprint.value ≡ attempt.expected_action_fingerprint.value
      → SamePrincipal row attempt
      → transition ≡ external_transition attempt
      → Chosen row attempt transition

pub choose_transition-Chosen :
    (row : ApprovalRequestRecord) (attempt : ApprovalResolutionAttempt)
    (transition : ResolutionTransition)
    → choose_transition row attempt ≡ ok transition
    → Chosen row attempt transition
unfolding choose_transition
choose_transition-Chosen row attempt transition h =
    let mark = text_eq_iff row.action_fingerprint.value attempt.expected_action_fingerprint.value in
    elim (Bool-cases (leb row.expires_at attempt.resolved_at)) [
      | inl e ↦ expires (ground arith) (ground arith)
      | inr e ↦
          elim (Bool-cases
            (text_eq row.action_fingerprint.value attempt.expected_action_fingerprint.value)) [
              | inl same ↦
                  let (u, v, w) =
                    >>=-eq-ok (validate_resolution_actor row attempt) _ (rw (e, same) at h) in
                  external (ground arith) (mark.0 same)
                    (validate_resolution_actor-SamePrincipal row attempt v) (ground (arith, w))
              | inr differs ↦
                  invalidates (ground arith) (λ q. ground (arith, mark))
                    (ground (arith, rw (e, differs) at h))
            ]
    ]
