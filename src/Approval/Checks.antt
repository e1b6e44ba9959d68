-- ===== src/Approval/Checks.antt =====
-- The validation of requests, attempts and actors, of crates/harness/src/approval.rs.
use blue_lagoon.Base.{
  Bool, true, false, not, ◌||◌, Option, none, some, Text, leb, is_empty, codes, is_blank, trim,
  text_eq, split_once, Result, ok, err, bail_if, ◌>>=◌, ◌>>◌,
}
use blue_lagoon.Contracts.Action.{ApprovalResolutionDecision}
use blue_lagoon.Approval.Records.{
  NewApprovalRequestRecord, ApprovalRequestRecord, ApprovalResolutionAttempt, ApprovalActorRef,
  ApprovalError, requested_by_empty, title_empty, consequence_summary_empty, token_empty,
  expiry_not_after_request, attempt_token_empty, attempt_actor_empty, actor_ref_format,
  actor_ref_system, decision_not_external, principal_mismatch,
}

unfoldable pub validate_new_approval_request :
    NewApprovalRequestRecord → Result ApprovalError (Unit {0})
validate_new_approval_request request = do
  bail_if (is_blank request.requested_by) requested_by_empty
  bail_if (is_blank request.title) title_empty
  bail_if (is_blank request.consequence_summary) consequence_summary_empty
  bail_if (is_blank request.token) token_empty
  bail_if (leb request.expires_at request.requested_at) expiry_not_after_request

-- The checks of `parse_actor_ref` on what `split_once(':')` gives.
unfoldable pub check_actor_ref : Option (Text × Text) → Result ApprovalError ApprovalActorRef
unfolding text_eq
check_actor_ref none = err actor_ref_format
check_actor_ref (some (surface, principal)) = do
  bail_if (is_empty surface || is_empty principal) actor_ref_format
  bail_if (text_eq surface (codes "system")) actor_ref_system
  ok (record { surface = surface; principal = principal })

unfoldable pub parse_actor_ref : Text → Result ApprovalError ApprovalActorRef
unfolding trim split_once check_actor_ref
parse_actor_ref actor_ref = check_actor_ref (split_once b':' (trim actor_ref))

abbrev pub is_external : ApprovalResolutionDecision → Bool
is_external ApprovalResolutionDecision.approved = true
is_external ApprovalResolutionDecision.rejected = true
is_external _ = false

unfoldable pub validate_resolution_attempt :
    ApprovalResolutionAttempt → Result ApprovalError (Unit {0})
validate_resolution_attempt attempt = do
  bail_if (is_blank attempt.token) attempt_token_empty
  bail_if (is_blank attempt.actor_ref) attempt_actor_empty
  actor ← parse_actor_ref attempt.actor_ref
  bail_if (not (is_external attempt.decision)) decision_not_external

unfoldable pub validate_resolution_actor :
    ApprovalRequestRecord → ApprovalResolutionAttempt → Result ApprovalError (Unit {0})
validate_resolution_actor request attempt = do
  requested_by ← parse_actor_ref request.requested_by
  actor ← parse_actor_ref attempt.actor_ref
  bail_if (not (text_eq actor.principal requested_by.principal)) principal_mismatch
