-- ===== src/Approval/Records.antt =====
-- The records of crates/harness/src/approval.rs, and of the audit events that it writes.
use blue_lagoon.Base.{Option, Text, codes, Result, ok, err, if◌then◌else◌, text_eq}
use blue_lagoon.Contracts.Action.{
  Uuid, Instant, GovernedActionFingerprint, GovernedActionKind, GovernedActionRiskTier,
  CapabilityScope, ApprovalRequestStatus, ApprovalResolutionDecision,
}

pub record NewApprovalRequestRecord : Type 0 where
  pub approval_request_id : Uuid
  pub trace_id : Uuid
  pub execution_id : Option Uuid
  pub action_proposal_id : Uuid
  pub action_fingerprint : GovernedActionFingerprint
  pub action_kind : GovernedActionKind
  pub risk_tier : GovernedActionRiskTier
  pub title : Text
  pub consequence_summary : Text
  pub capability_scope : CapabilityScope
  pub requested_by : Text
  pub token : Text
  pub requested_at : Instant
  pub expires_at : Instant

pub record ApprovalRequestRecord : Type 0 where
  pub approval_request_id : Uuid
  pub trace_id : Uuid
  pub execution_id : Option Uuid
  pub action_proposal_id : Uuid
  pub action_fingerprint : GovernedActionFingerprint
  pub action_kind : GovernedActionKind
  pub risk_tier : GovernedActionRiskTier
  pub title : Text
  pub consequence_summary : Text
  pub capability_scope : CapabilityScope
  pub status : ApprovalRequestStatus
  pub requested_by : Text
  pub token : Text
  pub requested_at : Instant
  pub expires_at : Instant
  pub resolved_at : Option Instant
  pub resolution_kind : Option ApprovalResolutionDecision
  pub resolved_by : Option Text
  pub resolution_reason : Option Text
  pub created_at : Instant
  pub updated_at : Instant

pub record ApprovalResolutionAttempt : Type 0 where
  pub token : Text
  pub actor_ref : Text
  pub expected_action_fingerprint : GovernedActionFingerprint
  pub decision : ApprovalResolutionDecision
  pub reason : Option Text
  pub resolved_at : Instant

pub record ApprovalResolutionEvent : Type 0 where
  pub resolution_id : Uuid
  pub approval_request_id : Uuid
  pub decision : ApprovalResolutionDecision
  pub resolved_by : Text
  pub resolved_at : Instant
  pub reason : Option Text

pub record ApprovalResolutionResult : Type 0 where
  pub request : ApprovalRequestRecord
  pub event : ApprovalResolutionEvent

pub record ApprovalActorRef : Type 0 where
  pub surface : Text
  pub principal : Text

pub record ResolutionTransition : Type 0 where
  pub decision : ApprovalResolutionDecision
  pub actor_ref : Text
  pub reason : Option Text
  pub event_kind : Text
  pub severity : Text

-- `write_approval_audit_event`; of the JSON payload, the request that the event is about.
pub record ApprovalAuditEvent : Type 0 where
  pub trace_id : Uuid
  pub execution_id : Option Uuid
  pub event_kind : Text
  pub severity : Text
  pub approval_request_id : Uuid

pub data ApprovalError : Type 0 where
  requested_by_empty title_empty consequence_summary_empty token_empty : ApprovalError
  expiry_not_after_request : ApprovalError
  attempt_token_empty attempt_actor_empty actor_ref_format actor_ref_system : ApprovalError
  decision_not_external : ApprovalError
  principal_mismatch : ApprovalError
  pending_limit_reached insert_conflict request_not_found no_longer_pending : ApprovalError
  unknown_label : (label : Text) → ApprovalError

abbrev pub approval_expiry_actor : Text
approval_expiry_actor = codes "system:approval-expiry"

abbrev pub approval_invalidation_actor : Text
approval_invalidation_actor = codes "system:approval-invalidation"

unfoldable pub approval_event_kind : ApprovalResolutionDecision → Text
approval_event_kind ApprovalResolutionDecision.approved = codes "approval_request_approved"
approval_event_kind ApprovalResolutionDecision.rejected = codes "approval_request_rejected"
approval_event_kind ApprovalResolutionDecision.expired = codes "approval_request_expired"
approval_event_kind ApprovalResolutionDecision.invalidated = codes "approval_request_invalidated"

unfoldable pub approval_event_severity : ApprovalResolutionDecision → Text
approval_event_severity ApprovalResolutionDecision.approved = codes "info"
approval_event_severity ApprovalResolutionDecision.rejected = codes "info"
approval_event_severity ApprovalResolutionDecision.expired = codes "warn"
approval_event_severity ApprovalResolutionDecision.invalidated = codes "warn"

abbrev pub approval_resolution_to_status : ApprovalResolutionDecision → ApprovalRequestStatus
approval_resolution_to_status ApprovalResolutionDecision.approved = ApprovalRequestStatus.approved
approval_resolution_to_status ApprovalResolutionDecision.rejected = ApprovalRequestStatus.rejected
approval_resolution_to_status ApprovalResolutionDecision.expired = ApprovalRequestStatus.expired
approval_resolution_to_status ApprovalResolutionDecision.invalidated =
    ApprovalRequestStatus.invalidated

unfoldable pub approval_request_status_as_str : ApprovalRequestStatus → Text
approval_request_status_as_str ApprovalRequestStatus.pending = codes "pending"
approval_request_status_as_str ApprovalRequestStatus.approved = codes "approved"
approval_request_status_as_str ApprovalRequestStatus.rejected = codes "rejected"
approval_request_status_as_str ApprovalRequestStatus.expired = codes "expired"
approval_request_status_as_str ApprovalRequestStatus.invalidated = codes "invalidated"

unfoldable pub parse_approval_request_status : Text → Result ApprovalError ApprovalRequestStatus
unfolding text_eq
parse_approval_request_status value =
    if text_eq value (codes "pending")
    then ok ApprovalRequestStatus.pending
    else if text_eq value (codes "approved")
    then ok ApprovalRequestStatus.approved
    else if text_eq value (codes "rejected")
    then ok ApprovalRequestStatus.rejected
    else if text_eq value (codes "expired")
    then ok ApprovalRequestStatus.expired
    else if text_eq value (codes "invalidated")
    then ok ApprovalRequestStatus.invalidated
    else err (unknown_label value)

unfoldable pub approval_resolution_decision_as_str : ApprovalResolutionDecision → Text
approval_resolution_decision_as_str ApprovalResolutionDecision.approved = codes "approved"
approval_resolution_decision_as_str ApprovalResolutionDecision.rejected = codes "rejected"
approval_resolution_decision_as_str ApprovalResolutionDecision.expired = codes "expired"
approval_resolution_decision_as_str ApprovalResolutionDecision.invalidated = codes "invalidated"

unfoldable pub parse_approval_resolution_decision :
    Text → Result ApprovalError ApprovalResolutionDecision
unfolding text_eq
parse_approval_resolution_decision value =
    if text_eq value (codes "approved")
    then ok ApprovalResolutionDecision.approved
    else if text_eq value (codes "rejected")
    then ok ApprovalResolutionDecision.rejected
    else if text_eq value (codes "expired")
    then ok ApprovalResolutionDecision.expired
    else if text_eq value (codes "invalidated")
    then ok ApprovalResolutionDecision.invalidated
    else err (unknown_label value)
