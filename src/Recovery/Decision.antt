-- ===== src/Recovery/Decision.antt =====
-- `evaluate_recovery_decision` of crates/harness/src/recovery.rs.
pub mod Safety
use blue_lagoon.Base.{
  ℤ, pos, negsuc, Bool, true, false, ◌||◌, if◌then◌else◌, int_eq, Result, ok, err, bail_if, ◌>>=◌,
  ◌>>◌,
}

pub data RecoveryCheckpointKind : Type 0 where
  foreground background governed_action : RecoveryCheckpointKind

pub data RecoveryReasonCode : Type 0 where
  crash timeout_or_stall supervisor_restart approval_transition : RecoveryReasonCode
  integrity_or_policy_block : RecoveryReasonCode

pub data RecoveryCheckpointStatus : Type 0 where
  open_status resolved abandoned invalidated : RecoveryCheckpointStatus

pub data RecoveryDecision : Type 0 where
  continue retry defer reapprove clarify abandon : RecoveryDecision

pub data RecoveryActionClassification : Type 0 where
  safe_replay provably_idempotent_external : RecoveryActionClassification
  ambiguous_or_nonrepeatable : RecoveryActionClassification

pub data RecoveryEvidenceState : Type 0 where
  not_started durable_incomplete durable_completed ambiguous corrupted : RecoveryEvidenceState

pub data RecoveryApprovalState : Type 0 where
  not_required pending approved_fresh expired invalidated : RecoveryApprovalState
  rejected missing_required : RecoveryApprovalState

pub data RecoveryPolicyState : Type 0 where
  valid requires_recheck recheck_failed : RecoveryPolicyState

pub record RecoveryDecisionRequest : Type 0 where
  pub checkpoint_kind : RecoveryCheckpointKind
  pub reason_code : RecoveryReasonCode
  pub action_classification : RecoveryActionClassification
  pub evidence_state : RecoveryEvidenceState
  pub approval_state : RecoveryApprovalState
  pub policy_state : RecoveryPolicyState
  pub recovery_budget_remaining : ℤ
  pub clarification_available : Bool

-- The sentences of `recovery_decision_summary` and `recovery_abandonment_summary`.
pub data RecoverySummary : Type 0 where
  fresh_worker_continuation within_budget deferred_until_approval : RecoverySummary
  fresh_approval_required clarification_required : RecoverySummary
  budget_exhausted evidence_corrupted policy_blocked approval_rejected : RecoverySummary
  no_clarification_path cannot_continue : RecoverySummary

pub record RecoveryDecisionOutcome : Type 0 where
  pub decision : RecoveryDecision
  pub checkpoint_status : RecoveryCheckpointStatus
  pub summary : RecoverySummary

pub data RecoveryError : Type 0 where
  budget_negative unsupported_approval_state resolution_status_open : RecoveryError
  checkpoint_conflict checkpoint_not_found diagnostic_conflict : RecoveryError
  diagnostic_field_empty checkpoint_budget_negative : RecoveryError

abbrev pub is_corrupted : RecoveryEvidenceState → Bool
is_corrupted corrupted = true
is_corrupted _ = false

abbrev pub is_durable_completed : RecoveryEvidenceState → Bool
is_durable_completed durable_completed = true
is_durable_completed _ = false

abbrev pub is_recheck_failed : RecoveryPolicyState → Bool
is_recheck_failed recheck_failed = true
is_recheck_failed _ = false

abbrev pub is_policy_block : RecoveryReasonCode → Bool
is_policy_block integrity_or_policy_block = true
is_policy_block _ = false

abbrev pub is_rejected : RecoveryApprovalState → Bool
is_rejected rejected = true
is_rejected _ = false

abbrev pub is_ambiguous : RecoveryActionClassification → Bool
is_ambiguous ambiguous_or_nonrepeatable = true
is_ambiguous _ = false

-- `budget < 0`
abbrev pub is_negative : ℤ → Bool
is_negative (pos n) = false
is_negative (negsuc n) = true

unfoldable pub validate_recovery_decision_request :
    RecoveryDecisionRequest → Result RecoveryError (Unit {0})
validate_recovery_decision_request request =
    bail_if (is_negative request.recovery_budget_remaining) budget_negative

abbrev replay_decision : RecoveryCheckpointKind → RecoveryDecision
replay_decision foreground = continue
replay_decision background = retry
replay_decision governed_action = retry

-- The last `match`, on the classification of the action.
abbrev decide_by_classification :
    RecoveryActionClassification → RecoveryCheckpointKind → Bool → RecoveryDecision
decide_by_classification safe_replay kind clarification = replay_decision kind
decide_by_classification provably_idempotent_external kind clarification = retry
decide_by_classification ambiguous_or_nonrepeatable kind clarification =
    if clarification then clarify else abandon

-- The `match` on the approval state; `next` is the code behind it. The `rejected` arm is
-- `unreachable!`, since a rejection was decided before: it is given the decision made there.
abbrev decide_by_approval : RecoveryApprovalState → RecoveryDecision → RecoveryDecision
decide_by_approval pending next = defer
decide_by_approval expired next = reapprove
decide_by_approval invalidated next = reapprove
decide_by_approval missing_required next = reapprove
decide_by_approval not_required next = next
decide_by_approval approved_fresh next = next
decide_by_approval rejected next = abandon

unfoldable pub classify_recovery_decision : RecoveryDecisionRequest → RecoveryDecision
classify_recovery_decision request =
    if int_eq request.recovery_budget_remaining (pos 0)
    then abandon
    else if is_corrupted request.evidence_state
        || is_recheck_failed request.policy_state
        || is_policy_block request.reason_code
        || is_rejected request.approval_state
    then abandon
    else decide_by_approval request.approval_state (
        if is_durable_completed request.evidence_state
        then continue
        else decide_by_classification request.action_classification request.checkpoint_kind
            request.clarification_available)

abbrev pub checkpoint_status_for_decision : RecoveryDecision → RecoveryCheckpointStatus
checkpoint_status_for_decision abandon = abandoned
checkpoint_status_for_decision _ = resolved

unfoldable pub recovery_abandonment_summary : RecoveryDecisionRequest → RecoverySummary
recovery_abandonment_summary request =
    if int_eq request.recovery_budget_remaining (pos 0)
    then budget_exhausted
    else if is_corrupted request.evidence_state
    then evidence_corrupted
    else if is_recheck_failed request.policy_state || is_policy_block request.reason_code
    then policy_blocked
    else if is_rejected request.approval_state
    then approval_rejected
    else if is_ambiguous request.action_classification
    then no_clarification_path
    else cannot_continue

unfoldable pub recovery_decision_summary :
    RecoveryDecisionRequest → RecoveryDecision → RecoverySummary
unfolding recovery_abandonment_summary
recovery_decision_summary request continue = fresh_worker_continuation
recovery_decision_summary request retry = within_budget
recovery_decision_summary request defer = deferred_until_approval
recovery_decision_summary request reapprove = fresh_approval_required
recovery_decision_summary request clarify = clarification_required
recovery_decision_summary request abandon = recovery_abandonment_summary request

unfoldable pub evaluate_recovery_decision :
    RecoveryDecisionRequest → Result RecoveryError RecoveryDecisionOutcome
unfolding validate_recovery_decision_request
evaluate_recovery_decision request = do
  validate_recovery_decision_request request
  let decision = classify_recovery_decision request
  ok (record {
    decision = decision;
    checkpoint_status = checkpoint_status_for_decision decision;
    summary = recovery_decision_summary request decision;
  })
