-- ===== src/Tests/Recoveries.antt =====
-- Recovery decisions, an expired approval, and a subprocess that timed out.
use blue_lagoon.Base.{
  ◌≡◌, ◌≢◌, ◌↔◌, ◌⊎◌, refl, pos, true, false, none, some, [], ◌∷◌, codes, is_blank, any, ok, err,
}
use blue_lagoon.Contracts.Action.{
  GovernedActionKind, GovernedActionStatus, WorkspaceScriptRunStatus,
}
use blue_lagoon.Recovery.Decision.{
  reapprove, RecoveryCheckpointKind, timeout_or_stall, open_status, abandoned, resolved, continue,
  retry, abandon, safe_replay, ambiguous_or_nonrepeatable, RecoveryEvidenceState, durable_completed,
  RecoveryApprovalState, valid, RecoveryDecisionRequest, RecoveryDecisionOutcome, budget_negative,
  budget_exhausted, cannot_continue, is_negative, classify_recovery_decision,
  evaluate_recovery_decision,
}
use blue_lagoon.Recovery.Decision.Safety.{IsCleared, runs_on_iff, evaluate_recovery_decision_total}
use blue_lagoon.Recovery.Checkpoint.{
  RecoveryStore, RecoveryTriggerOutcome, recover_approval_request_transition,
}
use blue_lagoon.Recovery.Checkpoint.Trigger.{
  transition_outcome, IsFreshCheckpoint, IsFreshDiagnostic, recover_approval_request_transition_lem,
}
use blue_lagoon.GovernedActions.Records.{GovernedActionExecutionRecord}
use blue_lagoon.Recovery.ActionState.{
  WorkspaceScriptRunRecord, GovernedActionRecoveryContext, determine_governed_action_evidence_state,
  load_governed_action_recovery_context, timeout_decision_request,
  governed_action_recovery_action_classification,
}
use blue_lagoon.Recovery.ActionState.Evidence.{
  timed_out_action_is_not_run_again, approved_action_is_reapproved,
}
use blue_lagoon.Tests.Samples.{pending_row, execution_row}

abbrev request : RecoveryDecisionRequest
request = record {
  checkpoint_kind = RecoveryCheckpointKind.background;
  reason_code = timeout_or_stall;
  action_classification = safe_replay;
  evidence_state = RecoveryEvidenceState.durable_incomplete;
  approval_state = RecoveryApprovalState.not_required;
  policy_state = valid;
  recovery_budget_remaining = pos 1;
  clarification_available = false;
}

runs_on_iff_example :
    ((classify_recovery_decision request ≡ continue) ⊎ (classify_recovery_decision request ≡ retry))
    ↔ (IsCleared request
        × ((request.evidence_state ≡ durable_completed)
            ⊎ (request.action_classification ≢ ambiguous_or_nonrepeatable)))
runs_on_iff_example = runs_on_iff request

evaluate_recovery_decision_total_example :
    ((is_negative request.recovery_budget_remaining ≡ true)
      × (evaluate_recovery_decision request ≡ err budget_negative))
    ⊎ ((outcome : RecoveryDecisionOutcome) × (is_negative request.recovery_budget_remaining ≡ false)
        × (evaluate_recovery_decision request ≡ ok outcome)
        × (outcome.decision ≡ classify_recovery_decision request)
        × (outcome.checkpoint_status ≢ open_status)
        × ((outcome.checkpoint_status ≡ abandoned) ↔ (outcome.decision ≡ abandon))
        × ((outcome.summary ≡ budget_exhausted) ↔ (request.recovery_budget_remaining ≡ pos 0))
        × (outcome.summary ≢ cannot_continue))
evaluate_recovery_decision_total_example = evaluate_recovery_decision_total request

abbrev nothing : RecoveryStore
nothing = record { checkpoints = []; diagnostics = [] }

reason_filled : is_blank (codes "approval_request_expired") ≡ false
unfolding is_blank
reason_filled = refl

fresh_checkpoint : IsFreshCheckpoint 60 nothing
unfolding any
fresh_checkpoint = refl

fresh_diagnostic : IsFreshDiagnostic 70 nothing
unfolding any
fresh_diagnostic = refl

recover_approval_request_transition_example :
    let (result, after) =
      recover_approval_request_transition 201 none 60 70 pending_row RecoveryApprovalState.expired
        200
        (codes "approval_request_expired")
        nothing in
    (outcome : RecoveryTriggerOutcome) × (result ≡ ok outcome)
    × (outcome.decision ≡ transition_outcome RecoveryApprovalState.expired)
    × (outcome.checkpoint.status ≡ resolved)
    × (outcome.checkpoint.approval_request_id ≡ some 7)
    × (outcome.checkpoint.resolved_at ≡ some 200)
    × (outcome.checkpoint.recovery_checkpoint_id ≡ 60)
    × (outcome.diagnostic.operational_diagnostic_id ≡ 70)
    × (after.checkpoints ≡ outcome.checkpoint ∷ [])
    × (after.diagnostics ≡ outcome.diagnostic ∷ [])
recover_approval_request_transition_example =
    recover_approval_request_transition_lem 201 none 60 70 pending_row RecoveryApprovalState.expired
      200 (codes "approval_request_expired") nothing refl reason_filled fresh_checkpoint
      fresh_diagnostic

abbrev started : GovernedActionExecutionRecord
started = record execution_row {
  approval_request_id = some 7;
  action_kind = GovernedActionKind.run_workspace_script;
  status = GovernedActionStatus.approved;
  started_at = some 120;
}

abbrev run_in : WorkspaceScriptRunStatus → WorkspaceScriptRunRecord
run_in status = record { status = status; failure_summary = none; completed_at = none }

abbrev context : GovernedActionRecoveryContext
context = record {
  record_ = started;
  execution_record = none;
  workspace_script_run = some (run_in WorkspaceScriptRunStatus.running);
  action_classification = ambiguous_or_nonrepeatable;
  evidence_state = RecoveryEvidenceState.ambiguous;
  approval_state = RecoveryApprovalState.missing_required;
  clarification_available = false;
}

context_is_loaded :
    load_governed_action_recovery_context started none
      (some (run_in WorkspaceScriptRunStatus.running))
      (some (codes "approved"))
      timeout_or_stall
      valid
    ≡ ok context
unfolding load_governed_action_recovery_context
context_is_loaded = refl

script_is_ambiguous :
    governed_action_recovery_action_classification started ≡ ambiguous_or_nonrepeatable
unfolding governed_action_recovery_action_classification
script_is_ambiguous = refl

script_is_not_completed :
    determine_governed_action_evidence_state started none
      (some (run_in WorkspaceScriptRunStatus.running))
    ≢ durable_completed
unfolding determine_governed_action_evidence_state
script_is_not_completed = λ h. cc

timed_out_action_is_not_run_again_example :
    (classify_recovery_decision (timeout_decision_request context) ≢ continue)
    × (classify_recovery_decision (timeout_decision_request context) ≢ retry)
timed_out_action_is_not_run_again_example =
    timed_out_action_is_not_run_again started none (some (run_in WorkspaceScriptRunStatus.running))
      (some (codes "approved")) context context_is_loaded script_is_ambiguous
      script_is_not_completed

approved_action_is_reapproved_example :
    classify_recovery_decision (timeout_decision_request context) ≡ reapprove
approved_action_is_reapproved_example =
    approved_action_is_reapproved started none (some (run_in WorkspaceScriptRunStatus.running)) 7
      context refl context_is_loaded script_is_ambiguous script_is_not_completed
