-- ===== src/Recovery/ActionState/Evidence.antt =====
-- An interrupted action is run again only if that is safe, and the terminal state is found exactly
-- where the evidence says that there is one.
use blue_lagoon.Base.{
  codes, ◌≡◌, ◌≢◌, refl, true, false, Option, none, some, Text, ok, is_some, arith,
}
use blue_lagoon.Contracts.Action.{Uuid, Instant}
use blue_lagoon.Recovery.Decision.{
  continue, retry, reapprove, ambiguous_or_nonrepeatable, RecoveryEvidenceState, durable_completed,
  is_durable_completed, valid, timeout_or_stall, classify_recovery_decision,
}
use blue_lagoon.GovernedActions.Records.{GovernedActionExecutionRecord}
use blue_lagoon.Recovery.ActionState.{
  WorkspaceScriptRunRecord, GovernedActionRecoveryContext, TerminalState,
  workspace_script_run_is_terminal, determine_governed_action_evidence_state,
  governed_action_terminal_state, determine_governed_action_approval_state,
  governed_action_recovery_action_classification, load_governed_action_recovery_context,
  timeout_decision_request, ExecutionRecord,
}

-- A script run that has not ended.
abbrev pub IsUnfinished : Option WorkspaceScriptRunRecord → Type 0
IsUnfinished none = ⊥
IsUnfinished (some run) = workspace_script_run_is_terminal run.status ≡ false

-- A terminal state is found only where the evidence is that the action was completed.
pub terminal_state-durable_completed :
    (c : GovernedActionRecoveryContext) (now : Instant) (t : TerminalState)
    → governed_action_terminal_state c now ≡ some t
    → determine_governed_action_evidence_state c.record_ c.execution_record c.workspace_script_run
      ≡ durable_completed
unfolding governed_action_terminal_state determine_governed_action_evidence_state
terminal_state-durable_completed c now t h = ground arith

-- Where the evidence is that the action was completed and no script run is unfinished, a terminal
-- state is found.
pub durable_completed-terminal_state :
    (c : GovernedActionRecoveryContext) (now : Instant)
    → determine_governed_action_evidence_state c.record_ c.execution_record c.workspace_script_run
      ≡ durable_completed
    → (IsUnfinished c.workspace_script_run → ⊥)
    → is_some (governed_action_terminal_state c now) ≡ true
unfolding governed_action_terminal_state determine_governed_action_evidence_state
durable_completed-terminal_state c now h k = ground arith

is_durable_completed-false :
    (e : RecoveryEvidenceState) → e ≢ durable_completed → is_durable_completed e ≡ false
is_durable_completed-false durable_completed h = absurd (h refl)
is_durable_completed-false RecoveryEvidenceState.not_started h = refl
is_durable_completed-false RecoveryEvidenceState.durable_incomplete h = refl
is_durable_completed-false RecoveryEvidenceState.ambiguous h = refl
is_durable_completed-false RecoveryEvidenceState.corrupted h = refl

-- A governed action whose lease timed out, that is not safe to replay and whose evidence is not that
-- it was completed, is neither continued nor retried, whatever the status of its approval request.
pub timed_out_action_is_not_run_again :
    (r : GovernedActionExecutionRecord) (execution : Option ExecutionRecord)
    (script_run : Option WorkspaceScriptRunRecord) (status : Option Text)
    (c : GovernedActionRecoveryContext)
    → load_governed_action_recovery_context r execution script_run status timeout_or_stall valid
      ≡ ok c
    → governed_action_recovery_action_classification r ≡ ambiguous_or_nonrepeatable
    → determine_governed_action_evidence_state r execution script_run ≢ durable_completed
    → (classify_recovery_decision (timeout_decision_request c) ≢ continue)
      × (classify_recovery_decision (timeout_decision_request c) ≢ retry)
unfolding load_governed_action_recovery_context determine_governed_action_approval_state
    timeout_decision_request classify_recovery_decision
timed_out_action_is_not_run_again r execution script_run status c h a e =
    let not_completed =
      is_durable_completed-false (determine_governed_action_evidence_state r execution script_run)
        e in
    (ground (arith, not_completed), ground (arith, not_completed))

-- A governed action that was approved, whose lease timed out, that is not safe to replay and whose
-- evidence is not that it was completed, needs a new approval: the old one is spent.
pub approved_action_is_reapproved :
    (r : GovernedActionExecutionRecord) (execution : Option ExecutionRecord)
    (script_run : Option WorkspaceScriptRunRecord) (id : Uuid) (c : GovernedActionRecoveryContext)
    → r.approval_request_id ≡ some id
    → load_governed_action_recovery_context r execution script_run
        (some (codes "approved"))
        timeout_or_stall
        valid
      ≡ ok c
    → governed_action_recovery_action_classification r ≡ ambiguous_or_nonrepeatable
    → determine_governed_action_evidence_state r execution script_run ≢ durable_completed
    → classify_recovery_decision (timeout_decision_request c) ≡ reapprove
unfolding load_governed_action_recovery_context determine_governed_action_approval_state
    timeout_decision_request classify_recovery_decision
approved_action_is_reapproved r execution script_run id c asked h a e =
    let not_completed =
      is_durable_completed-false (determine_governed_action_evidence_state r execution script_run)
        e in
    ground (arith, not_completed)
