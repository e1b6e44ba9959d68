-- ===== src/Recovery/ActionState.antt =====
-- The evidence that an interrupted governed action left, of crates/harness/src/recovery.rs. Of the
-- records that the database gives, the fields that are read; of the JSON payload of a response, the
-- texts under `summary` and `status`.
pub mod Evidence
use blue_lagoon.Base.{
  Bool, true, false, ◌&&◌, ◌||◌, not, Option, none, some, Text, codes, text_eq, is_some, unwrap_or,
  if◌then◌else◌, Result, ok, err, ◌>>=◌, ℤ, pos,
}
use blue_lagoon.Contracts.Action.{
  Uuid, Instant, GovernedActionKind, GovernedActionStatus, WorkspaceScriptRunStatus,
}
use blue_lagoon.GovernedActions.Records.{GovernedActionExecutionRecord}
use blue_lagoon.Recovery.Decision.{
  RecoveryActionClassification, safe_replay, ambiguous_or_nonrepeatable, RecoveryEvidenceState,
  not_started, durable_incomplete, durable_completed, ambiguous, RecoveryApprovalState,
  RecoveryPolicyState, valid, RecoveryReasonCode, timeout_or_stall, is_ambiguous,
  is_durable_completed, RecoveryCheckpointKind, RecoveryDecisionRequest,
}

pub record ResponsePayload : Type 0 where
  pub summary : Option Text
  pub status : Option Text

pub record ExecutionRecord : Type 0 where
  pub status : Text
  pub response_payload : Option ResponsePayload
  pub completed_at : Option Instant

pub record WorkspaceScriptRunRecord : Type 0 where
  pub status : WorkspaceScriptRunStatus
  pub failure_summary : Option Text
  pub completed_at : Option Instant

pub record GovernedActionRecoveryContext : Type 0 where
  pub record_ : GovernedActionExecutionRecord
  pub execution_record : Option ExecutionRecord
  pub workspace_script_run : Option WorkspaceScriptRunRecord
  pub action_classification : RecoveryActionClassification
  pub evidence_state : RecoveryEvidenceState
  pub approval_state : RecoveryApprovalState
  pub clarification_available : Bool

abbrev pub is_terminal_execution : ExecutionRecord → Bool
is_terminal_execution e = text_eq e.status (codes "completed") || text_eq e.status (codes "failed")

unfoldable pub governed_action_has_terminal_evidence :
    GovernedActionExecutionRecord → Option ExecutionRecord → Bool
unfolding text_eq
governed_action_has_terminal_evidence record_ none = is_some record_.completed_at
governed_action_has_terminal_evidence record_ (some e) =
    is_some record_.completed_at || is_terminal_execution e

unfoldable pub workspace_script_run_is_terminal : WorkspaceScriptRunStatus → Bool
workspace_script_run_is_terminal WorkspaceScriptRunStatus.completed = true
workspace_script_run_is_terminal WorkspaceScriptRunStatus.failed = true
workspace_script_run_is_terminal WorkspaceScriptRunStatus.timed_out = true
workspace_script_run_is_terminal WorkspaceScriptRunStatus.blocked = true
workspace_script_run_is_terminal WorkspaceScriptRunStatus.pending = false
workspace_script_run_is_terminal WorkspaceScriptRunStatus.running = false

abbrev pub script_run_has_ended : Option WorkspaceScriptRunRecord → Bool
script_run_has_ended none = false
script_run_has_ended (some run) = workspace_script_run_is_terminal run.status

abbrev pub runs_a_process : GovernedActionKind → Bool
runs_a_process GovernedActionKind.run_subprocess = true
runs_a_process GovernedActionKind.run_workspace_script = true
runs_a_process _ = false

unfoldable pub determine_governed_action_evidence_state :
    GovernedActionExecutionRecord
    → Option ExecutionRecord
    → Option WorkspaceScriptRunRecord
    → RecoveryEvidenceState
unfolding governed_action_has_terminal_evidence workspace_script_run_is_terminal
determine_governed_action_evidence_state record_ execution script_run =
    if governed_action_has_terminal_evidence record_ execution
    then durable_completed
    else if script_run_has_ended script_run
    then durable_completed
    else if is_some record_.started_at
    then if runs_a_process record_.action_kind then ambiguous else durable_incomplete
    else not_started

unfoldable pub governed_action_recovery_action_classification :
    GovernedActionExecutionRecord → RecoveryActionClassification
governed_action_recovery_action_classification record_ = elim record_.action_kind [
  | GovernedActionKind.inspect_workspace_artifact ↦ safe_replay
  | GovernedActionKind.list_workspace_artifacts ↦ safe_replay
  | GovernedActionKind.list_workspace_scripts ↦ safe_replay
  | GovernedActionKind.inspect_workspace_script ↦ safe_replay
  | GovernedActionKind.list_workspace_script_runs ↦ safe_replay
  | GovernedActionKind.run_diagnostic ↦ safe_replay
  | _ ↦ ambiguous_or_nonrepeatable
]

abbrev status_under : Option ResponsePayload → Option Text
status_under none = none
status_under (some payload) = payload.status

abbrev summary_under : Option ResponsePayload → Option Text
summary_under none = none
summary_under (some payload) = payload.summary

-- "failed", "timed_out" and every other status end in the same arm.
abbrev failed_execution_status : Option Text → GovernedActionStatus
failed_execution_status none = GovernedActionStatus.failed
failed_execution_status (some status) =
    if text_eq status (codes "blocked")
    then GovernedActionStatus.blocked
    else if text_eq status (codes "completed")
    then GovernedActionStatus.executed
    else GovernedActionStatus.failed

-- The status, the reason and the time of the end.
abbrev pub TerminalState : Type 0
TerminalState = GovernedActionStatus × Option Text × Instant

abbrev execution_terminal_state : ExecutionRecord → (now : Instant) → Option TerminalState
execution_terminal_state e now =
    if text_eq e.status (codes "completed")
    then some (GovernedActionStatus.executed, none, unwrap_or e.completed_at now)
    else if text_eq e.status (codes "failed")
    then some (
      failed_execution_status (status_under e.response_payload),
      summary_under e.response_payload,
      unwrap_or e.completed_at now,
    )
    else none

abbrev pub script_status_to_action_status : WorkspaceScriptRunStatus → Option GovernedActionStatus
script_status_to_action_status WorkspaceScriptRunStatus.completed =
    some GovernedActionStatus.executed
script_status_to_action_status WorkspaceScriptRunStatus.blocked = some GovernedActionStatus.blocked
script_status_to_action_status WorkspaceScriptRunStatus.failed = some GovernedActionStatus.failed
script_status_to_action_status WorkspaceScriptRunStatus.timed_out = some GovernedActionStatus.failed
script_status_to_action_status WorkspaceScriptRunStatus.pending = none
script_status_to_action_status WorkspaceScriptRunStatus.running = none

abbrev script_terminal_state : WorkspaceScriptRunRecord → (now : Instant) → Option TerminalState
script_terminal_state run now = elim (script_status_to_action_status run.status) [
  | none ↦ none
  | some status ↦ some (status, run.failure_summary, unwrap_or run.completed_at now)
]

abbrev record_terminal_state : GovernedActionExecutionRecord → Option TerminalState
record_terminal_state r = elim r.completed_at [
  | none ↦ none
  | some completed_at ↦ some (r.status, r.blocked_reason, completed_at)
]

-- What follows the execution record: the script run, and the record only if there is no run.
abbrev later_terminal_state : GovernedActionRecoveryContext → (now : Instant) → Option TerminalState
later_terminal_state context now = elim context.workspace_script_run [
  | some run ↦ script_terminal_state run now
  | none ↦ record_terminal_state context.record_
]

abbrev or_later : Option TerminalState → Option TerminalState → Option TerminalState
or_later (some t) later = some t
or_later none later = later

unfoldable pub governed_action_terminal_state :
    GovernedActionRecoveryContext → (now : Instant) → Option TerminalState
unfolding text_eq
governed_action_terminal_state context now = elim context.execution_record [
  | some e ↦ or_later (execution_terminal_state e now) (later_terminal_state context now)
  | none ↦ later_terminal_state context now
]

unfoldable pub workspace_script_run_status_from_governed_action_status :
    GovernedActionStatus → (has_failure_summary : Bool) → Option WorkspaceScriptRunStatus
workspace_script_run_status_from_governed_action_status GovernedActionStatus.executed b =
    some WorkspaceScriptRunStatus.completed
workspace_script_run_status_from_governed_action_status GovernedActionStatus.blocked b =
    some WorkspaceScriptRunStatus.blocked
workspace_script_run_status_from_governed_action_status GovernedActionStatus.failed b =
    if b then some WorkspaceScriptRunStatus.failed else some WorkspaceScriptRunStatus.timed_out
workspace_script_run_status_from_governed_action_status _ b = none

pub data ActionStateError : Type 0 where
  unrecognized_approval_status : (status : Text) → ActionStateError

abbrev pub mapped_approval_state : Text → Result ActionStateError RecoveryApprovalState
mapped_approval_state status =
    if text_eq status (codes "pending")
    then ok RecoveryApprovalState.pending
    else if text_eq status (codes "approved")
    then ok RecoveryApprovalState.approved_fresh
    else if text_eq status (codes "rejected")
    then ok RecoveryApprovalState.rejected
    else if text_eq status (codes "expired")
    then ok RecoveryApprovalState.expired
    else if text_eq status (codes "invalidated")
    then ok RecoveryApprovalState.invalidated
    else err (unrecognized_approval_status status)

abbrev pub is_timeout : RecoveryReasonCode → Bool
is_timeout timeout_or_stall = true
is_timeout _ = false

abbrev pub is_valid : RecoveryPolicyState → Bool
is_valid valid = true
is_valid _ = false

-- An approval does not cover a second run of an action that may have run once.
abbrev pub spent_approval :
    RecoveryActionClassification
    → RecoveryEvidenceState
    → RecoveryReasonCode
    → RecoveryPolicyState
    → RecoveryApprovalState
    → RecoveryApprovalState
spent_approval classification evidence reason policy RecoveryApprovalState.approved_fresh =
    if is_ambiguous classification
      && is_timeout reason
      && is_valid policy
      && not (is_durable_completed evidence)
    then RecoveryApprovalState.missing_required
    else RecoveryApprovalState.approved_fresh
spent_approval classification evidence reason policy mapped = mapped

-- `status` is the status of the approval request, if the table has it.
unfoldable pub determine_governed_action_approval_state :
    GovernedActionExecutionRecord
    → (status : Option Text) → RecoveryActionClassification
    → RecoveryEvidenceState
    → RecoveryReasonCode
    → RecoveryPolicyState
    → Result ActionStateError RecoveryApprovalState
unfolding text_eq
determine_governed_action_approval_state record_ status classification evidence reason policy =
    elim record_.approval_request_id [
      | none ↦ ok RecoveryApprovalState.not_required
      | some id ↦ elim status [
        | none ↦ ok RecoveryApprovalState.missing_required
        | some s ↦ elim (mapped_approval_state s) [
          | err e ↦ err e
          | ok mapped ↦ ok (spent_approval classification evidence reason policy mapped)
        ]
      ]
    ]

abbrev pub is_not_required : RecoveryApprovalState → Bool
is_not_required RecoveryApprovalState.not_required = true
is_not_required _ = false

-- The execution record and the script run are looked up only for an action that has them; they, and
-- the status of the approval request, are arguments.
unfoldable pub load_governed_action_recovery_context :
    GovernedActionExecutionRecord
    → Option ExecutionRecord
    → Option WorkspaceScriptRunRecord
    → (status : Option Text) → RecoveryReasonCode
    → RecoveryPolicyState
    → Result ActionStateError GovernedActionRecoveryContext
unfolding governed_action_recovery_action_classification determine_governed_action_evidence_state
    determine_governed_action_approval_state
load_governed_action_recovery_context r execution script_run status reason policy = do
  let classification = governed_action_recovery_action_classification r
  let evidence = determine_governed_action_evidence_state r execution script_run
  approval ← determine_governed_action_approval_state r status classification evidence reason policy
  ok (record {
    record_ = r;
    execution_record = execution;
    workspace_script_run = script_run;
    action_classification = classification;
    evidence_state = evidence;
    approval_state = approval;
    clarification_available = is_ambiguous classification && is_not_required approval;
  })

-- What `recover_governed_action_worker_lease_timeout` has decided.
unfoldable pub timeout_decision_request : GovernedActionRecoveryContext → RecoveryDecisionRequest
timeout_decision_request context = record {
  checkpoint_kind = RecoveryCheckpointKind.governed_action;
  reason_code = timeout_or_stall;
  action_classification = context.action_classification;
  evidence_state = context.evidence_state;
  approval_state = context.approval_state;
  policy_state = valid;
  recovery_budget_remaining = pos 1;
  clarification_available = context.clarification_available;
}
