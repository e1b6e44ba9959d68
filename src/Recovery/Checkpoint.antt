-- ===== src/Recovery/Checkpoint.antt =====
-- The tables of recovery checkpoints and of operational diagnostics, and the trigger that writes
-- both, of crates/harness/src/recovery.rs. The JSON payloads are left out. `clock` is the database's
-- `NOW()`, and the ids that `Uuid::now_v7` draws are arguments.
pub mod Trigger
use blue_lagoon.Base.{
  ℕ, ℤ, pos, Bool, true, false, not, ◌||◌, Option, none, some, List, [], ◌∷◌, ◌++◌, map, Text,
  codes, ◌==◌, if◌then◌else◌, any, find, is_some, is_blank, Result, ok, err, bail_if,
}
use blue_lagoon.Base.State.{Action, lift, ◌>>=◌, ◌>>◌}
use blue_lagoon.Contracts.Action.{Uuid, Instant}
use blue_lagoon.Approval.Records.{ApprovalRequestRecord}
use blue_lagoon.Recovery.Decision.{
  RecoveryCheckpointKind, foreground, governed_action, RecoveryReasonCode, approval_transition,
  RecoveryCheckpointStatus, open_status, RecoveryDecision, RecoveryActionClassification,
  safe_replay, ambiguous_or_nonrepeatable, not_started, RecoveryApprovalState, pending, expired,
  invalidated, missing_required, valid, RecoveryDecisionRequest, RecoverySummary,
  RecoveryDecisionOutcome, RecoveryError, unsupported_approval_state, resolution_status_open,
  checkpoint_conflict, checkpoint_not_found, diagnostic_conflict, diagnostic_field_empty,
  checkpoint_budget_negative, is_negative, evaluate_recovery_decision,
}

pub record NewRecoveryCheckpoint : Type 0 where
  pub recovery_checkpoint_id : Uuid
  pub trace_id : Uuid
  pub execution_id : Option Uuid
  pub background_job_id : Option Uuid
  pub background_job_run_id : Option Uuid
  pub governed_action_execution_id : Option Uuid
  pub approval_request_id : Option Uuid
  pub checkpoint_kind : RecoveryCheckpointKind
  pub recovery_reason_code : RecoveryReasonCode
  pub recovery_budget_remaining : ℤ

pub record RecoveryCheckpointRecord : Type 0 where
  pub recovery_checkpoint_id : Uuid
  pub trace_id : Uuid
  pub execution_id : Option Uuid
  pub background_job_id : Option Uuid
  pub background_job_run_id : Option Uuid
  pub governed_action_execution_id : Option Uuid
  pub approval_request_id : Option Uuid
  pub checkpoint_kind : RecoveryCheckpointKind
  pub recovery_reason_code : RecoveryReasonCode
  pub status : RecoveryCheckpointStatus
  pub recovery_decision : Option RecoveryDecision
  pub recovery_budget_remaining : ℤ
  pub resolved_summary : Option RecoverySummary
  pub created_at : Instant
  pub updated_at : Instant
  pub resolved_at : Option Instant

pub record RecoveryCheckpointResolution : Type 0 where
  pub recovery_checkpoint_id : Uuid
  pub status : RecoveryCheckpointStatus
  pub recovery_decision : RecoveryDecision
  pub resolved_summary : Option RecoverySummary
  pub resolved_at : Instant

pub data OperationalDiagnosticSeverity : Type 0 where
  info warn error critical : OperationalDiagnosticSeverity

pub record NewOperationalDiagnostic : Type 0 where
  pub operational_diagnostic_id : Uuid
  pub trace_id : Option Uuid
  pub execution_id : Option Uuid
  pub subsystem : Text
  pub severity : OperationalDiagnosticSeverity
  pub reason_code : Text
  pub summary : Text

pub record OperationalDiagnosticRecord : Type 0 where
  pub operational_diagnostic_id : Uuid
  pub trace_id : Option Uuid
  pub execution_id : Option Uuid
  pub subsystem : Text
  pub severity : OperationalDiagnosticSeverity
  pub reason_code : Text
  pub summary : Text
  pub created_at : Instant

pub record RecoveryStore : Type 0 where
  pub checkpoints : List RecoveryCheckpointRecord
  pub diagnostics : List OperationalDiagnosticRecord

pub record RecoveryTriggerOutcome : Type 0 where
  pub checkpoint : RecoveryCheckpointRecord
  pub decision : RecoveryDecisionOutcome
  pub diagnostic : OperationalDiagnosticRecord

abbrev pub RecoveryAction : Type 0 → Type 0
RecoveryAction A = Action RecoveryStore RecoveryError A

abbrev pub or_not_found : {A : Type 0} → Option A → Result RecoveryError A
or_not_found none = err checkpoint_not_found
or_not_found (some a) = ok a

unfoldable pub get_recovery_checkpoint : Uuid → RecoveryAction RecoveryCheckpointRecord
unfolding find
get_recovery_checkpoint id s =
    (or_not_found (find (λ c. c.recovery_checkpoint_id == id) s.checkpoints), s)

unfoldable pub get_operational_diagnostic : Uuid → RecoveryAction OperationalDiagnosticRecord
unfolding find
get_operational_diagnostic id s =
    (or_not_found (find (λ d. d.operational_diagnostic_id == id) s.diagnostics), s)

abbrev pub opened : Instant → NewRecoveryCheckpoint → RecoveryCheckpointRecord
opened clock c = record {
  recovery_checkpoint_id = c.recovery_checkpoint_id;
  trace_id = c.trace_id;
  execution_id = c.execution_id;
  background_job_id = c.background_job_id;
  background_job_run_id = c.background_job_run_id;
  governed_action_execution_id = c.governed_action_execution_id;
  approval_request_id = c.approval_request_id;
  checkpoint_kind = c.checkpoint_kind;
  recovery_reason_code = c.recovery_reason_code;
  status = open_status;
  recovery_decision = none;
  recovery_budget_remaining = c.recovery_budget_remaining;
  resolved_summary = none;
  created_at = clock;
  updated_at = clock;
  resolved_at = none;
}

-- The INSERT: the id is the table's primary key.
unfoldable pub insert_checkpoint : Instant → NewRecoveryCheckpoint → RecoveryAction (Unit {0})
unfolding any
insert_checkpoint clock c s =
    if any (λ d. d.recovery_checkpoint_id == c.recovery_checkpoint_id) s.checkpoints
    then (err checkpoint_conflict, s)
    else (ok tt, record s { checkpoints = opened clock c ∷ s.checkpoints })

unfoldable pub create_recovery_checkpoint :
    Instant → NewRecoveryCheckpoint → RecoveryAction RecoveryCheckpointRecord
unfolding insert_checkpoint get_recovery_checkpoint
create_recovery_checkpoint clock c = do
  lift (bail_if (is_negative c.recovery_budget_remaining) checkpoint_budget_negative)
  insert_checkpoint clock c
  get_recovery_checkpoint c.recovery_checkpoint_id

abbrev pub is_open : RecoveryCheckpointStatus → Bool
is_open open_status = true
is_open _ = false

abbrev pub resolve_row :
    Instant → RecoveryCheckpointResolution → RecoveryCheckpointRecord → RecoveryCheckpointRecord
resolve_row clock r c =
    if c.recovery_checkpoint_id == r.recovery_checkpoint_id
    then record c {
      status = r.status;
      recovery_decision = some r.recovery_decision;
      resolved_summary = r.resolved_summary;
      resolved_at = some r.resolved_at;
      updated_at = clock;
    }
    else c

unfoldable pub update_checkpoints :
    Instant → RecoveryCheckpointResolution → RecoveryAction (Unit {0})
update_checkpoints clock r s =
    (ok tt, record s { checkpoints = map (resolve_row clock r) s.checkpoints })

unfoldable pub resolve_recovery_checkpoint :
    Instant → RecoveryCheckpointResolution → RecoveryAction RecoveryCheckpointRecord
unfolding update_checkpoints get_recovery_checkpoint
resolve_recovery_checkpoint clock r = do
  lift (bail_if (is_open r.status) resolution_status_open)
  update_checkpoints clock r
  get_recovery_checkpoint r.recovery_checkpoint_id

abbrev pub stored : Instant → NewOperationalDiagnostic → OperationalDiagnosticRecord
stored clock d = record {
  operational_diagnostic_id = d.operational_diagnostic_id;
  trace_id = d.trace_id;
  execution_id = d.execution_id;
  subsystem = d.subsystem;
  severity = d.severity;
  reason_code = d.reason_code;
  summary = d.summary;
  created_at = clock;
}

unfoldable pub insert_diagnostic : Instant → NewOperationalDiagnostic → RecoveryAction (Unit {0})
unfolding any
insert_diagnostic clock d s =
    if any (λ e. e.operational_diagnostic_id == d.operational_diagnostic_id) s.diagnostics
    then (err diagnostic_conflict, s)
    else (ok tt, record s { diagnostics = stored clock d ∷ s.diagnostics })

-- `validate_new_operational_diagnostic` is the test at the head.
unfoldable pub insert_operational_diagnostic :
    Instant → NewOperationalDiagnostic → RecoveryAction OperationalDiagnosticRecord
unfolding insert_diagnostic get_operational_diagnostic
insert_operational_diagnostic clock d = do
  lift (
      bail_if (is_blank d.subsystem || is_blank d.reason_code || is_blank d.summary)
        diagnostic_field_empty)
  insert_diagnostic clock d
  get_operational_diagnostic d.operational_diagnostic_id

unfoldable pub issue_recovery_trigger :
    (clock : Instant)
    → NewRecoveryCheckpoint
    → RecoveryDecisionRequest
    → NewOperationalDiagnostic
    → (now : Instant) → RecoveryAction RecoveryTriggerOutcome
issue_recovery_trigger clock checkpoint request diagnostic now = do
  created ← create_recovery_checkpoint clock checkpoint
  decision ← lift (evaluate_recovery_decision request)
  closed ← resolve_recovery_checkpoint clock (record {
    recovery_checkpoint_id = created.recovery_checkpoint_id;
    status = decision.checkpoint_status;
    recovery_decision = decision.decision;
    resolved_summary = some decision.summary;
    resolved_at = now;
  })
  written ← insert_operational_diagnostic clock diagnostic
  lift (ok (record { checkpoint = closed; decision = decision; diagnostic = written }))

unfoldable pub transition_summary : RecoveryApprovalState → Text
transition_summary pending =
    codes "governed action execution is deferred pending approval resolution"
transition_summary expired = codes "approval request expired before resolution"
transition_summary invalidated =
    codes "approval request was invalidated and requires explicit follow-up"
transition_summary missing_required =
    codes "required approval request is missing and must be recreated"
transition_summary _ = []

abbrev pub is_transition : RecoveryApprovalState → Bool
is_transition pending = true
is_transition expired = true
is_transition invalidated = true
is_transition missing_required = true
is_transition _ = false

-- `linked` is the governed action that waits for the request, if the database has one.
abbrev pub transition_kind : Option Uuid → RecoveryCheckpointKind
transition_kind linked = if is_some linked then governed_action else foreground

abbrev pub transition_checkpoint :
    Option Uuid → Uuid → ApprovalRequestRecord → NewRecoveryCheckpoint
transition_checkpoint linked checkpoint_id request = record {
  recovery_checkpoint_id = checkpoint_id;
  trace_id = request.trace_id;
  execution_id = request.execution_id;
  background_job_id = none;
  background_job_run_id = none;
  governed_action_execution_id = linked;
  approval_request_id = some request.approval_request_id;
  checkpoint_kind = transition_kind linked;
  recovery_reason_code = approval_transition;
  recovery_budget_remaining = pos 1;
}

abbrev pub transition_request : Option Uuid → RecoveryApprovalState → RecoveryDecisionRequest
transition_request linked state = record {
  checkpoint_kind = transition_kind linked;
  reason_code = approval_transition;
  action_classification = if is_some linked then ambiguous_or_nonrepeatable else safe_replay;
  evidence_state = not_started;
  approval_state = state;
  policy_state = valid;
  recovery_budget_remaining = pos 1;
  clarification_available = false;
}

abbrev pub transition_diagnostic :
    Uuid → ApprovalRequestRecord → RecoveryApprovalState → Text → NewOperationalDiagnostic
transition_diagnostic diagnostic_id request state reason_code = record {
  operational_diagnostic_id = diagnostic_id;
  trace_id = some request.trace_id;
  execution_id = request.execution_id;
  subsystem = codes "approval";
  severity = warn;
  reason_code = reason_code;
  summary = transition_summary state;
}

unfoldable pub recover_approval_request_transition :
    (clock : Instant) (linked : Option Uuid) (checkpoint_id diagnostic_id : Uuid)
    → ApprovalRequestRecord
    → RecoveryApprovalState
    → (now : Instant) (diagnostic_reason_code : Text) → RecoveryAction RecoveryTriggerOutcome
recover_approval_request_transition clock linked checkpoint_id diagnostic_id request state now
      reason_code =
    do
      lift (bail_if (not (is_transition state)) unsupported_approval_state)
      issue_recovery_trigger clock (transition_checkpoint linked checkpoint_id request)
          (transition_request linked state)
          (transition_diagnostic diagnostic_id request state reason_code) now
