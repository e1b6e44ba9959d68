-- ===== src/Contracts/Action.antt =====
-- Governed actions, their capability scopes and their approvals, of crates/contracts/src/lib.rs.
use blue_lagoon.Base.{ℕ, Bool, Option, List, Text}

abbrev pub Uuid : Type 0
Uuid = ℕ

abbrev pub Instant : Type 0
Instant = ℕ

pub data GovernedActionRiskTier : Type 0 where
  tier0 tier1 tier2 tier3 : GovernedActionRiskTier

pub data NetworkAccessPosture : Type 0 where
  disabled allowlisted enabled : NetworkAccessPosture

pub record FilesystemCapabilityScope : Type 0 where
  pub read_roots : List Text
  pub write_roots : List Text

pub record EnvironmentCapabilityScope : Type 0 where
  pub allow_variables : List Text

pub record ExecutionCapabilityBudget : Type 0 where
  pub timeout_ms : ℕ
  pub max_stdout_bytes : ℕ
  pub max_stderr_bytes : ℕ

pub record CapabilityScope : Type 0 where
  pub filesystem : FilesystemCapabilityScope
  pub network : NetworkAccessPosture
  pub environment : EnvironmentCapabilityScope
  pub execution : ExecutionCapabilityBudget

pub data GovernedActionKind : Type 0 where
  inspect_workspace_artifact list_workspace_artifacts create_workspace_artifact : GovernedActionKind
  update_workspace_artifact list_workspace_scripts inspect_workspace_script : GovernedActionKind
  create_workspace_script append_workspace_script_version : GovernedActionKind
  list_workspace_script_runs upsert_scheduled_foreground_task : GovernedActionKind
  request_background_job run_diagnostic run_subprocess run_workspace_script : GovernedActionKind
  web_fetch : GovernedActionKind

pub data WorkspaceArtifactKind : Type 0 where
  note runbook scratchpad task_list script : WorkspaceArtifactKind

pub data WorkspaceArtifactStatusFilter : Type 0 where
  active archived any : WorkspaceArtifactStatusFilter

pub data WorkspaceScriptRunStatus : Type 0 where
  pending running completed failed timed_out blocked : WorkspaceScriptRunStatus

pub data UnconsciousJobKind : Type 0 where
  memory_consolidation retrieval_maintenance : UnconsciousJobKind
  contradiction_and_drift_scan self_model_reflection : UnconsciousJobKind

pub record InspectWorkspaceArtifactAction : Type 0 where
  pub artifact_id : Uuid
  pub artifact_kind : WorkspaceArtifactKind

pub record ListWorkspaceArtifactsAction : Type 0 where
  pub artifact_kind : Option WorkspaceArtifactKind
  pub status : WorkspaceArtifactStatusFilter
  pub query : Option Text
  pub limit : ℕ

pub record CreateWorkspaceArtifactAction : Type 0 where
  pub artifact_kind : WorkspaceArtifactKind
  pub title : Text
  pub content_text : Text
  pub provenance : Option Text

pub record UpdateWorkspaceArtifactAction : Type 0 where
  pub artifact_id : Uuid
  pub expected_updated_at : Option Instant
  pub title : Option Text
  pub content_text : Text
  pub change_summary : Text

pub record ListWorkspaceScriptsAction : Type 0 where
  pub status : WorkspaceArtifactStatusFilter
  pub language : Option Text
  pub query : Option Text
  pub limit : ℕ

pub record InspectWorkspaceScriptAction : Type 0 where
  pub script_id : Uuid
  pub script_version_id : Option Uuid

pub record CreateWorkspaceScriptAction : Type 0 where
  pub title : Text
  pub language : Text
  pub content_text : Text
  pub description : Option Text
  pub requested_capabilities : List Text

pub record AppendWorkspaceScriptVersionAction : Type 0 where
  pub script_id : Uuid
  pub expected_latest_version_id : Option Uuid
  pub expected_content_sha256 : Option Text
  pub language : Text
  pub content_text : Text
  pub change_summary : Text

pub record ListWorkspaceScriptRunsAction : Type 0 where
  pub script_id : Uuid
  pub status : Option WorkspaceScriptRunStatus
  pub limit : ℕ

pub record UpsertScheduledForegroundTaskAction : Type 0 where
  pub task_key : Text
  pub title : Text
  pub user_facing_prompt : Text
  pub next_due_at_utc : Option Instant
  pub cadence_seconds : ℕ
  pub cooldown_seconds : Option ℕ
  pub internal_principal_ref : Text
  pub internal_conversation_ref : Text
  pub active : Bool

pub record RequestBackgroundJobAction : Type 0 where
  pub job_kind : UnconsciousJobKind
  pub rationale : Text
  pub input_scope_ref : Option Text
  pub urgency : Option Text
  pub wake_preference : Option Text
  pub internal_conversation_ref : Option Text

pub data DiagnosticDocument : Type 0 where
  philosophy requirements implementation_design internal_documentation : DiagnosticDocument
  context_assembly governed_actions : DiagnosticDocument

pub data DiagnosticQuery : Type 0 where
  runtime_status health_summary schema_status schema_upgrade_path : DiagnosticQuery
  identity_status identity_show : DiagnosticQuery
  operational_diagnostics trace_recent foreground_pending : (limit : ℕ) → DiagnosticQuery
  foreground_schedules background_list approvals_list : (limit : ℕ) → DiagnosticQuery
  actions_list wake_signals_list identity_history : (limit : ℕ) → DiagnosticQuery
  identity_diagnostics workspace_artifacts workspace_scripts : (limit : ℕ) → DiagnosticQuery
  trace_show : (trace_id execution_id : Option Uuid) → DiagnosticQuery
  recovery_checkpoints : (open_only : Bool) (limit : ℕ) → DiagnosticQuery
  recovery_leases : (limit soft_warning_threshold_percent : ℕ) → DiagnosticQuery
  workspace_runs : (script_id : Option Uuid) (limit : ℕ) → DiagnosticQuery
  internal_doc : DiagnosticDocument → DiagnosticQuery

pub record RunDiagnosticAction : Type 0 where
  pub query : DiagnosticQuery

pub record SubprocessAction : Type 0 where
  pub command : Text
  pub args : List Text
  pub working_directory : Option Text

pub record WorkspaceScriptAction : Type 0 where
  pub script_id : Uuid
  pub script_version_id : Option Uuid
  pub args : List Text

pub record WebFetchAction : Type 0 where
  pub url : Text
  pub timeout_ms : ℕ
  pub max_response_bytes : ℕ

pub data GovernedActionPayload : Type 0 where
  inspect_workspace_artifact : InspectWorkspaceArtifactAction → GovernedActionPayload
  list_workspace_artifacts : ListWorkspaceArtifactsAction → GovernedActionPayload
  create_workspace_artifact : CreateWorkspaceArtifactAction → GovernedActionPayload
  update_workspace_artifact : UpdateWorkspaceArtifactAction → GovernedActionPayload
  list_workspace_scripts : ListWorkspaceScriptsAction → GovernedActionPayload
  inspect_workspace_script : InspectWorkspaceScriptAction → GovernedActionPayload
  create_workspace_script : CreateWorkspaceScriptAction → GovernedActionPayload
  append_workspace_script_version : AppendWorkspaceScriptVersionAction → GovernedActionPayload
  list_workspace_script_runs : ListWorkspaceScriptRunsAction → GovernedActionPayload
  upsert_scheduled_foreground_task : UpsertScheduledForegroundTaskAction → GovernedActionPayload
  request_background_job : RequestBackgroundJobAction → GovernedActionPayload
  run_diagnostic : RunDiagnosticAction → GovernedActionPayload
  run_subprocess : SubprocessAction → GovernedActionPayload
  run_workspace_script : WorkspaceScriptAction → GovernedActionPayload
  web_fetch : WebFetchAction → GovernedActionPayload

pub record GovernedActionProposal : Type 0 where
  pub proposal_id : Uuid
  pub title : Text
  pub rationale : Option Text
  pub action_kind : GovernedActionKind
  pub requested_risk_tier : Option GovernedActionRiskTier
  pub capability_scope : CapabilityScope
  pub payload : GovernedActionPayload

pub data GovernedActionStatus : Type 0 where
  proposed awaiting_approval approved rejected expired : GovernedActionStatus
  invalidated blocked executed failed : GovernedActionStatus

pub record GovernedActionFingerprint : Type 0 where
  pub value : Text

pub data ApprovalRequestStatus : Type 0 where
  pending approved rejected expired invalidated : ApprovalRequestStatus

pub data ApprovalResolutionDecision : Type 0 where
  approved rejected expired invalidated : ApprovalResolutionDecision
