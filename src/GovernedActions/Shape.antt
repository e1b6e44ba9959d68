-- ===== src/GovernedActions/Shape.antt =====
-- `validate_proposal_shape` of crates/harness/src/governed_actions.rs, with the validators of the
-- single actions: what a proposal must look like before anything is written.
pub mod Bounds
use blue_lagoon.Base.{
  ℕ, Bool, true, false, not, ◌&&◌, ◌||◌, Option, none, some, List, Text, codes, ltb, leb, ◌==◌,
  is_none, any, is_blank, trim, to_ascii_lowercase, text_eq, starts_with, Result, ok, err, bail_if,
  ◌>>=◌, ◌>>◌,
}
use blue_lagoon.Contracts.Action.{
  Uuid, WorkspaceArtifactKind, GovernedActionKind, GovernedActionPayload, GovernedActionProposal,
  InspectWorkspaceArtifactAction, ListWorkspaceArtifactsAction, CreateWorkspaceArtifactAction,
  UpdateWorkspaceArtifactAction, ListWorkspaceScriptsAction, InspectWorkspaceScriptAction,
  CreateWorkspaceScriptAction, AppendWorkspaceScriptVersionAction, ListWorkspaceScriptRunsAction,
  UpsertScheduledForegroundTaskAction, RequestBackgroundJobAction, RunDiagnosticAction,
  DiagnosticQuery, SubprocessAction, WorkspaceScriptAction, WebFetchAction,
}

-- The messages of the `bail!` calls of the shape validators.
pub data ShapeError : Type 0 where
  title_empty kind_mismatch artifact_id_nil inspection_of_script limit_zero : ShapeError
  limit_exceeds_maximum listing_of_scripts creation_of_script artifact_title_empty : ShapeError
  change_summary_empty script_id_nil script_title_empty language_unsupported : ShapeError
  content_text_empty task_key_empty task_title_empty prompt_empty cadence_zero : ShapeError
  binding_empty job_rationale_empty trace_show_without_id threshold_out_of_range : ShapeError
  command_empty script_argument_empty url_empty fetch_timeout_zero : ShapeError
  fetch_response_bytes_zero : ShapeError

abbrev pub Check : Type 0
Check = Result ShapeError (Unit {0})

abbrev pub governed_action_list_limit_max : ℕ
governed_action_list_limit_max = 25

-- `Uuid::is_nil`
abbrev pub is_nil : Uuid → Bool
is_nil id = id == 0

abbrev pub is_script : WorkspaceArtifactKind → Bool
is_script WorkspaceArtifactKind.script = true
is_script _ = false

-- `is_some_and(|title| title.trim().is_empty())`
abbrev pub is_some_blank : Option Text → Bool
is_some_blank none = false
is_some_blank (some title) = is_blank title

abbrev pub is_some_script : Option WorkspaceArtifactKind → Bool
is_some_script none = false
is_some_script (some kind) = is_script kind

unfoldable pub validate_limit : (limit : ℕ) → Check
validate_limit limit = do
  bail_if (limit == 0) limit_zero
  bail_if (ltb governed_action_list_limit_max limit) limit_exceeds_maximum

unfoldable pub validate_workspace_inspection_action : InspectWorkspaceArtifactAction → Check
validate_workspace_inspection_action action = do
  bail_if (is_nil action.artifact_id) artifact_id_nil
  bail_if (is_script action.artifact_kind) inspection_of_script

unfoldable pub validate_list_workspace_artifacts_action : ListWorkspaceArtifactsAction → Check
unfolding validate_limit
validate_list_workspace_artifacts_action action = do
  validate_limit action.limit
  bail_if (is_some_script action.artifact_kind) listing_of_scripts

unfoldable pub validate_create_workspace_artifact_action : CreateWorkspaceArtifactAction → Check
unfolding is_blank
validate_create_workspace_artifact_action action = do
  bail_if (is_script action.artifact_kind) creation_of_script
  bail_if (is_blank action.title) artifact_title_empty

unfoldable pub validate_update_workspace_artifact_action : UpdateWorkspaceArtifactAction → Check
unfolding is_blank
validate_update_workspace_artifact_action action = do
  bail_if (is_nil action.artifact_id) artifact_id_nil
  bail_if (is_some_blank action.title) artifact_title_empty
  bail_if (is_blank action.change_summary) change_summary_empty

unfoldable pub validate_list_workspace_scripts_action : ListWorkspaceScriptsAction → Check
unfolding validate_limit
validate_list_workspace_scripts_action action = validate_limit action.limit

unfoldable pub validate_inspect_workspace_script_action : InspectWorkspaceScriptAction → Check
validate_inspect_workspace_script_action action = bail_if (is_nil action.script_id) script_id_nil

unfoldable pub supported_language : Text → Bool
unfolding text_eq
supported_language language =
    text_eq language (codes "powershell")
    || text_eq language (codes "pwsh")
    || text_eq language (codes "sh")
    || text_eq language (codes "bash")
    || text_eq language (codes "python")

unfoldable pub validate_workspace_script_language : Text → Check
unfolding supported_language trim to_ascii_lowercase
validate_workspace_script_language language =
    bail_if (not (supported_language (to_ascii_lowercase (trim language)))) language_unsupported

unfoldable pub validate_create_workspace_script_action : CreateWorkspaceScriptAction → Check
unfolding is_blank validate_workspace_script_language
validate_create_workspace_script_action action = do
  bail_if (is_blank action.title) script_title_empty
  validate_workspace_script_language action.language
  bail_if (is_blank action.content_text) content_text_empty

unfoldable pub validate_append_workspace_script_version_action :
    AppendWorkspaceScriptVersionAction → Check
unfolding is_blank validate_workspace_script_language
validate_append_workspace_script_version_action action = do
  bail_if (is_nil action.script_id) script_id_nil
  validate_workspace_script_language action.language
  bail_if (is_blank action.content_text) content_text_empty
  bail_if (is_blank action.change_summary) change_summary_empty

unfoldable pub validate_list_workspace_script_runs_action : ListWorkspaceScriptRunsAction → Check
unfolding validate_limit
validate_list_workspace_script_runs_action action = do
  bail_if (is_nil action.script_id) script_id_nil
  validate_limit action.limit

unfoldable pub is_one_shot_scheduled_task_key : Text → Bool
unfolding trim to_ascii_lowercase starts_with
is_one_shot_scheduled_task_key task_key =
    let key = to_ascii_lowercase (trim task_key) in
    starts_with key (codes "oneoff_") || starts_with key (codes "one_shot_")

unfoldable pub validate_upsert_scheduled_foreground_task_action :
    UpsertScheduledForegroundTaskAction → Check
unfolding is_blank is_one_shot_scheduled_task_key
validate_upsert_scheduled_foreground_task_action action = do
  bail_if (is_blank action.task_key) task_key_empty
  bail_if (is_blank action.title) task_title_empty
  bail_if (is_blank action.user_facing_prompt) prompt_empty
  bail_if (action.cadence_seconds == 0 && not (is_one_shot_scheduled_task_key action.task_key))
      cadence_zero
  bail_if (is_blank action.internal_principal_ref || is_blank action.internal_conversation_ref)
      binding_empty

unfoldable pub validate_request_background_job_action : RequestBackgroundJobAction → Check
unfolding is_blank
validate_request_background_job_action action =
    bail_if (is_blank action.rationale) job_rationale_empty

-- The limit that the query carries, if it has one.
unfoldable pub diagnostic_limit : DiagnosticQuery → Option ℕ
diagnostic_limit (DiagnosticQuery.operational_diagnostics limit) = some limit
diagnostic_limit (DiagnosticQuery.trace_recent limit) = some limit
diagnostic_limit (DiagnosticQuery.foreground_pending limit) = some limit
diagnostic_limit (DiagnosticQuery.foreground_schedules limit) = some limit
diagnostic_limit (DiagnosticQuery.background_list limit) = some limit
diagnostic_limit (DiagnosticQuery.recovery_checkpoints open_only limit) = some limit
diagnostic_limit (DiagnosticQuery.recovery_leases limit threshold) = some limit
diagnostic_limit (DiagnosticQuery.approvals_list limit) = some limit
diagnostic_limit (DiagnosticQuery.actions_list limit) = some limit
diagnostic_limit (DiagnosticQuery.wake_signals_list limit) = some limit
diagnostic_limit (DiagnosticQuery.identity_history limit) = some limit
diagnostic_limit (DiagnosticQuery.identity_diagnostics limit) = some limit
diagnostic_limit (DiagnosticQuery.workspace_artifacts limit) = some limit
diagnostic_limit (DiagnosticQuery.workspace_scripts limit) = some limit
diagnostic_limit (DiagnosticQuery.workspace_runs script_id limit) = some limit
diagnostic_limit DiagnosticQuery.runtime_status = none
diagnostic_limit DiagnosticQuery.health_summary = none
diagnostic_limit (DiagnosticQuery.trace_show trace_id execution_id) = none
diagnostic_limit DiagnosticQuery.schema_status = none
diagnostic_limit DiagnosticQuery.schema_upgrade_path = none
diagnostic_limit DiagnosticQuery.identity_status = none
diagnostic_limit DiagnosticQuery.identity_show = none
diagnostic_limit (DiagnosticQuery.internal_doc document) = none

abbrev validate_some_limit : Option ℕ → Check
validate_some_limit none = ok tt
validate_some_limit (some limit) = validate_limit limit

unfoldable pub validate_diagnostic_limit : RunDiagnosticAction → Check
unfolding diagnostic_limit validate_limit
validate_diagnostic_limit action = validate_some_limit (diagnostic_limit action.query)

abbrev pub check_query : DiagnosticQuery → Check
check_query (DiagnosticQuery.trace_show trace_id execution_id) =
    bail_if (is_none trace_id && is_none execution_id) trace_show_without_id
check_query (DiagnosticQuery.recovery_leases limit threshold) =
    bail_if (not (leb 1 threshold && leb threshold 100)) threshold_out_of_range
check_query _ = ok tt

unfoldable pub validate_run_diagnostic_action : RunDiagnosticAction → Check
unfolding validate_diagnostic_limit
validate_run_diagnostic_action action = do
  check_query action.query
  validate_diagnostic_limit action

unfoldable pub validate_subprocess_action : SubprocessAction → Check
unfolding is_blank
validate_subprocess_action action = bail_if (is_blank action.command) command_empty

unfoldable pub validate_workspace_script_action : WorkspaceScriptAction → Check
unfolding is_blank any
validate_workspace_script_action action = bail_if (any is_blank action.args) script_argument_empty

unfoldable pub validate_web_fetch_shape : WebFetchAction → Check
unfolding is_blank
validate_web_fetch_shape action = do
  bail_if (is_blank action.url) url_empty
  bail_if (action.timeout_ms == 0) fetch_timeout_zero
  bail_if (action.max_response_bytes == 0) fetch_response_bytes_zero

-- The `match` on the kind and the payload.
unfoldable pub validate_payload_shape : GovernedActionKind → GovernedActionPayload → Check
validate_payload_shape GovernedActionKind.inspect_workspace_artifact
      (GovernedActionPayload.inspect_workspace_artifact action) =
    validate_workspace_inspection_action action
validate_payload_shape GovernedActionKind.list_workspace_artifacts
      (GovernedActionPayload.list_workspace_artifacts action) =
    validate_list_workspace_artifacts_action action
validate_payload_shape GovernedActionKind.create_workspace_artifact
      (GovernedActionPayload.create_workspace_artifact action) =
    validate_create_workspace_artifact_action action
validate_payload_shape GovernedActionKind.update_workspace_artifact
      (GovernedActionPayload.update_workspace_artifact action) =
    validate_update_workspace_artifact_action action
validate_payload_shape GovernedActionKind.list_workspace_scripts
      (GovernedActionPayload.list_workspace_scripts action) =
    validate_list_workspace_scripts_action action
validate_payload_shape GovernedActionKind.inspect_workspace_script
      (GovernedActionPayload.inspect_workspace_script action) =
    validate_inspect_workspace_script_action action
validate_payload_shape GovernedActionKind.create_workspace_script
      (GovernedActionPayload.create_workspace_script action) =
    validate_create_workspace_script_action action
validate_payload_shape GovernedActionKind.append_workspace_script_version
      (GovernedActionPayload.append_workspace_script_version action) =
    validate_append_workspace_script_version_action action
validate_payload_shape GovernedActionKind.list_workspace_script_runs
      (GovernedActionPayload.list_workspace_script_runs action) =
    validate_list_workspace_script_runs_action action
validate_payload_shape GovernedActionKind.upsert_scheduled_foreground_task
      (GovernedActionPayload.upsert_scheduled_foreground_task action) =
    validate_upsert_scheduled_foreground_task_action action
validate_payload_shape GovernedActionKind.request_background_job
      (GovernedActionPayload.request_background_job action) =
    validate_request_background_job_action action
validate_payload_shape GovernedActionKind.run_diagnostic
      (GovernedActionPayload.run_diagnostic action) =
    validate_run_diagnostic_action action
validate_payload_shape GovernedActionKind.run_subprocess
      (GovernedActionPayload.run_subprocess action) =
    validate_subprocess_action action
validate_payload_shape GovernedActionKind.run_workspace_script
      (GovernedActionPayload.run_workspace_script action) =
    validate_workspace_script_action action
validate_payload_shape GovernedActionKind.web_fetch (GovernedActionPayload.web_fetch action) =
    validate_web_fetch_shape action
validate_payload_shape _ _ = err kind_mismatch

unfoldable pub validate_proposal_shape : GovernedActionProposal → Check
unfolding is_blank validate_payload_shape
validate_proposal_shape proposal = do
  bail_if (is_blank proposal.title) title_empty
  validate_payload_shape proposal.action_kind proposal.payload
