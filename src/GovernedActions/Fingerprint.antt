-- ===== src/GovernedActions/Fingerprint.antt =====
-- `fingerprint_governed_action` of crates/harness/src/governed_actions.rs and the canonical form
-- that it hashes. The JSON encoding by serde and the SHA-256 digest are one parameter, `digest`.
pub mod Equivalence
use blue_lagoon.Base.{
  ℕ, Bool, Option, none, some, List, map, Text, codes, ◌++◌, trim, to_ascii_lowercase, text_set,
}
use blue_lagoon.Contracts.Action.{
  Uuid, Instant, NetworkAccessPosture, CapabilityScope, WorkspaceArtifactKind,
  WorkspaceArtifactStatusFilter, WorkspaceScriptRunStatus, UnconsciousJobKind, DiagnosticQuery,
  GovernedActionPayload, GovernedActionProposal, GovernedActionFingerprint,
}
use blue_lagoon.Policy.{classify_governed_action_risk}
use blue_lagoon.GovernedActions.Labels.{
  governed_action_kind_as_str, governed_action_risk_tier_as_str,
}

pub record CanonicalCapabilityScope : Type 0 where
  pub filesystem_read_roots : List Text
  pub filesystem_write_roots : List Text
  pub network : NetworkAccessPosture
  pub environment_variables : List Text
  pub timeout_ms : ℕ
  pub max_stdout_bytes : ℕ
  pub max_stderr_bytes : ℕ

pub data CanonicalGovernedActionPayload : Type 0 where
  inspect_workspace_artifact :
      (artifact_id : Uuid) (artifact_kind : WorkspaceArtifactKind) → CanonicalGovernedActionPayload
  list_workspace_artifacts :
      (artifact_kind : Option WorkspaceArtifactKind) (status : WorkspaceArtifactStatusFilter)
      (query : Option Text) (limit : ℕ)
      → CanonicalGovernedActionPayload
  create_workspace_artifact :
      (artifact_kind : WorkspaceArtifactKind) (title content_text : Text) (provenance : Option Text)
      → CanonicalGovernedActionPayload
  update_workspace_artifact :
      (artifact_id : Uuid) (expected_updated_at : Option Instant) (title : Option Text)
      (content_text change_summary : Text)
      → CanonicalGovernedActionPayload
  list_workspace_scripts :
      (status : WorkspaceArtifactStatusFilter) (language query : Option Text) (limit : ℕ)
      → CanonicalGovernedActionPayload
  inspect_workspace_script :
      (script_id : Uuid) (script_version_id : Option Uuid) → CanonicalGovernedActionPayload
  create_workspace_script :
      (title language content_text : Text) (description : Option Text)
      (requested_capabilities : List Text)
      → CanonicalGovernedActionPayload
  append_workspace_script_version :
      (script_id : Uuid) (expected_latest_version_id : Option Uuid)
      (expected_content_sha256 : Option Text) (language content_text change_summary : Text)
      → CanonicalGovernedActionPayload
  list_workspace_script_runs :
      (script_id : Uuid) (status : Option WorkspaceScriptRunStatus) (limit : ℕ)
      → CanonicalGovernedActionPayload
  upsert_scheduled_foreground_task :
      (task_key title user_facing_prompt : Text) (next_due_at_utc : Option Instant)
      (cadence_seconds : ℕ) (cooldown_seconds : Option ℕ)
      (internal_principal_ref internal_conversation_ref : Text) (active : Bool)
      → CanonicalGovernedActionPayload
  request_background_job :
      (job_kind : UnconsciousJobKind) (rationale : Text)
      (input_scope_ref urgency wake_preference internal_conversation_ref : Option Text)
      → CanonicalGovernedActionPayload
  run_diagnostic : (query : DiagnosticQuery) → CanonicalGovernedActionPayload
  run_subprocess :
      (command : Text) (args : List Text) (working_directory : Option Text)
      → CanonicalGovernedActionPayload
  run_workspace_script :
      (script_id : Uuid) (script_version_id : Option Uuid) (args : List Text)
      → CanonicalGovernedActionPayload
  web_fetch : (url : Text) (timeout_ms max_response_bytes : ℕ) → CanonicalGovernedActionPayload

pub record CanonicalGovernedActionFingerprintInput : Type 0 where
  pub action_kind : Text
  pub risk_tier : Text
  pub capability_scope : CanonicalCapabilityScope
  pub payload : CanonicalGovernedActionPayload

unfoldable pub normalized_path_list : List Text → List Text
unfolding trim text_set
normalized_path_list values = text_set (map trim values)

-- `as_ref().map(|value| value.trim().to_string())`
unfoldable pub trim_some : Option Text → Option Text
unfolding trim
trim_some none = none
trim_some (some value) = some (trim value)

unfoldable pub canonical_scope : CapabilityScope → CanonicalCapabilityScope
unfolding normalized_path_list
canonical_scope scope = record {
  filesystem_read_roots = normalized_path_list scope.filesystem.read_roots;
  filesystem_write_roots = normalized_path_list scope.filesystem.write_roots;
  network = scope.network;
  environment_variables = normalized_path_list scope.environment.allow_variables;
  timeout_ms = scope.execution.timeout_ms;
  max_stdout_bytes = scope.execution.max_stdout_bytes;
  max_stderr_bytes = scope.execution.max_stderr_bytes;
}

unfoldable pub canonical_payload : GovernedActionPayload → CanonicalGovernedActionPayload
unfolding trim to_ascii_lowercase trim_some normalized_path_list
canonical_payload (GovernedActionPayload.inspect_workspace_artifact action) =
    inspect_workspace_artifact action.artifact_id action.artifact_kind
canonical_payload (GovernedActionPayload.list_workspace_artifacts action) =
    list_workspace_artifacts action.artifact_kind action.status (trim_some action.query)
      action.limit
canonical_payload (GovernedActionPayload.create_workspace_artifact action) =
    create_workspace_artifact action.artifact_kind (trim action.title) action.content_text
      (trim_some action.provenance)
canonical_payload (GovernedActionPayload.update_workspace_artifact action) =
    update_workspace_artifact action.artifact_id action.expected_updated_at (trim_some action.title)
      action.content_text (trim action.change_summary)
canonical_payload (GovernedActionPayload.list_workspace_scripts action) =
    list_workspace_scripts action.status (trim_some action.language) (trim_some action.query)
      action.limit
canonical_payload (GovernedActionPayload.inspect_workspace_script action) =
    inspect_workspace_script action.script_id action.script_version_id
canonical_payload (GovernedActionPayload.create_workspace_script action) =
    create_workspace_script (trim action.title) (to_ascii_lowercase (trim action.language))
      action.content_text (trim_some action.description)
      (normalized_path_list action.requested_capabilities)
canonical_payload (GovernedActionPayload.append_workspace_script_version action) =
    append_workspace_script_version action.script_id action.expected_latest_version_id
      (trim_some action.expected_content_sha256) (to_ascii_lowercase (trim action.language))
      action.content_text (trim action.change_summary)
canonical_payload (GovernedActionPayload.list_workspace_script_runs action) =
    list_workspace_script_runs action.script_id action.status action.limit
canonical_payload (GovernedActionPayload.upsert_scheduled_foreground_task action) =
    upsert_scheduled_foreground_task (trim action.task_key) (trim action.title)
      (trim action.user_facing_prompt) action.next_due_at_utc action.cadence_seconds
      action.cooldown_seconds (trim action.internal_principal_ref)
      (trim action.internal_conversation_ref) action.active
canonical_payload (GovernedActionPayload.request_background_job action) =
    request_background_job action.job_kind (trim action.rationale)
      (trim_some action.input_scope_ref) (trim_some action.urgency)
      (trim_some action.wake_preference) (trim_some action.internal_conversation_ref)
canonical_payload (GovernedActionPayload.run_diagnostic action) = run_diagnostic action.query
canonical_payload (GovernedActionPayload.run_subprocess action) =
    run_subprocess (trim action.command) action.args (trim_some action.working_directory)
canonical_payload (GovernedActionPayload.run_workspace_script action) =
    run_workspace_script action.script_id action.script_version_id action.args
canonical_payload (GovernedActionPayload.web_fetch action) =
    web_fetch (trim action.url) action.timeout_ms action.max_response_bytes

unfoldable pub canonical_input : GovernedActionProposal → CanonicalGovernedActionFingerprintInput
unfolding governed_action_kind_as_str governed_action_risk_tier_as_str classify_governed_action_risk
    canonical_scope canonical_payload
canonical_input proposal = record {
  action_kind = governed_action_kind_as_str proposal.action_kind;
  risk_tier = governed_action_risk_tier_as_str (classify_governed_action_risk proposal);
  capability_scope = canonical_scope proposal.capability_scope;
  payload = canonical_payload proposal.payload;
}

module _ (digest : CanonicalGovernedActionFingerprintInput → Text) where
  unfoldable pub fingerprint_governed_action : GovernedActionProposal → GovernedActionFingerprint
  unfolding canonical_input
  fingerprint_governed_action proposal = record {
    value = codes "sha256:" ++ digest (canonical_input proposal);
  }
