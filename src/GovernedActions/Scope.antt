-- ===== src/GovernedActions/Scope.antt =====
-- `validate_capability_scope` of crates/harness/src/governed_actions.rs: what a proposal may reach
-- under the configured limits. `reqwest::Url::parse` is a parameter that gives the scheme of a URL,
-- or `none` for a text that is no URL. The labels that only a message prints are left out.
pub mod Guarantees
use blue_lagoon.Base.{
  ℕ, Bool, true, false, not, ◌&&◌, ◌||◌, Option, none, some, List, [], ◌∷◌, ◌++◌, map, Text, codes,
  ltb, ◌==◌, any, length, is_empty, is_blank, trim, text_eq, text_set, Result, ok, err, bail_if,
  ◌>>=◌, ◌>>◌, if◌then◌else◌,
}
use blue_lagoon.Contracts.Action.{
  NetworkAccessPosture, CapabilityScope, GovernedActionKind, GovernedActionPayload,
  GovernedActionProposal, WebFetchAction,
}
use blue_lagoon.Config.{RuntimeConfig}
use blue_lagoon.Policy.{is_disabled}
use blue_lagoon.GovernedActions.Shape.{
  ShapeError, validate_run_diagnostic_action, validate_subprocess_action,
  validate_workspace_script_action, validate_web_fetch_shape,
}

pub data ScopeError : Type 0 where
  shape : ShapeError → ScopeError
  filesystem_root_missing too_many_roots filesystem_root_empty timeout_zero : ScopeError
  timeout_exceeds_maximum output_limit_zero output_exceeds_maximum : ScopeError
  too_many_variables variable_empty variable_not_allowlisted : ScopeError
  native_filesystem native_environment native_network kind_mismatch : ScopeError
  url_invalid url_scheme_unsupported fetch_timeout_exceeds_maximum : ScopeError
  fetch_response_exceeds_maximum fetch_network_disabled : ScopeError

abbrev pub Check : Type 0
Check = Result ScopeError (Unit {0})

abbrev pub in_shape : Result ShapeError (Unit {0}) → Check
in_shape (ok u) = ok tt
in_shape (err e) = err (shape e)

unfoldable pub normalized_filesystem_roots : CapabilityScope → List Text
unfolding trim text_set
normalized_filesystem_roots scope =
    text_set (map trim (scope.filesystem.read_roots ++ scope.filesystem.write_roots))

unfoldable pub is_web_fetch : GovernedActionKind → Bool
is_web_fetch GovernedActionKind.web_fetch = true
is_web_fetch _ = false

unfoldable pub is_harness_native : GovernedActionKind → Bool
is_harness_native GovernedActionKind.run_subprocess = false
is_harness_native GovernedActionKind.run_workspace_script = false
is_harness_native GovernedActionKind.web_fetch = false
is_harness_native _ = true

abbrev pub runs_a_program : GovernedActionKind → Bool
runs_a_program kind = not (is_web_fetch kind) && not (is_harness_native kind)

unfoldable pub validate_harness_native_scope : CapabilityScope → Check
validate_harness_native_scope scope = do
  bail_if
      (not (is_empty scope.filesystem.read_roots) || not (is_empty scope.filesystem.write_roots))
      native_filesystem
  bail_if (not (is_empty scope.environment.allow_variables)) native_environment
  bail_if (not (is_disabled scope.network)) native_network

abbrev pub is_enabled : NetworkAccessPosture → Bool
is_enabled NetworkAccessPosture.enabled = true
is_enabled _ = false

abbrev pub is_http : Text → Bool
is_http scheme = text_eq scheme (codes "http") || text_eq scheme (codes "https")

-- The number of roots, and that none of them is blank.
unfoldable pub check_roots : RuntimeConfig → GovernedActionProposal → Check
unfolding normalized_filesystem_roots is_harness_native is_web_fetch is_blank any
check_roots config proposal = do
  let roots = normalized_filesystem_roots proposal.capability_scope
  bail_if (is_empty roots && runs_a_program proposal.action_kind) filesystem_root_missing
  bail_if (ltb config.governed_actions.max_filesystem_roots_per_action (length roots))
      too_many_roots
  bail_if
      (any is_blank (
        proposal.capability_scope.filesystem.read_roots
        ++ proposal.capability_scope.filesystem.write_roots))
      filesystem_root_empty

-- The time and output limits of an action that runs a program.
unfoldable pub check_execution : RuntimeConfig → CapabilityScope → Check
check_execution config scope = do
  bail_if (scope.execution.timeout_ms == 0) timeout_zero
  bail_if (ltb config.governed_actions.max_subprocess_timeout_ms scope.execution.timeout_ms)
      timeout_exceeds_maximum
  bail_if (scope.execution.max_stdout_bytes == 0 || scope.execution.max_stderr_bytes == 0)
      output_limit_zero
  bail_if
      (ltb config.governed_actions.max_captured_output_bytes scope.execution.max_stdout_bytes
        || ltb config.governed_actions.max_captured_output_bytes scope.execution.max_stderr_bytes)
      output_exceeds_maximum

-- The loop over the variables that the action asks for.
unfoldable pub check_variables : (allowlist : List Text) → List Text → Check
unfolding is_blank any text_eq
check_variables allowlist [] = ok tt
check_variables allowlist (variable ∷ variables) =
    bail_if (is_blank variable) variable_empty
    >> bail_if (not (any (λ t. text_eq t variable) allowlist)) variable_not_allowlisted
    >> check_variables allowlist variables

unfoldable pub check_environment : RuntimeConfig → CapabilityScope → Check
unfolding check_variables
check_environment config scope = do
  bail_if
      (ltb config.governed_actions.max_environment_variables_per_action
        (length scope.environment.allow_variables))
      too_many_variables
  check_variables config.governed_actions.allowlisted_environment_variables
      scope.environment.allow_variables

module _ (url_scheme : Text → Option Text) where
  abbrev pub check_scheme : Option Text → Check
  check_scheme none = err url_invalid
  check_scheme (some scheme) = bail_if (not (is_http scheme)) url_scheme_unsupported

  unfoldable pub validate_web_fetch_action :
      RuntimeConfig → CapabilityScope → WebFetchAction → Check
  unfolding validate_web_fetch_shape text_eq
  validate_web_fetch_action config scope action = do
    in_shape (validate_web_fetch_shape action)
    check_scheme (url_scheme action.url)
    bail_if (ltb config.governed_actions.max_web_fetch_timeout_ms action.timeout_ms)
        fetch_timeout_exceeds_maximum
    bail_if (ltb config.governed_actions.max_web_fetch_response_bytes action.max_response_bytes)
        fetch_response_exceeds_maximum
    bail_if (not (is_enabled scope.network)) fetch_network_disabled

  -- The `match` on the kind and the payload.
  unfoldable pub check_payload_scope :
      RuntimeConfig → CapabilityScope → GovernedActionKind → GovernedActionPayload → Check
  check_payload_scope config scope GovernedActionKind.inspect_workspace_artifact
        (GovernedActionPayload.inspect_workspace_artifact action) =
      validate_harness_native_scope scope
  check_payload_scope config scope GovernedActionKind.list_workspace_artifacts
        (GovernedActionPayload.list_workspace_artifacts action) =
      validate_harness_native_scope scope
  check_payload_scope config scope GovernedActionKind.create_workspace_artifact
        (GovernedActionPayload.create_workspace_artifact action) =
      validate_harness_native_scope scope
  check_payload_scope config scope GovernedActionKind.update_workspace_artifact
        (GovernedActionPayload.update_workspace_artifact action) =
      validate_harness_native_scope scope
  check_payload_scope config scope GovernedActionKind.list_workspace_scripts
        (GovernedActionPayload.list_workspace_scripts action) =
      validate_harness_native_scope scope
  check_payload_scope config scope GovernedActionKind.inspect_workspace_script
        (GovernedActionPayload.inspect_workspace_script action) =
      validate_harness_native_scope scope
  check_payload_scope config scope GovernedActionKind.create_workspace_script
        (GovernedActionPayload.create_workspace_script action) =
      validate_harness_native_scope scope
  check_payload_scope config scope GovernedActionKind.append_workspace_script_version
        (GovernedActionPayload.append_workspace_script_version action) =
      validate_harness_native_scope scope
  check_payload_scope config scope GovernedActionKind.list_workspace_script_runs
        (GovernedActionPayload.list_workspace_script_runs action) =
      validate_harness_native_scope scope
  check_payload_scope config scope GovernedActionKind.upsert_scheduled_foreground_task
        (GovernedActionPayload.upsert_scheduled_foreground_task action) =
      validate_harness_native_scope scope
  check_payload_scope config scope GovernedActionKind.request_background_job
        (GovernedActionPayload.request_background_job action) =
      validate_harness_native_scope scope
  check_payload_scope config scope GovernedActionKind.run_diagnostic
        (GovernedActionPayload.run_diagnostic action) =
      validate_harness_native_scope scope >> in_shape (validate_run_diagnostic_action action)
  check_payload_scope config scope GovernedActionKind.run_subprocess
        (GovernedActionPayload.run_subprocess action) =
      in_shape (validate_subprocess_action action)
  check_payload_scope config scope GovernedActionKind.run_workspace_script
        (GovernedActionPayload.run_workspace_script action) =
      in_shape (validate_workspace_script_action action)
  check_payload_scope config scope GovernedActionKind.web_fetch
        (GovernedActionPayload.web_fetch action) =
      validate_web_fetch_action config scope action
  check_payload_scope config scope _ _ = err kind_mismatch

  unfoldable pub validate_capability_scope : RuntimeConfig → GovernedActionProposal → Check
  unfolding is_harness_native is_web_fetch
  validate_capability_scope config proposal =
      check_roots config proposal
      >> (if runs_a_program proposal.action_kind
          then check_execution config proposal.capability_scope
          else ok tt)
      >> check_environment config proposal.capability_scope
      >> check_payload_scope config proposal.capability_scope proposal.action_kind proposal.payload
