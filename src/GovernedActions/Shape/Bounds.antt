-- ===== src/GovernedActions/Shape/Bounds.antt =====
-- What a valid shape guarantees, of `validate_proposal_shape`.
use blue_lagoon.Base.{
  ℕ, ◌≤◌, ◌≡◌, false, Option, none, some, ok, is_blank, arith, >>-eq-ok, bail_if-eq-ok,
}
use blue_lagoon.Contracts.Action.{
  RunDiagnosticAction, GovernedActionKind, GovernedActionPayload, GovernedActionProposal,
}
use blue_lagoon.GovernedActions.Shape.{
  validate_limit, diagnostic_limit, validate_diagnostic_limit, validate_run_diagnostic_action,
  check_query, validate_list_workspace_artifacts_action, validate_list_workspace_scripts_action,
  validate_list_workspace_script_runs_action, validate_payload_shape, validate_proposal_shape,
}

-- The kind that a payload belongs to.
abbrev pub payload_kind : GovernedActionPayload → GovernedActionKind
payload_kind (GovernedActionPayload.inspect_workspace_artifact action) =
    GovernedActionKind.inspect_workspace_artifact
payload_kind (GovernedActionPayload.list_workspace_artifacts action) =
    GovernedActionKind.list_workspace_artifacts
payload_kind (GovernedActionPayload.create_workspace_artifact action) =
    GovernedActionKind.create_workspace_artifact
payload_kind (GovernedActionPayload.update_workspace_artifact action) =
    GovernedActionKind.update_workspace_artifact
payload_kind (GovernedActionPayload.list_workspace_scripts action) =
    GovernedActionKind.list_workspace_scripts
payload_kind (GovernedActionPayload.inspect_workspace_script action) =
    GovernedActionKind.inspect_workspace_script
payload_kind (GovernedActionPayload.create_workspace_script action) =
    GovernedActionKind.create_workspace_script
payload_kind (GovernedActionPayload.append_workspace_script_version action) =
    GovernedActionKind.append_workspace_script_version
payload_kind (GovernedActionPayload.list_workspace_script_runs action) =
    GovernedActionKind.list_workspace_script_runs
payload_kind (GovernedActionPayload.upsert_scheduled_foreground_task action) =
    GovernedActionKind.upsert_scheduled_foreground_task
payload_kind (GovernedActionPayload.request_background_job action) =
    GovernedActionKind.request_background_job
payload_kind (GovernedActionPayload.run_diagnostic action) = GovernedActionKind.run_diagnostic
payload_kind (GovernedActionPayload.run_subprocess action) = GovernedActionKind.run_subprocess
payload_kind (GovernedActionPayload.run_workspace_script action) =
    GovernedActionKind.run_workspace_script
payload_kind (GovernedActionPayload.web_fetch action) = GovernedActionKind.web_fetch

-- The number of rows that a payload asks for, if it asks for a list.
abbrev pub payload_limit : GovernedActionPayload → Option ℕ
payload_limit (GovernedActionPayload.list_workspace_artifacts action) = some action.limit
payload_limit (GovernedActionPayload.list_workspace_scripts action) = some action.limit
payload_limit (GovernedActionPayload.list_workspace_script_runs action) = some action.limit
payload_limit (GovernedActionPayload.run_diagnostic action) = diagnostic_limit action.query
payload_limit _ = none

abbrev pub WithinListLimit : Option ℕ → Type 0
WithinListLimit none = Unit {0}
WithinListLimit (some limit) = (1 ≤ limit) × (limit ≤ 25)

payload_kind_of_valid :
    (kind : GovernedActionKind) (payload : GovernedActionPayload)
    → validate_payload_shape kind payload ≡ ok tt
    → kind ≡ payload_kind payload
unfolding validate_payload_shape
payload_kind_of_valid kind payload h = ground arith

validate_limit-WithinListLimit :
    (limit : ℕ) → validate_limit limit ≡ ok tt → (1 ≤ limit) × (limit ≤ 25)
unfolding validate_limit
validate_limit-WithinListLimit limit h = ground arith

diagnostic-WithinListLimit :
    (action : RunDiagnosticAction)
    → validate_run_diagnostic_action action ≡ ok tt
    → WithinListLimit (diagnostic_limit action.query)
unfolding validate_run_diagnostic_action validate_diagnostic_limit
diagnostic-WithinListLimit action h =
    let last = (>>-eq-ok (check_query action.query) (validate_diagnostic_limit action) h).1 in
    let bounds = validate_limit-WithinListLimit in ground (arith, last, bounds)

payload-WithinListLimit :
    (kind : GovernedActionKind) (payload : GovernedActionPayload)
    → kind ≡ payload_kind payload
    → validate_payload_shape kind payload ≡ ok tt
    → WithinListLimit (payload_limit payload)
unfolding validate_payload_shape validate_list_workspace_artifacts_action
    validate_list_workspace_scripts_action validate_list_workspace_script_runs_action
payload-WithinListLimit kind (GovernedActionPayload.run_diagnostic action) e h =
    diagnostic-WithinListLimit action (ground (arith, e, h))
payload-WithinListLimit kind payload e h =
    let bounds = validate_limit-WithinListLimit in ground (arith, e, h, bounds)

-- A proposal with a valid shape has a title, a payload of its kind, and asks for 1 to 25 rows where
-- it asks for a list.
pub validate_proposal_shape_guarantees :
    (p : GovernedActionProposal)
    → validate_proposal_shape p ≡ ok tt
    → (is_blank p.title ≡ false)
      × (p.action_kind ≡ payload_kind p.payload)
      × WithinListLimit (payload_limit p.payload)
unfolding validate_proposal_shape
validate_proposal_shape_guarantees p h =
    let parts = >>-eq-ok _ _ h in
    let kind = payload_kind_of_valid p.action_kind p.payload parts.1 in
    (bail_if-eq-ok _ _ parts.0, kind, payload-WithinListLimit p.action_kind p.payload kind parts.1)
