-- ===== src/GovernedActions/Labels.antt =====
-- The labels under which crates/harness/src/governed_actions.rs stores kinds, tiers and statuses.
-- A label that is not known is the error.
pub mod RoundTrip
use blue_lagoon.Base.{if◌then◌else◌, Text, codes, text_eq, Result, ok, err}
use blue_lagoon.Contracts.Action.{GovernedActionKind, GovernedActionRiskTier, GovernedActionStatus}

unfoldable pub governed_action_kind_as_str : GovernedActionKind → Text
governed_action_kind_as_str GovernedActionKind.inspect_workspace_artifact =
    codes "inspect_workspace_artifact"
governed_action_kind_as_str GovernedActionKind.list_workspace_artifacts =
    codes "list_workspace_artifacts"
governed_action_kind_as_str GovernedActionKind.create_workspace_artifact =
    codes "create_workspace_artifact"
governed_action_kind_as_str GovernedActionKind.update_workspace_artifact =
    codes "update_workspace_artifact"
governed_action_kind_as_str GovernedActionKind.list_workspace_scripts =
    codes "list_workspace_scripts"
governed_action_kind_as_str GovernedActionKind.inspect_workspace_script =
    codes "inspect_workspace_script"
governed_action_kind_as_str GovernedActionKind.create_workspace_script =
    codes "create_workspace_script"
governed_action_kind_as_str GovernedActionKind.append_workspace_script_version =
    codes "append_workspace_script_version"
governed_action_kind_as_str GovernedActionKind.list_workspace_script_runs =
    codes "list_workspace_script_runs"
governed_action_kind_as_str GovernedActionKind.upsert_scheduled_foreground_task =
    codes "upsert_scheduled_foreground_task"
governed_action_kind_as_str GovernedActionKind.request_background_job =
    codes "request_background_job"
governed_action_kind_as_str GovernedActionKind.run_diagnostic = codes "run_diagnostic"
governed_action_kind_as_str GovernedActionKind.run_subprocess = codes "run_subprocess"
governed_action_kind_as_str GovernedActionKind.run_workspace_script = codes "run_workspace_script"
governed_action_kind_as_str GovernedActionKind.web_fetch = codes "web_fetch"

unfoldable pub parse_governed_action_kind : Text → Result Text GovernedActionKind
unfolding text_eq
parse_governed_action_kind value =
    if text_eq value (codes "inspect_workspace_artifact")
    then ok GovernedActionKind.inspect_workspace_artifact
    else if text_eq value (codes "list_workspace_artifacts")
    then ok GovernedActionKind.list_workspace_artifacts
    else if text_eq value (codes "create_workspace_artifact")
    then ok GovernedActionKind.create_workspace_artifact
    else if text_eq value (codes "update_workspace_artifact")
    then ok GovernedActionKind.update_workspace_artifact
    else if text_eq value (codes "list_workspace_scripts")
    then ok GovernedActionKind.list_workspace_scripts
    else if text_eq value (codes "inspect_workspace_script")
    then ok GovernedActionKind.inspect_workspace_script
    else if text_eq value (codes "create_workspace_script")
    then ok GovernedActionKind.create_workspace_script
    else if text_eq value (codes "append_workspace_script_version")
    then ok GovernedActionKind.append_workspace_script_version
    else if text_eq value (codes "list_workspace_script_runs")
    then ok GovernedActionKind.list_workspace_script_runs
    else if text_eq value (codes "upsert_scheduled_foreground_task")
    then ok GovernedActionKind.upsert_scheduled_foreground_task
    else if text_eq value (codes "request_background_job")
    then ok GovernedActionKind.request_background_job
    else if text_eq value (codes "run_diagnostic")
    then ok GovernedActionKind.run_diagnostic
    else if text_eq value (codes "run_subprocess")
    then ok GovernedActionKind.run_subprocess
    else if text_eq value (codes "run_workspace_script")
    then ok GovernedActionKind.run_workspace_script
    else if text_eq value (codes "web_fetch")
    then ok GovernedActionKind.web_fetch
    else err value

unfoldable pub governed_action_risk_tier_as_str : GovernedActionRiskTier → Text
governed_action_risk_tier_as_str GovernedActionRiskTier.tier0 = codes "tier_0"
governed_action_risk_tier_as_str GovernedActionRiskTier.tier1 = codes "tier_1"
governed_action_risk_tier_as_str GovernedActionRiskTier.tier2 = codes "tier_2"
governed_action_risk_tier_as_str GovernedActionRiskTier.tier3 = codes "tier_3"

unfoldable pub parse_governed_action_risk_tier : Text → Result Text GovernedActionRiskTier
unfolding text_eq
parse_governed_action_risk_tier value =
    if text_eq value (codes "tier_0")
    then ok GovernedActionRiskTier.tier0
    else if text_eq value (codes "tier_1")
    then ok GovernedActionRiskTier.tier1
    else if text_eq value (codes "tier_2")
    then ok GovernedActionRiskTier.tier2
    else if text_eq value (codes "tier_3")
    then ok GovernedActionRiskTier.tier3
    else err value

unfoldable pub governed_action_status_as_str : GovernedActionStatus → Text
governed_action_status_as_str GovernedActionStatus.proposed = codes "proposed"
governed_action_status_as_str GovernedActionStatus.awaiting_approval = codes "awaiting_approval"
governed_action_status_as_str GovernedActionStatus.approved = codes "approved"
governed_action_status_as_str GovernedActionStatus.rejected = codes "rejected"
governed_action_status_as_str GovernedActionStatus.expired = codes "expired"
governed_action_status_as_str GovernedActionStatus.invalidated = codes "invalidated"
governed_action_status_as_str GovernedActionStatus.blocked = codes "blocked"
governed_action_status_as_str GovernedActionStatus.executed = codes "executed"
governed_action_status_as_str GovernedActionStatus.failed = codes "failed"

unfoldable pub parse_governed_action_status : Text → Result Text GovernedActionStatus
unfolding text_eq
parse_governed_action_status value =
    if text_eq value (codes "proposed")
    then ok GovernedActionStatus.proposed
    else if text_eq value (codes "awaiting_approval")
    then ok GovernedActionStatus.awaiting_approval
    else if text_eq value (codes "approved")
    then ok GovernedActionStatus.approved
    else if text_eq value (codes "rejected")
    then ok GovernedActionStatus.rejected
    else if text_eq value (codes "expired")
    then ok GovernedActionStatus.expired
    else if text_eq value (codes "invalidated")
    then ok GovernedActionStatus.invalidated
    else if text_eq value (codes "blocked")
    then ok GovernedActionStatus.blocked
    else if text_eq value (codes "executed")
    then ok GovernedActionStatus.executed
    else if text_eq value (codes "failed")
    then ok GovernedActionStatus.failed
    else err value
