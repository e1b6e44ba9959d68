-- ===== src/Policy/Boundaries.antt =====
-- The identity boundaries of crates/harness/src/policy.rs: free texts that may forbid the network,
-- subprocesses or workspace writes to governed actions, or defer wake signals.
pub mod Verdict
use blue_lagoon.Base.{
  Bool, true, false, not, ◌&&◌, ◌||◌, List, [], ◌∷◌, Text, if◌then◌else◌, any, is_empty, codes,
  trim, to_ascii_lowercase, contains,
}
use blue_lagoon.Contracts.Action.{GovernedActionKind, GovernedActionPayload, GovernedActionProposal}
use blue_lagoon.Policy.{
  PolicyDecision, allowed, denied, network_boundary, subprocess_boundary, workspace_write_boundary,
  has_network, has_write_scope,
}

-- `boundary.trim().to_ascii_lowercase()`
unfoldable pub normalize : Text → Text
unfolding trim to_ascii_lowercase
normalize boundary = to_ascii_lowercase (trim boundary)

unfoldable pub boundary_blocks_network : Text → Bool
unfolding contains
boundary_blocks_network normalized =
    contains normalized (codes "no network")
    || contains normalized (codes "do not use network")
    || contains normalized (codes "never use network")
    || contains normalized (codes "avoid network access")
    || contains normalized (codes "network access is disabled")
    || contains normalized (codes "without network access")

unfoldable pub boundary_blocks_subprocess : Text → Bool
unfolding contains
boundary_blocks_subprocess normalized =
    contains normalized (codes "no subprocess")
    || contains normalized (codes "do not run subprocess")
    || contains normalized (codes "never run subprocess")
    || contains normalized (codes "avoid subprocess")
    || contains normalized (codes "without subprocess")

unfoldable pub boundary_blocks_workspace_writes : Text → Bool
unfolding contains
boundary_blocks_workspace_writes normalized =
    contains normalized (codes "no workspace writes")
    || contains normalized (codes "do not write")
    || contains normalized (codes "never write")
    || contains normalized (codes "avoid workspace writes")
    || contains normalized (codes "read-only")

abbrev writes_workspace : GovernedActionPayload → Bool
writes_workspace (GovernedActionPayload.create_workspace_artifact a) = true
writes_workspace (GovernedActionPayload.update_workspace_artifact a) = true
writes_workspace (GovernedActionPayload.create_workspace_script a) = true
writes_workspace (GovernedActionPayload.append_workspace_script_version a) = true
writes_workspace (GovernedActionPayload.upsert_scheduled_foreground_task a) = true
writes_workspace (GovernedActionPayload.request_background_job a) = true
writes_workspace _ = false

unfoldable pub governed_action_has_workspace_write_effect : GovernedActionProposal → Bool
governed_action_has_workspace_write_effect proposal =
    if has_write_scope proposal then true else writes_workspace proposal.payload

abbrev pub is_web_fetch : GovernedActionKind → Bool
is_web_fetch GovernedActionKind.web_fetch = true
is_web_fetch _ = false

abbrev pub is_run_subprocess : GovernedActionKind → Bool
is_run_subprocess GovernedActionKind.run_subprocess = true
is_run_subprocess _ = false

-- One round of the loop over the boundaries; `next` is what the later rounds decide.
check_boundary : GovernedActionProposal → Text → PolicyDecision → PolicyDecision
unfolding normalize governed_action_has_workspace_write_effect
check_boundary proposal boundary next =
    let normalized = normalize boundary in
    if is_empty normalized
    then next
    else if boundary_blocks_network normalized
        && (has_network proposal || is_web_fetch proposal.action_kind)
    then denied (network_boundary (trim boundary))
    else if boundary_blocks_subprocess normalized && is_run_subprocess proposal.action_kind
    then denied (subprocess_boundary (trim boundary))
    else if boundary_blocks_workspace_writes normalized
        && governed_action_has_workspace_write_effect proposal
    then denied (workspace_write_boundary (trim boundary))
    else next

unfoldable pub evaluate_governed_action_identity_boundaries :
    GovernedActionProposal → List Text → PolicyDecision
unfolding check_boundary
evaluate_governed_action_identity_boundaries proposal [] = allowed
evaluate_governed_action_identity_boundaries proposal (boundary ∷ boundaries) =
    check_boundary proposal boundary
      (evaluate_governed_action_identity_boundaries proposal boundaries)

unfoldable pub boundary_defers_wake_signal : Text → Bool
unfolding normalize contains
boundary_defers_wake_signal boundary =
    let normalized = normalize boundary in
    contains normalized (codes "do not proactively wake")
    || contains normalized (codes "no proactive wake")
    || contains normalized (codes "avoid proactive wake")
    || contains normalized (codes "defer proactive")

unfoldable pub identity_boundary_defers_wake_signal : List Text → Bool
unfolding any boundary_defers_wake_signal
identity_boundary_defers_wake_signal boundaries = any boundary_defers_wake_signal boundaries
