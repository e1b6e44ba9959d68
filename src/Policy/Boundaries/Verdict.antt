-- ===== src/Policy/Boundaries/Verdict.antt =====
-- The verdict of the identity boundaries on a governed action.
use blue_lagoon.Base.{
  ◌≡◌, ◌∙◌, if◌then◌else◌, ◌&&◌, ◌⊎◌, true, false, ◌||◌, List, [], ◌∷◌, ◌++◌, Text, All, is_empty,
  trim, arith,
}
use blue_lagoon.Contracts.Action.{GovernedActionProposal}
use blue_lagoon.Policy.{
  DenialReason, PolicyDecision, denied, network_boundary, subprocess_boundary,
  workspace_write_boundary, has_network,
}
use blue_lagoon.Policy.Boundaries.{
  normalize, boundary_blocks_network, boundary_blocks_subprocess, boundary_blocks_workspace_writes,
  governed_action_has_workspace_write_effect, is_web_fetch, is_run_subprocess, check_boundary,
  evaluate_governed_action_identity_boundaries,
}

-- A boundary that is not blank forbids something that the action would do.
pub record Forbids (proposal : GovernedActionProposal) (boundary : Text) : Type 0 where
  pub not_blank : is_empty (normalize boundary) ≡ false
  pub effect :
      ((boundary_blocks_network (normalize boundary) ≡ true)
        × ((has_network proposal ≡ true) ⊎ (is_web_fetch proposal.action_kind ≡ true)))
      ⊎ ((boundary_blocks_subprocess (normalize boundary) ≡ true)
          × (is_run_subprocess proposal.action_kind ≡ true))
      ⊎ ((boundary_blocks_workspace_writes (normalize boundary) ≡ true)
          × (governed_action_has_workspace_write_effect proposal ≡ true))

-- The reasons that quote a boundary.
abbrev pub Quotes : Text → DenialReason → Type 0
Quotes boundary reason =
    (reason ≡ network_boundary (trim boundary))
    ⊎ (reason ≡ subprocess_boundary (trim boundary))
    ⊎ (reason ≡ workspace_write_boundary (trim boundary))

module _ (proposal : GovernedActionProposal) where
  -- The reason for which a boundary that forbids the action is given.
  reason_of : Text → DenialReason
  reason_of boundary =
      if boundary_blocks_network (normalize boundary)
        && (has_network proposal || is_web_fetch proposal.action_kind)
      then network_boundary (trim boundary)
      else if boundary_blocks_subprocess (normalize boundary)
          && is_run_subprocess proposal.action_kind
      then subprocess_boundary (trim boundary)
      else workspace_write_boundary (trim boundary)

  reason_of-Quotes : (boundary : Text) → Quotes boundary (reason_of boundary)
  unfolding reason_of
  reason_of-Quotes boundary = ground arith

  check_boundary_permits :
      (boundary : Text) (next : PolicyDecision)
      → ¬ Forbids proposal boundary
      → check_boundary proposal boundary next ≡ next
  unfolding check_boundary
  check_boundary_permits boundary next permits =
      ground (arith, λ (f : Forbids proposal boundary). permits f)

  check_boundary-Forbids :
      (boundary : Text) (next : PolicyDecision)
      → Forbids proposal boundary
      → check_boundary proposal boundary next ≡ denied (reason_of boundary)
  unfolding check_boundary reason_of
  check_boundary-Forbids boundary next f = ground arith

-- The first boundary that forbids the action decides: the action is denied, with a reason that
-- quotes that boundary, whatever boundaries follow.
pub evaluate_boundaries-denied :
    (proposal : GovernedActionProposal) (before : List Text) (boundary : Text) (after : List Text)
    → All (λ b. ¬ Forbids proposal b) before
    → Forbids proposal boundary
    → (reason : DenialReason) × (evaluate_governed_action_identity_boundaries proposal
          (before ++ boundary ∷ after)
        ≡ denied reason)
      × Quotes boundary reason
unfolding evaluate_governed_action_identity_boundaries
evaluate_boundaries-denied proposal [] boundary after permit f = (
  reason_of proposal boundary,
  check_boundary-Forbids proposal boundary _ f,
  reason_of-Quotes proposal boundary,
)
evaluate_boundaries-denied proposal (b ∷ before) boundary after permit f =
    let (reason, e, q) = evaluate_boundaries-denied proposal before boundary after permit.1 f in
    (reason, check_boundary_permits proposal b _ permit.0 ∙ e, q)
