-- ===== src/Policy/Risk.antt =====
-- The risk tier of a governed action, and the approval that it asks for.
use blue_lagoon.Base.{ℕ, ◌≤◌, ◌≡◌, ◌⊎◌, ◌↔◌, true, Option, none, some, max, arith}
use blue_lagoon.Contracts.Action.{GovernedActionRiskTier, tier3, GovernedActionProposal}
use blue_lagoon.Contracts.Action.{GovernedActionKind}
use blue_lagoon.Config.{RuntimeConfig}
use blue_lagoon.Config.Validate.{tier_rank}
use blue_lagoon.Policy.{
  has_network, has_write_scope, intrinsic_risk, classify_governed_action_risk,
  governed_action_requires_approval,
}

abbrev pub requested_rank : Option GovernedActionRiskTier → ℕ
requested_rank none = 0
requested_rank (some tier) = tier_rank tier

-- The tier of a proposal is the higher of the requested tier and the intrinsic one: a request can
-- raise the tier and never lower it.
pub classify-eq-max :
    (proposal : GovernedActionProposal)
    → tier_rank (classify_governed_action_risk proposal)
      ≡ max
          (requested_rank proposal.requested_risk_tier)
          (tier_rank (intrinsic_risk proposal.action_kind proposal))
unfolding classify_governed_action_risk
classify-eq-max proposal = ground arith

-- A proposal needs an approval exactly when its intrinsic tier or its requested tier reaches the
-- configured minimum.
pub requires_approval_iff :
    (config : RuntimeConfig) (proposal : GovernedActionProposal)
    → let least = tier_rank config.governed_actions.approval_required_min_risk_tier in
      (governed_action_requires_approval config (classify_governed_action_risk proposal) ≡ true) ↔ (
        (least ≤ tier_rank (intrinsic_risk proposal.action_kind proposal))
        ⊎ (least ≤ requested_rank proposal.requested_risk_tier))
unfolding governed_action_requires_approval
requires_approval_iff config proposal = ground (arith, classify-eq-max proposal)

abbrev Executes : GovernedActionKind → Type 0
Executes kind =
    (kind ≡ GovernedActionKind.run_subprocess) ⊎ (kind ≡ GovernedActionKind.run_workspace_script)

-- A subprocess or script that reaches the network and may write is of the highest tier, so it
-- needs an approval under every configuration.
pub network_write_execution_requires_approval :
    (config : RuntimeConfig) (proposal : GovernedActionProposal)
    → Executes proposal.action_kind
    → has_network proposal ≡ true
    → has_write_scope proposal ≡ true
    → (classify_governed_action_risk proposal ≡ tier3)
      × (governed_action_requires_approval config (classify_governed_action_risk proposal) ≡ true)
unfolding classify_governed_action_risk governed_action_requires_approval
network_write_execution_requires_approval config proposal kind network write = ground arith
