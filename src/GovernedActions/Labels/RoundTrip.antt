-- ===== src/GovernedActions/Labels/RoundTrip.antt =====
-- Stored labels read back as what was stored.
use blue_lagoon.Base.{◌≡◌, ok, arith}
use blue_lagoon.Contracts.Action.{GovernedActionKind, GovernedActionRiskTier, GovernedActionStatus}
use blue_lagoon.GovernedActions.Labels.{
  governed_action_kind_as_str, parse_governed_action_kind, governed_action_risk_tier_as_str,
  parse_governed_action_risk_tier, governed_action_status_as_str, parse_governed_action_status,
}

parse_governed_action_kind-as_str :
    (kind : GovernedActionKind)
    → parse_governed_action_kind (governed_action_kind_as_str kind) ≡ ok kind
unfolding parse_governed_action_kind governed_action_kind_as_str
parse_governed_action_kind-as_str kind = ground arith

parse_governed_action_risk_tier-as_str :
    (tier : GovernedActionRiskTier)
    → parse_governed_action_risk_tier (governed_action_risk_tier_as_str tier) ≡ ok tier
unfolding parse_governed_action_risk_tier governed_action_risk_tier_as_str
parse_governed_action_risk_tier-as_str tier = ground arith

parse_governed_action_status-as_str :
    (status : GovernedActionStatus)
    → parse_governed_action_status (governed_action_status_as_str status) ≡ ok status
unfolding parse_governed_action_status governed_action_status_as_str
parse_governed_action_status-as_str status = ground arith

-- The stored labels of a governed action's kind, risk tier and status read back as the same kind,
-- tier and status.
pub action_labels_round_trip :
    (kind : GovernedActionKind) (tier : GovernedActionRiskTier) (status : GovernedActionStatus)
    → (parse_governed_action_kind (governed_action_kind_as_str kind) ≡ ok kind)
      × (parse_governed_action_risk_tier (governed_action_risk_tier_as_str tier) ≡ ok tier)
      × (parse_governed_action_status (governed_action_status_as_str status) ≡ ok status)
action_labels_round_trip kind tier status = (
  parse_governed_action_kind-as_str kind,
  parse_governed_action_risk_tier-as_str tier,
  parse_governed_action_status-as_str status,
)
