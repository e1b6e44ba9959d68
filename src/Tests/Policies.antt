-- ===== src/Tests/Policies.antt =====
-- The policy on a subprocess that reaches the network, and a wake signal.
use blue_lagoon.Base.{◌≡◌, ◌↔◌, ◌⊎◌, ◌≤◌, refl, inl, true, false, none, [], ◌∷◌, Text, codes, ok}
use blue_lagoon.Contracts.Action.{tier3}
use blue_lagoon.Contracts.Wake.{WakeSignal, WakeSignalReason, low, high, accepted}
use blue_lagoon.Config.Validate.{tier_rank, validate}
use blue_lagoon.Config.Valid.{IsValid}
use blue_lagoon.Config.Guarantees.{validate_iff}
use blue_lagoon.Policy.{
  intrinsic_risk, classify_governed_action_risk, governed_action_requires_approval,
}
use blue_lagoon.Policy.Risk.{
  requested_rank, requires_approval_iff, network_write_execution_requires_approval,
}
use blue_lagoon.Policy.Wake.{WakeSignalEvaluationContext, evaluate_wake_signal}
use blue_lagoon.Policy.Wake.Acceptance.{IsQuiet, evaluate_wake_signal-accepted}
use blue_lagoon.Tests.Samples.{config, proposal}

validate_iff_example : (validate config ≡ ok tt) ↔ IsValid config
validate_iff_example = validate_iff config

requires_approval_iff_example :
    (governed_action_requires_approval config (classify_governed_action_risk proposal) ≡ true)
    ↔ ((2 ≤ tier_rank (intrinsic_risk proposal.action_kind proposal)) ⊎ (2 ≤ requested_rank none))
requires_approval_iff_example = requires_approval_iff config proposal

network_write_execution_requires_approval_example :
    (classify_governed_action_risk proposal ≡ tier3)
    × (governed_action_requires_approval config (classify_governed_action_risk proposal) ≡ true)
network_write_execution_requires_approval_example =
    network_write_execution_requires_approval config proposal (inl refl) refl refl

abbrev kind_words : Text
kind_words = codes "be kind"

abbrev signal : WakeSignal
signal = record {
  signal_id = 12;
  reason = WakeSignalReason.proactive_briefing_ready;
  priority = low;
  reason_code = codes "briefing";
  summary = codes "a briefing is ready";
  payload_ref = none;
}

abbrev calm : WakeSignalEvaluationContext
calm = record {
  pending_signal_count = 0;
  cooldown_active = false;
  foreground_channel_available = true;
  internal_resource_pressure_pct = 10;
  internal_reliability_pct = 90;
  identity_boundaries = kind_words ∷ [];
}

evaluate_wake_signal-accepted_example :
    ((evaluate_wake_signal config signal calm).decision ≡ accepted) ↔ (
      (calm.foreground_channel_available ≡ true)
      × (config.background.wake_signals.allow_foreground_conversion ≡ true)
      × ((signal.priority ≡ high) ⊎ IsQuiet config calm))
evaluate_wake_signal-accepted_example = evaluate_wake_signal-accepted config signal calm
