-- ===== src/Policy/Wake/Acceptance.antt =====
-- When a wake signal is accepted, and what becomes of the others.
use blue_lagoon.Base.{◌≤◌, ◌<◌, ◌≡◌, ◌⊎◌, ◌↔◌, true, false, arith}
use blue_lagoon.Contracts.Wake.{high, low, accepted, rejected, suppressed, WakeSignal}
use blue_lagoon.Config.{RuntimeConfig}
use blue_lagoon.Policy.Boundaries.{identity_boundary_defers_wake_signal}
use blue_lagoon.Policy.Wake.{WakeSignalEvaluationContext, evaluate_wake_signal}

-- Nothing speaks against a signal that is not urgent.
pub record IsQuiet (config : RuntimeConfig) (context : WakeSignalEvaluationContext) : Type 0 where
  pub boundaries_permit : identity_boundary_defers_wake_signal context.identity_boundaries ≡ false
  pub pressure_low : context.internal_resource_pressure_pct < 85
  pub reliable : 35 < context.internal_reliability_pct
  pub cooled_down : context.cooldown_active ≡ false
  pub has_room : context.pending_signal_count < config.background.wake_signals.max_pending_signals

-- A signal is accepted exactly when a foreground channel exists, conversion is configured, and the
-- signal is of high priority or nothing speaks against it: no identity boundary defers, resource
-- pressure is below 85, reliability is above 35, no cooldown is active and the queue has room.
pub evaluate_wake_signal-accepted :
    (config : RuntimeConfig) (signal : WakeSignal) (context : WakeSignalEvaluationContext)
    → ((evaluate_wake_signal config signal context).decision ≡ accepted) ↔ (
        (context.foreground_channel_available ≡ true)
        × (config.background.wake_signals.allow_foreground_conversion ≡ true)
        × ((signal.priority ≡ high) ⊎ IsQuiet config context))
unfolding evaluate_wake_signal
evaluate_wake_signal-accepted config signal context = (λ h. ground arith, λ h. ground arith)

-- A signal is rejected exactly when no foreground channel exists, and is suppressed exactly when a
-- channel exists, conversion is configured, the signal is of low priority, no identity boundary
-- defers, resource pressure is below 85, reliability is above 35, no cooldown is active and the
-- queue is full; the decision always names the signal it is about.
pub evaluate_wake_signal_refusals :
    (config : RuntimeConfig) (signal : WakeSignal) (context : WakeSignalEvaluationContext)
    → let decided = evaluate_wake_signal config signal context in
      (decided.signal_id ≡ signal.signal_id)
      × ((decided.decision ≡ rejected) ↔ (context.foreground_channel_available ≡ false))
      × ((decided.decision ≡ suppressed) ↔ (
          (context.foreground_channel_available ≡ true)
          × (config.background.wake_signals.allow_foreground_conversion ≡ true)
          × (signal.priority ≡ low)
          × (identity_boundary_defers_wake_signal context.identity_boundaries ≡ false)
          × (context.internal_resource_pressure_pct < 85)
          × (35 < context.internal_reliability_pct)
          × (context.cooldown_active ≡ false)
          × (config.background.wake_signals.max_pending_signals ≤ context.pending_signal_count)))
unfolding evaluate_wake_signal
evaluate_wake_signal_refusals config signal context =
    (ground arith, (λ h. ground arith, λ h. ground arith), (λ h. ground arith, λ h. ground arith))
