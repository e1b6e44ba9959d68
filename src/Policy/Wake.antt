-- ===== src/Policy/Wake.antt =====
-- `evaluate_wake_signal` of crates/harness/src/policy.rs.
pub mod Acceptance
use blue_lagoon.Base.{ℕ, Bool, true, false, not, ◌&&◌, List, Text, leb, if◌then◌else◌}
use blue_lagoon.Contracts.Wake.{
  WakeSignalPriority, low, normal, high, WakeSignal, WakeSignalDecisionKind, accepted, rejected,
  suppressed, deferred, WakeSignalDecision,
}
use blue_lagoon.Config.{RuntimeConfig}
use blue_lagoon.Policy.Boundaries.{identity_boundary_defers_wake_signal}

pub record WakeSignalEvaluationContext : Type 0 where
  pub pending_signal_count : ℕ
  pub cooldown_active : Bool
  pub foreground_channel_available : Bool
  pub internal_resource_pressure_pct : ℕ
  pub internal_reliability_pct : ℕ
  pub identity_boundaries : List Text

pub data WakeReason : Type 0 where
  no_foreground_binding conversion_disabled boundary_defers : WakeReason
  resource_pressure reliability : (pct : ℕ) → WakeReason
  cooldown : (reason_code : Text) → WakeReason
  queue_at_limit : (max_pending_signals : ℕ) → WakeReason
  satisfies_policy : WakeReason

abbrev pub is_high : WakeSignalPriority → Bool
is_high high = true
is_high _ = false

abbrev full_queue_decision : WakeSignalPriority → WakeSignalDecisionKind
full_queue_decision low = suppressed
full_queue_decision normal = deferred
full_queue_decision high = accepted

abbrev decide_signal :
    WakeSignal → WakeSignalDecisionKind → WakeReason → WakeSignalDecision WakeReason
decide_signal signal decision reason = record {
  signal_id = signal.signal_id;
  decision = decision;
  reason = reason;
}

unfoldable pub evaluate_wake_signal :
    RuntimeConfig → WakeSignal → WakeSignalEvaluationContext → WakeSignalDecision WakeReason
evaluate_wake_signal config signal context =
    if not context.foreground_channel_available
    then decide_signal signal rejected no_foreground_binding
    else if not config.background.wake_signals.allow_foreground_conversion
    then decide_signal signal deferred conversion_disabled
    else if identity_boundary_defers_wake_signal context.identity_boundaries
        && not (is_high signal.priority)
    then decide_signal signal deferred boundary_defers
    else if leb 85 context.internal_resource_pressure_pct && not (is_high signal.priority)
    then decide_signal signal deferred (resource_pressure context.internal_resource_pressure_pct)
    else if leb context.internal_reliability_pct 35 && not (is_high signal.priority)
    then decide_signal signal deferred (reliability context.internal_reliability_pct)
    else if context.cooldown_active && not (is_high signal.priority)
    then decide_signal signal deferred (cooldown signal.reason_code)
    else if leb config.background.wake_signals.max_pending_signals context.pending_signal_count
    then decide_signal signal (full_queue_decision signal.priority)
        (queue_at_limit config.background.wake_signals.max_pending_signals)
    else decide_signal signal accepted satisfies_policy
