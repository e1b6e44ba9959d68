-- ===== src/Foreground/Pending/Backlog.antt =====
-- When the pending messages are worked off as a backlog.
use blue_lagoon.Base.{◌≤◌, ◌≡◌, ◌↔◌, ◌⊎◌, Bool, true, List, ◌∷◌, any, length, arith}
use blue_lagoon.Contracts.Action.{Instant}
use blue_lagoon.Config.{BacklogRecoveryConfig}
use blue_lagoon.Foreground.Pending.{
  ForegroundExecutionMode, PendingIngress, seconds_between, last_of, oldest_touch, is_processing,
  evaluate_pending_foreground_execution,
}

-- The messages reach the configured number and, from the first to the last or since the oldest was
-- touched, the configured time.
abbrev pub ThresholdsReached :
    BacklogRecoveryConfig → (oldest next : PendingIngress) → List PendingIngress → Instant → Type 0
ThresholdsReached config oldest next more now =
    (config.pending_message_count_threshold ≤ length (oldest ∷ next ∷ more))
    × ((config.pending_message_span_seconds_threshold
          ≤ seconds_between oldest.occurred_at (last_of next more).occurred_at)
        ⊎ (config.stale_pending_ingress_age_seconds_threshold
            ≤ seconds_between (oldest_touch oldest (next ∷ more)) now))

-- Two or more pending messages are worked off as a backlog exactly when that is forced, when one of
-- them was left in processing, or when their number and either their span or their age reach the
-- thresholds.
pub backlog_iff :
    (config : BacklogRecoveryConfig) (oldest next : PendingIngress) (more : List PendingIngress)
    (now : Instant) (force : Bool)
    → ((evaluate_pending_foreground_execution config (oldest ∷ next ∷ more) now force).mode
        ≡ ForegroundExecutionMode.backlog_recovery)
      ↔ ((force ≡ true)
          ⊎ ((any is_processing (oldest ∷ next ∷ more) ≡ true)
              ⊎ ThresholdsReached config oldest next more now))
unfolding evaluate_pending_foreground_execution
backlog_iff config oldest next more now force = ground arith
