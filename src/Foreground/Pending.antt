-- ===== src/Foreground/Pending.antt =====
-- `evaluate_pending_foreground_execution` of crates/harness/src/foreground.rs: whether the pending
-- messages of a conversation are answered one by one or as a backlog.
pub mod Backlog
use blue_lagoon.Base.{
  ℕ, ◌-◌, ◌/◌, Bool, true, false, ◌&&◌, Option, none, some, List, [], ◌∷◌, Text, codes, ltb, leb,
  if◌then◌else◌, any, length, text_eq, unwrap_or, min,
}
use blue_lagoon.Contracts.Action.{Uuid, Instant}
use blue_lagoon.Config.{BacklogRecoveryConfig}

pub data ForegroundExecutionMode : Type 0 where
  single_ingress backlog_recovery : ForegroundExecutionMode

pub data ForegroundExecutionDecisionReason : Type 0 where
  single_ingress stale_processing_resume pending_span_threshold : ForegroundExecutionDecisionReason
  stale_pending_batch forced_recovery : ForegroundExecutionDecisionReason

pub record PendingForegroundExecutionDecision : Type 0 where
  pub mode : ForegroundExecutionMode
  pub reason : ForegroundExecutionDecisionReason

-- The fields of an ingress event that the decision reads.
pub record PendingIngress : Type 0 where
  pub ingress_id : Uuid
  pub occurred_at : Instant
  pub received_at : Instant
  pub last_processed_at : Option Instant
  pub foreground_status : Text

abbrev pub recover_for : ForegroundExecutionDecisionReason → PendingForegroundExecutionDecision
recover_for reason = record { mode = ForegroundExecutionMode.backlog_recovery; reason = reason }

abbrev pub answer_single : PendingForegroundExecutionDecision
answer_single = record {
  mode = ForegroundExecutionMode.single_ingress;
  reason = ForegroundExecutionDecisionReason.single_ingress;
}

-- `signed_duration_since(..).num_seconds().max(0)`, of instants in nanoseconds: a negative duration
-- is cut off towards zero, so it is at most 0 seconds.
abbrev pub seconds_between : (from to : Instant) → ℕ
seconds_between from to = (to - from) / 1000000000

abbrev pub last_of : PendingIngress → List PendingIngress → PendingIngress
last_of first [] = first
last_of first (next ∷ more) = last_of next more

abbrev pub touched_at : PendingIngress → Instant
touched_at ingress = unwrap_or ingress.last_processed_at ingress.received_at

abbrev pub oldest_touch : PendingIngress → List PendingIngress → Instant
oldest_touch first [] = touched_at first
oldest_touch first (next ∷ more) = min (touched_at first) (oldest_touch next more)

abbrev pub is_processing : PendingIngress → Bool
is_processing ingress = text_eq ingress.foreground_status (codes "processing")

abbrev pub reaches_count : BacklogRecoveryConfig → List PendingIngress → Bool
reaches_count config pending = leb config.pending_message_count_threshold (length pending)

unfoldable pub evaluate_pending_foreground_execution :
    BacklogRecoveryConfig
    → List PendingIngress
    → (now : Instant) (force_recovery : Bool) → PendingForegroundExecutionDecision
unfolding any text_eq
evaluate_pending_foreground_execution config [] now force_recovery = answer_single
evaluate_pending_foreground_execution config (only ∷ []) now force_recovery = answer_single
evaluate_pending_foreground_execution config (oldest ∷ next ∷ more) now force_recovery =
    let pending = oldest ∷ next ∷ more in
    let newest = last_of next more in
    if force_recovery
    then recover_for ForegroundExecutionDecisionReason.forced_recovery
    else if any is_processing pending
    then recover_for ForegroundExecutionDecisionReason.stale_processing_resume
    else if reaches_count config pending
        && leb config.pending_message_span_seconds_threshold
            (seconds_between oldest.occurred_at newest.occurred_at)
    then recover_for ForegroundExecutionDecisionReason.pending_span_threshold
    else if reaches_count config pending
        && leb config.stale_pending_ingress_age_seconds_threshold
            (seconds_between (oldest_touch oldest (next ∷ more)) now)
    then recover_for ForegroundExecutionDecisionReason.stale_pending_batch
    else answer_single
