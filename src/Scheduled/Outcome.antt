-- ===== src/Scheduled/Outcome.antt =====
-- How a run ends, of crates/harness/src/scheduled_foreground.rs.
pub mod Release
use blue_lagoon.Base.{
  ℕ, ◌+◌, ◌*◌, Bool, true, false, not, ◌&&◌, ◌||◌, Option, none, some, List, [], ◌∷◌, ◌++◌, map,
  Text, codes, ltb, leb, ◌==◌, if◌then◌else◌, any, find, is_none, is_some, is_blank, trim,
  to_ascii_lowercase, starts_with, text_eq, text_ltb, unwrap_or, Result, ok, err, bail_if, ◌>>=◌,
  ◌>>◌,
}
use blue_lagoon.Contracts.Action.{Uuid, Instant}
use blue_lagoon.Scheduled.{
  Tasks, is_one_shot_task_key, i64_max, to_i64, TaskWrite, has_id, replace_row,
  ScheduledForegroundTaskStatus, ScheduledForegroundLastOutcome, UpsertScheduledForegroundTask,
  ScheduledForegroundTaskRecord, ScheduledForegroundTaskWriteAction,
  ScheduledForegroundTaskWriteResult, ClaimedScheduledForegroundTask, TaskRunOutcomeData, TaskError,
  active, paused, disabled, completed, suppressed, failed, created, updated, task_key_empty,
  actor_ref_empty, principal_ref_empty, conversation_ref_empty, message_text_empty, cadence_zero,
  cadence_below_minimum, cooldown_zero, exceeds_i64, key_conflict, check_violated, not_owned,
}

abbrev pub is_owned_by : (execution_id : Uuid) → ScheduledForegroundTaskRecord → Bool
is_owned_by execution_id row = elim row.current_execution_id [
  | none ↦ false
  | some id ↦ id == execution_id
]

abbrev pub released_row :
    (one_shot : Bool) (execution_id : Uuid) (completed_at now : Instant)
    → TaskRunOutcomeData
    → (next_due_at : Instant) → ScheduledForegroundTaskRecord
    → ScheduledForegroundTaskRecord
released_row one_shot execution_id completed_at now data_ next_due_at row = record row {
  current_execution_id = none;
  current_run_started_at = none;
  status = if one_shot then disabled else row.status;
  last_execution_id = some execution_id;
  last_run_started_at = some (unwrap_or row.current_run_started_at completed_at);
  last_run_completed_at = some completed_at;
  last_outcome = some data_.outcome;
  last_outcome_reason = data_.reason;
  last_outcome_summary = data_.summary;
  next_due_at = next_due_at;
  updated_at = now;
}

-- The row that the UPDATE is for, if the execution still owns it, and
-- `CHECK (last_run_completed_at >= last_run_started_at)`.
abbrev pub release :
    ScheduledForegroundTaskRecord
    → (execution_id : Uuid) (completed_at now : Instant) → TaskRunOutcomeData
    → (next_due_at : Instant) → Option ScheduledForegroundTaskRecord
    → Tasks
    → TaskWrite
release task execution_id completed_at now data_ next_due_at none rows = err not_owned
release task execution_id completed_at now data_ next_due_at (some row) rows =
    let after =
      released_row (is_one_shot_task_key task.task_key) execution_id completed_at now data_
        next_due_at row in
    if leb (unwrap_or row.current_run_started_at completed_at) completed_at
    then ok (after, replace_row after rows)
    else err check_violated

unfoldable pub update_task_run_outcome :
    ScheduledForegroundTaskRecord
    → (execution_id : Uuid) (completed_at now : Instant) → TaskRunOutcomeData
    → (next_due_at : Instant) → Tasks
    → TaskWrite
unfolding find is_one_shot_task_key
update_task_run_outcome task execution_id completed_at now data_ next_due_at rows =
    release task execution_id completed_at now data_ next_due_at
      (find (λ row. has_id task.scheduled_foreground_task_id row && is_owned_by execution_id row)
        rows)
      rows

-- `completed_at + cadence_as_duration(seconds)?`, of instants in nanoseconds.
unfoldable pub due_after : (completed_at : Instant) (seconds : ℕ) → Result TaskError Instant
due_after completed_at seconds = do
  checked ← to_i64 seconds
  ok (completed_at + checked * 1000000000)

abbrev pub run_outcome :
    ScheduledForegroundLastOutcome → (reason summary : Option Text) → TaskRunOutcomeData
run_outcome outcome reason summary = record {
  outcome = outcome;
  reason = reason;
  summary = summary;
}

unfoldable pub mark_task_completed :
    ScheduledForegroundTaskRecord
    → (execution_id : Uuid) (completed_at now : Instant) (summary : Text) → Tasks
    → TaskWrite
unfolding due_after update_task_run_outcome
mark_task_completed task execution_id completed_at now summary rows = do
  next_due_at ← due_after completed_at task.cadence_seconds
  update_task_run_outcome task execution_id completed_at now
      (run_outcome completed none (some summary)) next_due_at rows

unfoldable pub mark_task_suppressed :
    ScheduledForegroundTaskRecord
    → (execution_id : Uuid) (completed_at now : Instant) (reason summary : Text) → Tasks
    → TaskWrite
unfolding due_after update_task_run_outcome
mark_task_suppressed task execution_id completed_at now reason summary rows = do
  next_due_at ← due_after completed_at task.cooldown_seconds
  update_task_run_outcome task execution_id completed_at now
      (run_outcome suppressed (some reason) (some summary)) next_due_at rows

unfoldable pub mark_task_failed :
    ScheduledForegroundTaskRecord
    → (execution_id : Uuid) (completed_at now : Instant) (reason summary : Text) → Tasks
    → TaskWrite
unfolding due_after update_task_run_outcome
mark_task_failed task execution_id completed_at now reason summary rows = do
  next_due_at ← due_after completed_at task.cooldown_seconds
  update_task_run_outcome task execution_id completed_at now
      (run_outcome failed (some reason) (some summary)) next_due_at rows
