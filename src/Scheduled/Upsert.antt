-- ===== src/Scheduled/Upsert.antt =====
-- How a scheduled task is written, of crates/harness/src/scheduled_foreground.rs.
pub mod Keys
use blue_lagoon.Base.{
  ℕ, ◌+◌, ◌*◌, Bool, true, false, not, ◌&&◌, ◌||◌, Option, none, some, List, [], ◌∷◌, ◌++◌, map,
  Text, codes, ltb, leb, ◌==◌, if◌then◌else◌, any, find, is_none, is_some, is_blank, trim,
  to_ascii_lowercase, starts_with, text_eq, text_ltb, unwrap_or, Result, ok, err, bail_if, ◌>>=◌,
  ◌>>◌,
}
use blue_lagoon.Contracts.Action.{Uuid, Instant}
use blue_lagoon.Contracts.Ingress.{ChannelKind, telegram, NormalizedIngress, message_created}
use blue_lagoon.Config.{RuntimeConfig}
use blue_lagoon.Scheduled.{
  Tasks, is_one_shot_task_key, i64_max, to_i64, TaskWrite, has_id, replace_row,
  ScheduledForegroundTaskStatus, ScheduledForegroundLastOutcome, UpsertScheduledForegroundTask,
  ScheduledForegroundTaskRecord, ScheduledForegroundTaskWriteAction,
  ScheduledForegroundTaskWriteResult, ClaimedScheduledForegroundTask, TaskRunOutcomeData, TaskError,
  active, paused, disabled, completed, suppressed, failed, created, updated, task_key_empty,
  actor_ref_empty, principal_ref_empty, conversation_ref_empty, message_text_empty, cadence_zero,
  cadence_below_minimum, cooldown_zero, exceeds_i64, key_conflict, check_violated, not_owned,
}

abbrev pub is_zero : Option ℕ → Bool
is_zero none = false
is_zero (some n) = n == 0

unfoldable pub validate_upsert_request :
    RuntimeConfig → UpsertScheduledForegroundTask → Result TaskError (Unit {0})
unfolding is_blank is_one_shot_task_key
validate_upsert_request config request = do
  bail_if (is_blank request.task_key) task_key_empty
  bail_if (is_blank request.actor_ref) actor_ref_empty
  bail_if (is_blank request.internal_principal_ref) principal_ref_empty
  bail_if (is_blank request.internal_conversation_ref) conversation_ref_empty
  bail_if (is_blank request.message_text) message_text_empty
  bail_if (request.cadence_seconds == 0 && not (is_one_shot_task_key request.task_key)) cadence_zero
  bail_if
      (ltb 0 request.cadence_seconds
        && ltb request.cadence_seconds config.scheduled_foreground.min_cadence_seconds)
      cadence_below_minimum
  bail_if (is_zero request.cooldown_seconds) cooldown_zero

unfoldable pub stored_cadence_seconds : RuntimeConfig → UpsertScheduledForegroundTask → ℕ
unfolding is_one_shot_task_key
stored_cadence_seconds config request =
    if request.cadence_seconds == 0 && is_one_shot_task_key request.task_key
    then config.scheduled_foreground.min_cadence_seconds
    else request.cadence_seconds

unfoldable pub get_task_by_key : (task_key : Text) → Tasks → Option ScheduledForegroundTaskRecord
unfolding find text_eq
get_task_by_key task_key rows = find (λ row. text_eq row.task_key task_key) rows

abbrev pub inserted_task :
    (id : Uuid) (now : Instant) (cadence cooldown : ℕ)
    → UpsertScheduledForegroundTask
    → ScheduledForegroundTaskRecord
inserted_task id now cadence cooldown request = record {
  scheduled_foreground_task_id = id;
  task_key = trim request.task_key;
  channel_kind = telegram;
  status = request.status;
  internal_principal_ref = trim request.internal_principal_ref;
  internal_conversation_ref = trim request.internal_conversation_ref;
  message_text = trim request.message_text;
  cadence_seconds = cadence;
  cooldown_seconds = cooldown;
  next_due_at = unwrap_or request.next_due_at now;
  current_execution_id = none;
  current_run_started_at = none;
  last_execution_id = none;
  last_run_started_at = none;
  last_run_completed_at = none;
  last_outcome = none;
  last_outcome_reason = none;
  last_outcome_summary = none;
  created_by = trim request.actor_ref;
  updated_by = trim request.actor_ref;
  created_at = now;
  updated_at = now;
}

-- `CHECK (cadence_seconds >= 1)` and the UNIQUE key.
abbrev pub insert_row : ScheduledForegroundTaskRecord → Tasks → TaskWrite
insert_row row rows =
    if any (λ other. text_eq other.task_key row.task_key) rows
    then err key_conflict
    else if row.cadence_seconds == 0
    then err check_violated
    else ok (row, row ∷ rows)

unfoldable pub insert_task :
    (id : Uuid) (now : Instant) → RuntimeConfig → UpsertScheduledForegroundTask → Tasks → TaskWrite
unfolding stored_cadence_seconds trim any text_eq
insert_task id now config request rows = do
  cadence ← to_i64 (stored_cadence_seconds config request)
  cooldown ←
      to_i64
        (unwrap_or request.cooldown_seconds config.scheduled_foreground.default_cooldown_seconds)
  insert_row (inserted_task id now cadence cooldown request) rows

abbrev pub rewritten_task :
    (now : Instant) (cadence cooldown : ℕ)
    → UpsertScheduledForegroundTask
    → ScheduledForegroundTaskRecord
    → ScheduledForegroundTaskRecord
rewritten_task now cadence cooldown request existing = record existing {
  status = request.status;
  internal_principal_ref = trim request.internal_principal_ref;
  internal_conversation_ref = trim request.internal_conversation_ref;
  message_text = trim request.message_text;
  cadence_seconds = cadence;
  cooldown_seconds = cooldown;
  next_due_at = unwrap_or request.next_due_at existing.next_due_at;
  updated_by = trim request.actor_ref;
  updated_at = now;
}

unfoldable pub update_task :
    (now : Instant)
    → RuntimeConfig
    → ScheduledForegroundTaskRecord
    → UpsertScheduledForegroundTask
    → Tasks
    → TaskWrite
unfolding stored_cadence_seconds trim
update_task now config existing request rows = do
  cadence ← to_i64 (stored_cadence_seconds config request)
  cooldown ← to_i64 (unwrap_or request.cooldown_seconds existing.cooldown_seconds)
  bail_if (cadence == 0) check_violated
  ok (
    rewritten_task now cadence cooldown request existing,
    replace_row (rewritten_task now cadence cooldown request existing) rows,
  )

abbrev pub written :
    ScheduledForegroundTaskWriteAction
    → TaskWrite
    → Result TaskError (ScheduledForegroundTaskWriteResult × Tasks)
written action (err e) = err e
written action (ok (row, rows)) = ok (record { action = action; record_ = row }, rows)

-- An error leaves the table as it was.
unfoldable pub upsert_task :
    (id : Uuid) (now : Instant)
    → RuntimeConfig
    → UpsertScheduledForegroundTask
    → Tasks
    → Result TaskError (ScheduledForegroundTaskWriteResult × Tasks)
unfolding validate_upsert_request get_task_by_key insert_task update_task
upsert_task id now config request rows =
    validate_upsert_request config request >> elim (get_task_by_key request.task_key rows) [
      | some existing ↦ written updated (update_task now config existing request rows)
      | none ↦ written created (insert_task id now config request rows)
    ]
