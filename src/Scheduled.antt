-- ===== src/Scheduled.antt =====
-- crates/harness/src/scheduled_foreground.rs: the table of scheduled foreground tasks, how a task is
-- written, claimed when it is due, and released with its outcome.
-- The table's UNIQUE key and its CHECKs on the run columns are tests of the statements; `now` is
-- what `Utc::now` or the database's `NOW()` reads and `id` what `Uuid::now_v7` draws. The execution
-- records, the causal links and the ingress events that a claim also inserts stand in other tables;
-- of them only the ingress that a claim stages is given back.
pub mod Upsert
pub mod Claim
pub mod Outcome
use blue_lagoon.Base.{
  ℕ, ◌+◌, ◌*◌, Bool, true, false, not, ◌&&◌, ◌||◌, Option, none, some, List, [], ◌∷◌, ◌++◌, map,
  Text, codes, ltb, leb, ◌==◌, if◌then◌else◌, any, find, is_none, is_some, is_blank, trim,
  to_ascii_lowercase, starts_with, text_eq, text_ltb, unwrap_or, Result, ok, err, bail_if, ◌>>=◌,
  ◌>>◌,
}
use blue_lagoon.Contracts.Action.{Uuid, Instant}
use blue_lagoon.Contracts.Ingress.{ChannelKind, telegram, NormalizedIngress, message_created}
use blue_lagoon.Config.{RuntimeConfig}
use blue_lagoon.Foreground.Bindings.{ConversationBindingRecord}

pub data ScheduledForegroundTaskStatus : Type 0 where
  active paused disabled : ScheduledForegroundTaskStatus

pub data ScheduledForegroundLastOutcome : Type 0 where
  completed suppressed failed : ScheduledForegroundLastOutcome

pub record UpsertScheduledForegroundTask : Type 0 where
  pub task_key : Text
  pub internal_principal_ref : Text
  pub internal_conversation_ref : Text
  pub message_text : Text
  pub cadence_seconds : ℕ
  pub cooldown_seconds : Option ℕ
  pub next_due_at : Option Instant
  pub status : ScheduledForegroundTaskStatus
  pub actor_ref : Text

pub record ScheduledForegroundTaskRecord : Type 0 where
  pub scheduled_foreground_task_id : Uuid
  pub task_key : Text
  pub channel_kind : ChannelKind
  pub status : ScheduledForegroundTaskStatus
  pub internal_principal_ref : Text
  pub internal_conversation_ref : Text
  pub message_text : Text
  pub cadence_seconds : ℕ
  pub cooldown_seconds : ℕ
  pub next_due_at : Instant
  pub current_execution_id : Option Uuid
  pub current_run_started_at : Option Instant
  pub last_execution_id : Option Uuid
  pub last_run_started_at : Option Instant
  pub last_run_completed_at : Option Instant
  pub last_outcome : Option ScheduledForegroundLastOutcome
  pub last_outcome_reason : Option Text
  pub last_outcome_summary : Option Text
  pub created_by : Text
  pub updated_by : Text
  pub created_at : Instant
  pub updated_at : Instant

pub data ScheduledForegroundTaskWriteAction : Type 0 where
  created updated : ScheduledForegroundTaskWriteAction

pub record ScheduledForegroundTaskWriteResult : Type 0 where
  pub action : ScheduledForegroundTaskWriteAction
  pub record_ : ScheduledForegroundTaskRecord

pub record ClaimedScheduledForegroundTask : Type 0 where
  pub task : ScheduledForegroundTaskRecord
  pub ingress : Option NormalizedIngress

pub record TaskRunOutcomeData : Type 0 where
  pub outcome : ScheduledForegroundLastOutcome
  pub reason : Option Text
  pub summary : Option Text

pub data TaskError : Type 0 where
  task_key_empty actor_ref_empty principal_ref_empty conversation_ref_empty : TaskError
  message_text_empty cadence_zero cadence_below_minimum cooldown_zero : TaskError
  exceeds_i64 key_conflict check_violated not_owned : TaskError

abbrev pub Tasks : Type 0
Tasks = List ScheduledForegroundTaskRecord

unfoldable pub is_one_shot_task_key : Text → Bool
unfolding trim to_ascii_lowercase starts_with
is_one_shot_task_key task_key =
    let key = to_ascii_lowercase (trim task_key) in
    starts_with key (codes "oneoff_") || starts_with key (codes "one_shot_")

abbrev pub i64_max : ℕ
i64_max = 9223372036854775807

-- `i64::try_from`
abbrev pub to_i64 : ℕ → Result TaskError ℕ
to_i64 n = if leb n i64_max then ok n else err exceeds_i64

abbrev pub TaskWrite : Type 0
TaskWrite = Result TaskError (ScheduledForegroundTaskRecord × Tasks)

abbrev pub has_id : Uuid → ScheduledForegroundTaskRecord → Bool
has_id id row = row.scheduled_foreground_task_id == id

abbrev pub replace_row : ScheduledForegroundTaskRecord → Tasks → Tasks
replace_row new rows =
    map (λ row. if has_id new.scheduled_foreground_task_id row then new else row) rows
