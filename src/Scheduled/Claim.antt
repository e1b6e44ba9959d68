-- ===== src/Scheduled/Claim.antt =====
-- How the next due task is claimed, of crates/harness/src/scheduled_foreground.rs.
pub mod Earliest
use blue_lagoon.Base.{
  ℕ, ◌+◌, ◌*◌, Bool, true, false, not, ◌&&◌, ◌||◌, Option, none, some, List, [], ◌∷◌, ◌++◌, map,
  Text, codes, ltb, leb, ◌==◌, if◌then◌else◌, any, find, is_none, is_some, is_blank, trim,
  to_ascii_lowercase, starts_with, text_eq, text_ltb, unwrap_or, Result, ok, err, bail_if, ◌>>=◌,
  ◌>>◌,
}
use blue_lagoon.Contracts.Action.{Uuid, Instant}
use blue_lagoon.Contracts.Ingress.{ChannelKind, telegram, NormalizedIngress, message_created}
use blue_lagoon.Foreground.Bindings.{ConversationBindingRecord}
use blue_lagoon.Scheduled.{
  Tasks, is_one_shot_task_key, i64_max, to_i64, TaskWrite, has_id, replace_row,
  ScheduledForegroundTaskStatus, ScheduledForegroundLastOutcome, UpsertScheduledForegroundTask,
  ScheduledForegroundTaskRecord, ScheduledForegroundTaskWriteAction,
  ScheduledForegroundTaskWriteResult, ClaimedScheduledForegroundTask, TaskRunOutcomeData, TaskError,
  active, paused, disabled, completed, suppressed, failed, created, updated, task_key_empty,
  actor_ref_empty, principal_ref_empty, conversation_ref_empty, message_text_empty, cadence_zero,
  cadence_below_minimum, cooldown_zero, exceeds_i64, key_conflict, check_violated, not_owned,
}

abbrev pub is_active : ScheduledForegroundTaskStatus → Bool
is_active active = true
is_active _ = false

abbrev pub is_claimable : (claimed_at : Instant) → ScheduledForegroundTaskRecord → Bool
is_claimable claimed_at row =
    is_active row.status && is_none row.current_execution_id && leb row.next_due_at claimed_at

-- `ORDER BY next_due_at ASC, task_key ASC`
abbrev pub comes_before : ScheduledForegroundTaskRecord → ScheduledForegroundTaskRecord → Bool
comes_before row other =
    ltb row.next_due_at other.next_due_at
    || (row.next_due_at == other.next_due_at && text_ltb row.task_key other.task_key)

abbrev pub earlier_of :
    ScheduledForegroundTaskRecord
    → Option ScheduledForegroundTaskRecord
    → Option ScheduledForegroundTaskRecord
earlier_of row none = some row
earlier_of row (some other) = if comes_before other row then some other else some row

-- A row that another transaction holds locked is skipped; here no other transaction runs.
unfoldable pub select_next_due_task_locked :
    (claimed_at : Instant) → Tasks → Option ScheduledForegroundTaskRecord
unfolding text_ltb
select_next_due_task_locked claimed_at [] = none
select_next_due_task_locked claimed_at (row ∷ rows) =
    let rest = select_next_due_task_locked claimed_at rows in
    if is_claimable claimed_at row then earlier_of row rest else rest

-- `id_text` is the printing of a `Uuid`.
unfoldable pub build_scheduled_task_ingress :
    (id_text : Uuid → Text)
    → ScheduledForegroundTaskRecord
    → ConversationBindingRecord
    → (ingress_id execution_id : Uuid) (occurred_at : Instant) → NormalizedIngress
build_scheduled_task_ingress id_text task binding ingress_id execution_id occurred_at = record {
  ingress_id = ingress_id;
  channel_kind = telegram;
  external_user_id = binding.external_user_id;
  external_conversation_id = binding.external_conversation_id;
  external_event_id = codes "scheduled-task:" ++ task.task_key ++ codes ":" ++ id_text execution_id;
  external_message_id = none;
  internal_principal_ref = task.internal_principal_ref;
  internal_conversation_ref = task.internal_conversation_ref;
  event_kind = message_created;
  occurred_at = occurred_at;
  text_body = some task.message_text;
  reply_to = none;
  attachments = [];
  command_hint = none;
  approval_payload = none;
  raw_payload_ref =
      some (codes "scheduled_foreground_task:" ++ id_text task.scheduled_foreground_task_id);
}

abbrev pub claimed_row :
    (execution_id : Uuid) (claimed_at now : Instant)
    → ScheduledForegroundTaskRecord
    → ScheduledForegroundTaskRecord
claimed_row execution_id claimed_at now row = record row {
  current_execution_id = some execution_id;
  current_run_started_at = some claimed_at;
  updated_at = now;
}

unfoldable pub find_conversation_binding_locked :
    (internal_conversation_ref : Text)
    → List ConversationBindingRecord
    → Option ConversationBindingRecord
unfolding find text_eq
find_conversation_binding_locked ref bindings =
    find (λ row. text_eq row.internal_conversation_ref ref) bindings

abbrev pub staged_ingress :
    (id_text : Uuid → Text)
    → ScheduledForegroundTaskRecord
    → Option ConversationBindingRecord
    → (ingress_id execution_id : Uuid) (claimed_at : Instant) → Option NormalizedIngress
staged_ingress id_text task none ingress_id execution_id claimed_at = none
staged_ingress id_text task (some binding) ingress_id execution_id claimed_at =
    some (build_scheduled_task_ingress id_text task binding ingress_id execution_id claimed_at)

abbrev pub claim_selected :
    (id_text : Uuid → Text)
    → List ConversationBindingRecord
    → (ingress_id execution_id : Uuid) (claimed_at now : Instant)
    → Option ScheduledForegroundTaskRecord
    → Tasks
    → Option ClaimedScheduledForegroundTask × Tasks
claim_selected id_text bindings ingress_id execution_id claimed_at now none rows = (none, rows)
claim_selected id_text bindings ingress_id execution_id claimed_at now (some task) rows = (
  some (record {
    task = claimed_row execution_id claimed_at now task;
    ingress =
        staged_ingress id_text task
          (find_conversation_binding_locked task.internal_conversation_ref bindings) ingress_id
          execution_id claimed_at;
  }),
  replace_row (claimed_row execution_id claimed_at now task) rows,
)

unfoldable pub claim_next_due_task :
    (id_text : Uuid → Text)
    → List ConversationBindingRecord
    → (ingress_id execution_id : Uuid) (claimed_at now : Instant) → Tasks
    → Option ClaimedScheduledForegroundTask × Tasks
unfolding select_next_due_task_locked find_conversation_binding_locked build_scheduled_task_ingress
claim_next_due_task id_text bindings ingress_id execution_id claimed_at now rows =
    claim_selected id_text bindings ingress_id execution_id claimed_at now
      (select_next_due_task_locked claimed_at rows) rows
