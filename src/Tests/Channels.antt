-- ===== src/Tests/Channels.antt =====
-- Bindings that two rows claim, texts and buttons of Telegram, and two scheduled tasks.
use blue_lagoon.Base.{
  ◌≡◌, ◌≢◌, refl, Text, pos, true, false, none, some, [], ◌∷◌, codes, any, trim, ok, err, ◌==◌,
  text_eq,
}
use blue_lagoon.Contracts.Action.{Instant, tier2}
use blue_lagoon.Contracts.Ingress.{ApprovalPayload, telegram}
use blue_lagoon.Foreground.Bindings.{NewConversationBinding, BindingStore, has_id}
use blue_lagoon.Foreground.Bindings.Keys.{Distinct}
use blue_lagoon.Foreground.Bindings.Reconciled.{Success, reconcile_total}
use blue_lagoon.Telegram.Render.{render_telegram_html_message}
use blue_lagoon.Telegram.Render.Safe.{IsTelegramHtml, render-IsTelegramHtml}
use blue_lagoon.Telegram.Prompt.{TelegramApprovalPrompt, build_approval_prompt_message}
use blue_lagoon.Telegram.Callback.RoundTrip.{Prompted, callback_round_trip}
use blue_lagoon.Config.{inline_keyboard_with_fallback}
use blue_lagoon.Scheduled.{
  UpsertScheduledForegroundTask, ScheduledForegroundTaskRecord, TaskRunOutcomeData,
  ScheduledForegroundTaskWriteResult, created, Tasks, active, completed, key_conflict,
}
use blue_lagoon.Scheduled.Upsert.{inserted_task, upsert_task}
use blue_lagoon.Scheduled.Upsert.Keys.{AreTrimmed, padded_key_conflicts}
use blue_lagoon.Scheduled.Claim.{select_next_due_task_locked}
use blue_lagoon.Scheduled.Claim.Earliest.{Selected, select_next_due_task_locked-Selected}
use blue_lagoon.Scheduled.Outcome.{update_task_run_outcome, released_row}
use blue_lagoon.Scheduled.Outcome.Release.{Released, update_task_run_outcome-Released}
use blue_lagoon.Tests.Samples.{config}

abbrev binding : NewConversationBinding
binding = record {
  conversation_binding_id = 3;
  channel_kind = telegram;
  external_user_id = codes "42";
  external_conversation_id = codes "42";
  internal_principal_ref = codes "owner";
  internal_conversation_ref = codes "owner-chat";
}

-- One row has the external tuple, another the internal reference, and an event refers to the latter.
abbrev claimed_twice : BindingStore
claimed_twice = record {
  bindings =
      record binding { conversation_binding_id = 1; internal_conversation_ref = codes "old-chat" }
      ∷ record binding { conversation_binding_id = 2; external_user_id = codes "41" }
      ∷ [];
  events = record { ingress_id = 5; conversation_binding_id = some 2 } ∷ [];
}

keys-Distinct : Distinct claimed_twice.bindings
unfolding text_eq
keys-Distinct = (((refl, refl, refl), tt), (tt, tt))

id_is_fresh : any (has_id 3) claimed_twice.bindings ≡ false
unfolding any
id_is_fresh = refl

reconcile_total_example : Success binding claimed_twice
reconcile_total_example = reconcile_total binding claimed_twice keys-Distinct id_is_fresh

render-IsTelegramHtml_example :
    IsTelegramHtml (render_telegram_html_message (codes "**a < b** & `c` * **"))
render-IsTelegramHtml_example = render-IsTelegramHtml (codes "**a < b** & `c` * **")

abbrev button : ApprovalPayload
button = record { token = codes "t-7"; callback_data = none }

abbrev prompt : TelegramApprovalPrompt
prompt = record {
  token = codes "t-7";
  title = codes "Run a command";
  consequence_summary = codes "lists a directory";
  action_fingerprint = codes "f";
  risk_tier = tier2;
  expires_at = 900;
}

-- A printing of instants that the prompt can use.
abbrev to_rfc3339 : Instant → Text
to_rfc3339 t = t ∷ []

no_bar_in_token : any (λ c. c == b'|') prompt.token ≡ false
unfolding any
no_bar_in_token = refl

token_is_trimmed : trim prompt.token ≡ prompt.token
unfolding trim
token_is_trimmed = refl

callback_round_trip_example :
    Prompted button inline_keyboard_with_fallback prompt.token
      (build_approval_prompt_message to_rfc3339 inline_keyboard_with_fallback (pos 42) none prompt)
callback_round_trip_example =
    callback_round_trip to_rfc3339 button inline_keyboard_with_fallback (pos 42) none prompt
      no_bar_in_token token_is_trimmed

-- A request with a space before its key.
abbrev padded : UpsertScheduledForegroundTask
padded = record {
  task_key = codes " daily";
  internal_principal_ref = codes "owner";
  internal_conversation_ref = codes "owner-chat";
  message_text = codes "hello";
  cadence_seconds = 600;
  cooldown_seconds = none;
  next_due_at = some 900;
  status = active;
  actor_ref = codes "cli:owner";
}

abbrev daily : ScheduledForegroundTaskRecord
daily = inserted_task 71 100 600 300 padded

abbrev tasks : Tasks
tasks =
    record daily {
      scheduled_foreground_task_id = 72;
      task_key = codes "oneoff_tea";
      next_due_at = 800;
      current_execution_id = none;
    }
    ∷ daily
    ∷ []

abbrev one_shot : Tasks
one_shot = record daily { task_key = codes "oneoff_tea" } ∷ []

key_is_padded : trim padded.task_key ≢ padded.task_key
unfolding trim
key_is_padded h = cc

keys-AreTrimmed : AreTrimmed one_shot
unfolding trim
keys-AreTrimmed = (refl, tt)

abbrev creation : ScheduledForegroundTaskWriteResult
creation = record { action = created; record_ = inserted_task 73 200 600 300 padded }

padded_is_created :
    upsert_task 73 200 config padded one_shot ≡ ok (creation, creation.record_ ∷ one_shot)
unfolding upsert_task
padded_is_created = refl

padded_key_conflicts_example :
    (created ≡ created)
    × (upsert_task 74 300 config padded (creation.record_ ∷ one_shot) ≡ err key_conflict)
padded_key_conflicts_example =
    padded_key_conflicts 73 74 200 300 config padded one_shot (creation.record_ ∷ one_shot) creation
      key_is_padded keys-AreTrimmed padded_is_created

select_next_due_task_locked-Selected_example :
    Selected 1000 tasks (select_next_due_task_locked 1000 tasks)
select_next_due_task_locked-Selected_example = select_next_due_task_locked-Selected 1000 tasks

-- The one-shot task, claimed by an execution.
abbrev running : ScheduledForegroundTaskRecord
running = record daily {
  task_key = codes "oneoff_tea";
  current_execution_id = some 2;
  current_run_started_at = some 1000;
}

abbrev delivered : TaskRunOutcomeData
delivered = record { outcome = completed; reason = none; summary = none }

abbrev ended : ScheduledForegroundTaskRecord
ended = released_row true 2 1100 1101 delivered 1700 running

outcome_is_recorded :
    update_task_run_outcome running 2 1100 1101 delivered 1700 (running ∷ [])
    ≡ ok (ended, ended ∷ [])
unfolding update_task_run_outcome
outcome_is_recorded = refl

update_task_run_outcome-Released_example :
    Released running 2 1100 delivered 1700 (running ∷ []) (ended ∷ []) ended
update_task_run_outcome-Released_example =
    update_task_run_outcome-Released running 2 1100 1101 delivered 1700 (running ∷ []) (ended ∷ [])
      ended outcome_is_recorded
