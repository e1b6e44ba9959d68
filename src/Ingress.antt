-- ===== src/Ingress.antt =====
-- crates/harness/src/ingress.rs: how an update of Telegram becomes a normalized ingress.
-- `timestamp_to_utc` is chrono's, and the id that `Uuid::now_v7` draws is an argument.
mod Update
mod Parts
pub mod Authority
pub use Update.*
unfoldable pub use Parts.*
use blue_lagoon.Base.{
  ℕ, ◌+◌, ◌-◌, ◌*◌, ◌%◌, ℤ, pos, negsuc, int_eq, int_to_text, Bool, true, false, not, ◌==◌, leb,
  ltb, if◌then◌else◌, Option, none, some, unwrap_or, List, [], ◌∷◌, ◌++◌, reverse, Text, codes,
  is_whitespace, trim, trim_start, starts_with,
}
use blue_lagoon.Contracts.Action.{Uuid, Instant}
use blue_lagoon.Contracts.Ingress.{
  telegram, IngressEventKind, message_created, command_issued, approval_callback, ReplyReference,
  AttachmentReference, CommandHint, NormalizedIngress,
}
use blue_lagoon.Config.{ResolvedTelegramConfig}

abbrev pub is_private : TelegramChatKind → Bool
is_private private_chat = true
is_private _ = false

unfoldable pub reject :
    (update_id : ℤ) → TelegramRejectionReason → (detail : Text) → TelegramNormalizationOutcome
reject update_id reason detail =
    rejected
      (record { external_event_id = int_to_text update_id; reason = reason; detail = detail })

abbrev ignore : (update_id : ℤ) → TelegramNormalizationOutcome
ignore update_id =
    ignored
      (record { external_event_id = int_to_text update_id; reason = unsupported_update_shape })

abbrev reply_reference : Option ℤ → Option ReplyReference
reply_reference none = none
reply_reference (some id) = some (record { external_message_id = int_to_text id })

module _ (timestamp_to_utc : ℤ → Option Instant) (ingress_id : Uuid)
    (config : ResolvedTelegramConfig) where
  abbrev pub message_ingress :
      TelegramUpdate → TelegramMessage → TelegramUser → Instant → Option Text → NormalizedIngress
  message_ingress update message actor occurred_at raw_payload_ref = record {
    ingress_id = ingress_id;
    channel_kind = telegram;
    external_user_id = int_to_text actor.id;
    external_conversation_id = int_to_text message.chat.id;
    external_event_id = int_to_text update.update_id;
    external_message_id = some (int_to_text message.message_id);
    internal_principal_ref = config.internal_principal_ref;
    internal_conversation_ref = config.internal_conversation_ref;
    event_kind = message_event_kind message;
    occurred_at = occurred_at;
    text_body = message.text;
    reply_to = reply_reference message.reply_to_message;
    attachments = attachment_references message;
    command_hint = command_hint message;
    approval_payload = none;
    raw_payload_ref = raw_payload_ref;
  }

  unfoldable pub normalize_message_update :
      TelegramUpdate
      → TelegramMessage
      → (raw_payload_ref : Option Text) → TelegramNormalizationOutcome
  unfolding reject message_event_kind attachment_references command_hint
  normalize_message_update update message raw_payload_ref =
      if not (is_private message.chat.kind)
      then reject update.update_id unsupported_conversation_mode
          (codes "Telegram message came from a non-private chat")
      else elim message.from [
        | none ↦
            reject update.update_id missing_actor (codes "Telegram message is missing a sender")
        | some actor ↦
            if actor.is_bot
            then reject update.update_id unsupported_actor
                (codes "Telegram message came from a bot account")
            else if not (int_eq actor.id config.allowed_user_id)
            then reject update.update_id unauthorized_actor
                (codes "Telegram message actor does not match configured single-user identity")
            else if not (int_eq message.chat.id config.allowed_chat_id)
            then reject update.update_id unauthorized_conversation
                (codes "Telegram message chat does not match configured conversation binding")
            else elim (timestamp_to_utc message.date) [
              | none ↦
                  reject update.update_id invalid_occurred_at
                    (codes "Telegram message used an invalid occurred-at timestamp")
              | some occurred_at ↦
                  accepted (message_ingress update message actor occurred_at raw_payload_ref)
            ]
      ]

  abbrev callback_ingress :
      TelegramUpdate
      → TelegramCallbackQuery
      → TelegramMessage
      → Instant
      → Option Text
      → NormalizedIngress
  callback_ingress update callback message occurred_at raw_payload_ref = record {
    ingress_id = ingress_id;
    channel_kind = telegram;
    external_user_id = int_to_text callback.from.id;
    external_conversation_id = int_to_text message.chat.id;
    external_event_id = int_to_text update.update_id;
    external_message_id = some (int_to_text message.message_id);
    internal_principal_ref = config.internal_principal_ref;
    internal_conversation_ref = config.internal_conversation_ref;
    event_kind = approval_callback;
    occurred_at = occurred_at;
    text_body = none;
    reply_to = none;
    attachments = [];
    command_hint = none;
    approval_payload =
        some (record { token = callback.id; callback_data = callback.callback_data });
    raw_payload_ref = raw_payload_ref;
  }

  -- The branch of `normalize_telegram_update` for a callback on a message.
  unfoldable pub normalize_callback :
      TelegramUpdate
      → TelegramCallbackQuery
      → TelegramMessage
      → (raw_payload_ref : Option Text) → TelegramNormalizationOutcome
  unfolding reject
  normalize_callback update callback message raw_payload_ref =
      if not (is_private message.chat.kind)
      then reject update.update_id unsupported_conversation_mode
          (codes "Telegram callback came from a non-private chat")
      else if callback.from.is_bot
      then reject update.update_id unsupported_actor
          (codes "Telegram callback came from a bot account")
      else if not (int_eq callback.from.id config.allowed_user_id)
      then reject update.update_id unauthorized_actor
          (codes "Telegram callback actor does not match configured single-user identity")
      else if not (int_eq message.chat.id config.allowed_chat_id)
      then reject update.update_id unauthorized_conversation
          (codes "Telegram callback chat does not match configured conversation binding")
      else elim (timestamp_to_utc message.date) [
        | none ↦
            reject update.update_id invalid_occurred_at
              (codes "Telegram callback used an invalid occurred-at timestamp")
        | some occurred_at ↦
            accepted (callback_ingress update callback message occurred_at raw_payload_ref)
      ]

  unfoldable pub normalize_telegram_update :
      TelegramUpdate → (raw_payload_ref : Option Text) → TelegramNormalizationOutcome
  unfolding normalize_message_update normalize_callback
  normalize_telegram_update update raw_payload_ref = elim update.message [
    | some message ↦ normalize_message_update update message raw_payload_ref
    | none ↦ elim update.callback_query [
      | none ↦ ignore update.update_id
      | some callback ↦ elim callback.message [
        | none ↦ ignore update.update_id
        | some message ↦ normalize_callback update callback message raw_payload_ref
      ]
    ]
  ]
