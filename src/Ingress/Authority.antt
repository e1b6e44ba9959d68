-- ===== src/Ingress/Authority.antt =====
-- Whose updates are accepted, and that the policy agrees.
use blue_lagoon.Base.{
  ◌≡◌, ◌↔◌, refl, false, ℤ, int_eq_iff, inl, inr, Option-cases, Option, none, some, Text, arith,
}
use blue_lagoon.Contracts.Action.{Uuid, Instant}
use blue_lagoon.Contracts.Ingress.{NormalizedIngress}
use blue_lagoon.Config.{ResolvedTelegramConfig}
use blue_lagoon.Policy.{allowed, evaluate_telegram_foreground_trigger}
use blue_lagoon.Policy.Telegram.{
  IsBound, CarriesContent, evaluate_telegram_foreground_trigger-allowed,
}
use blue_lagoon.Ingress.{
  message_ingress, TelegramUpdate, TelegramMessage, TelegramUser, TelegramCallbackQuery, accepted,
  normalize_message_update, normalize_callback, normalize_telegram_update, private_chat,
}

-- The configured user, no bot, speaks in the configured private chat, at a time that can be read.
pub record IsAuthentic (timestamp_to_utc : ℤ → Option Instant) (config : ResolvedTelegramConfig)
    (actor : TelegramUser) (message : TelegramMessage) (at : Instant) : Type 0 where
  pub chat_kind : message.chat.kind ≡ private_chat
  pub person : actor.is_bot ≡ false
  pub user : actor.id ≡ config.allowed_user_id
  pub chat : message.chat.id ≡ config.allowed_chat_id
  pub time : timestamp_to_utc message.date ≡ some at

module _ (timestamp_to_utc : ℤ → Option Instant) (ingress_id : Uuid)
    (config : ResolvedTelegramConfig) (update : TelegramUpdate) (raw : Option Text) where
  message-accepted :
      (message : TelegramMessage) (ingress : NormalizedIngress)
      → normalize_message_update timestamp_to_utc ingress_id config update message raw
        ≡ accepted ingress
      → (actor : TelegramUser) × (message.from ≡ some actor)
        × IsAuthentic timestamp_to_utc config actor message ingress.occurred_at
        × IsBound config ingress
  unfolding normalize_message_update
  message-accepted message ingress h = elim (Option-cases message.from) [
    | inl e ↦ ground (arith, e)
    | inr (actor, e) ↦
        let user = int_eq_iff actor.id config.allowed_user_id in
        let chat = int_eq_iff message.chat.id config.allowed_chat_id in
        (actor, e, ground (arith, e, user, chat), ground (arith, e, user, chat))
  ]

  callback-accepted :
      (callback : TelegramCallbackQuery) (message : TelegramMessage) (ingress : NormalizedIngress)
      → normalize_callback timestamp_to_utc ingress_id config update callback message raw
        ≡ accepted ingress
      → IsAuthentic timestamp_to_utc config callback.from message ingress.occurred_at
        × IsBound config ingress
  unfolding normalize_callback
  callback-accepted callback message ingress h =
      let user = int_eq_iff callback.from.id config.allowed_user_id in
      let chat = int_eq_iff message.chat.id config.allowed_chat_id in
      (ground (arith, user, chat), ground (arith, user, chat))

  -- The message, or the callback and its message, that the update carries: a message goes first.
  pub data Origin : TelegramUser → TelegramMessage → Type 0 where
    of_message :
        (actor : TelegramUser) (message : TelegramMessage)
        → update.message ≡ some message
        → message.from ≡ some actor
        → Origin actor message
    of_callback :
        (callback : TelegramCallbackQuery) (message : TelegramMessage)
        → update.message ≡ none
        → update.callback_query ≡ some callback
        → callback.message ≡ some message
        → Origin callback.from message

  -- An accepted update carries a message or a callback of the configured user, who is no bot, in the
  -- configured private chat, and its ingress carries the four identities of the configuration.
  pub normalize_telegram_update-accepted :
      (ingress : NormalizedIngress)
      → normalize_telegram_update timestamp_to_utc ingress_id config update raw ≡ accepted ingress
      → (actor : TelegramUser) × (message : TelegramMessage) × Origin actor message
        × IsAuthentic timestamp_to_utc config actor message ingress.occurred_at
        × IsBound config ingress
  unfolding normalize_telegram_update
  normalize_telegram_update-accepted ingress h = elim (Option-cases update.message) [
    | inr (message, e) ↦
        let (actor, f, a, b) = message-accepted message ingress (ground (arith, e)) in
        (actor, message, of_message actor message e f, a, b)
    | inl e ↦ elim (Option-cases update.callback_query) [
      | inl c ↦ ground (arith, e, c)
      | inr (callback, c) ↦ elim (Option-cases callback.message) [
        | inl m ↦ ground (arith, e, c, m)
        | inr (message, m) ↦
            let (a, b) = callback-accepted callback message ingress (ground (arith, e, c, m)) in
            (callback.from, message, of_callback callback message e c m, a, b)
      ]
    ]
  ]

  -- The policy allows an accepted update exactly if its event carries its content: an approval
  -- payload for a callback, and a text that is not blank for a message or a command.
  pub accepted_update_is_allowed_iff :
      (ingress : NormalizedIngress)
      → normalize_telegram_update timestamp_to_utc ingress_id config update raw ≡ accepted ingress
      → (evaluate_telegram_foreground_trigger config ingress ≡ allowed)
        ↔ CarriesContent ingress.event_kind ingress
  accepted_update_is_allowed_iff ingress h =
      let (actor, message, o, a, b) = normalize_telegram_update-accepted ingress h in
      let policy = evaluate_telegram_foreground_trigger-allowed config ingress in
      (λ e. (policy.0 e).1, λ c. policy.1 (b, c))

  -- A message of the configured user, who is no bot, in the configured private chat, at a time that
  -- can be read, is accepted, with its text and its time.
  pub authentic_message_is_accepted :
      (actor : TelegramUser) (message : TelegramMessage) (at : Instant)
      → update.message ≡ some message
      → message.from ≡ some actor
      → IsAuthentic timestamp_to_utc config actor message at
      → (ingress : NormalizedIngress) × (normalize_telegram_update timestamp_to_utc ingress_id
            config update raw
          ≡ accepted ingress)
        × (ingress.text_body ≡ message.text)
        × (ingress.occurred_at ≡ at)
  unfolding normalize_telegram_update normalize_message_update
  authentic_message_is_accepted actor message at e f a =
      let user = int_eq_iff actor.id config.allowed_user_id in
      let chat = int_eq_iff message.chat.id config.allowed_chat_id in
      (
        message_ingress timestamp_to_utc ingress_id config update message actor at raw,
        ground (arith, e, f, a, user, chat),
        refl,
        refl,
      )
