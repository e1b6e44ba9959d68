-- ===== src/Tests/Updates.antt =====
-- An update of the configured user, and one text.
use blue_lagoon.Base.{◌≡◌, ◌↔◌, ◌*◌, refl, ℤ, pos, negsuc, false, Option, none, some, [], codes}
use blue_lagoon.Contracts.Action.{Instant}
use blue_lagoon.Contracts.Ingress.{NormalizedIngress}
use blue_lagoon.Policy.{allowed, evaluate_telegram_foreground_trigger}
use blue_lagoon.Policy.Telegram.{IsBound, CarriesContent}
use blue_lagoon.Ingress.{
  TelegramUpdate, TelegramMessage, TelegramUser, private_chat, accepted, message_ingress,
  normalize_telegram_update,
}
use blue_lagoon.Ingress.Authority.{
  IsAuthentic, Origin, normalize_telegram_update-accepted, accepted_update_is_allowed_iff,
}
use blue_lagoon.Tests.Samples.{telegram_config}

-- Seconds of the epoch as nanoseconds.
abbrev timestamp_to_utc : ℤ → Option Instant
timestamp_to_utc (pos n) = some (n * 1000000000)
timestamp_to_utc (negsuc n) = none

abbrev user : TelegramUser
user = record { id = pos 42; is_bot = false }

abbrev message : TelegramMessage
message = record {
  message_id = pos 3;
  date = pos 100;
  chat = record { id = pos 42; kind = private_chat };
  from = some user;
  text = some (codes "hello");
  photo = [];
  document = none;
  reply_to_message = none;
}

abbrev update : TelegramUpdate
update = record { update_id = pos 9; message = some message; callback_query = none }

abbrev ingress : NormalizedIngress
ingress = message_ingress timestamp_to_utc 5 telegram_config update message user 100000000000 none

update_is_accepted :
    normalize_telegram_update timestamp_to_utc 5 telegram_config update none ≡ accepted ingress
unfolding normalize_telegram_update
update_is_accepted = refl

normalize_telegram_update-accepted_example :
    (actor : TelegramUser) × (m : TelegramMessage) × Origin timestamp_to_utc 5 telegram_config
      update none actor m
    × IsAuthentic timestamp_to_utc telegram_config actor m ingress.occurred_at
    × IsBound telegram_config ingress
normalize_telegram_update-accepted_example =
    normalize_telegram_update-accepted timestamp_to_utc 5 telegram_config update none ingress
      update_is_accepted

accepted_update_is_allowed_iff_example :
    (evaluate_telegram_foreground_trigger telegram_config ingress ≡ allowed)
    ↔ CarriesContent ingress.event_kind ingress
accepted_update_is_allowed_iff_example =
    accepted_update_is_allowed_iff timestamp_to_utc 5 telegram_config update none ingress
      update_is_accepted
