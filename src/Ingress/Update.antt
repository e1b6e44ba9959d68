-- ===== src/Ingress/Update.antt =====
-- The data of an update of Telegram, of crates/harness/src/telegram.rs, with the fields that are
-- read, and the outcome of its normalization.
use blue_lagoon.Base.{ℕ, ℤ, Bool, Option, List, Text}
use blue_lagoon.Contracts.Ingress.{NormalizedIngress}

pub data TelegramChatKind : Type 0 where
  private_chat group supergroup channel : TelegramChatKind

pub record TelegramChat : Type 0 where
  pub id : ℤ
  pub kind : TelegramChatKind

pub record TelegramUser : Type 0 where
  pub id : ℤ
  pub is_bot : Bool

pub record TelegramPhotoSize : Type 0 where
  pub file_id : Text
  pub width : ℤ
  pub height : ℤ
  pub file_size : Option ℕ

pub record TelegramDocument : Type 0 where
  pub file_id : Text
  pub file_name : Option Text
  pub mime_type : Option Text
  pub file_size : Option ℕ

-- Of the message that is replied to, the id.
pub record TelegramMessage : Type 0 where
  pub message_id : ℤ
  pub date : ℤ
  pub chat : TelegramChat
  pub from : Option TelegramUser
  pub text : Option Text
  pub photo : List TelegramPhotoSize
  pub document : Option TelegramDocument
  pub reply_to_message : Option ℤ

pub record TelegramCallbackQuery : Type 0 where
  pub id : Text
  pub from : TelegramUser
  pub callback_data : Option Text
  pub message : Option TelegramMessage

pub record TelegramUpdate : Type 0 where
  pub update_id : ℤ
  pub message : Option TelegramMessage
  pub callback_query : Option TelegramCallbackQuery

pub data TelegramRejectionReason : Type 0 where
  unsupported_conversation_mode missing_actor unsupported_actor : TelegramRejectionReason
  unauthorized_actor unauthorized_conversation invalid_occurred_at : TelegramRejectionReason

pub record TelegramRejectedIngress : Type 0 where
  pub external_event_id : Text
  pub reason : TelegramRejectionReason
  pub detail : Text

pub data TelegramIgnoreReason : Type 0 where
  unsupported_update_shape : TelegramIgnoreReason

pub record TelegramIgnoredUpdate : Type 0 where
  pub external_event_id : Text
  pub reason : TelegramIgnoreReason

pub data TelegramNormalizationOutcome : Type 0 where
  accepted : NormalizedIngress → TelegramNormalizationOutcome
  rejected : TelegramRejectedIngress → TelegramNormalizationOutcome
  ignored : TelegramIgnoredUpdate → TelegramNormalizationOutcome
