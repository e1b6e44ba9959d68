-- ===== src/Contracts/Ingress.antt =====
-- Normalized ingress and foreground budgets, of crates/contracts/src/lib.rs.
use blue_lagoon.Base.{ℕ, Option, List, Text}
use blue_lagoon.Contracts.Action.{Uuid, Instant}

pub data ChannelKind : Type 0 where
  telegram : ChannelKind

pub data IngressEventKind : Type 0 where
  message_created command_issued approval_callback : IngressEventKind

pub record ReplyReference : Type 0 where
  pub external_message_id : Text

pub record AttachmentReference : Type 0 where
  pub attachment_id : Text
  pub media_type : Option Text
  pub file_name : Option Text
  pub size_bytes : Option ℕ

pub record CommandHint : Type 0 where
  pub command : Text
  pub args : List Text

pub record ApprovalPayload : Type 0 where
  pub token : Text
  pub callback_data : Option Text

pub record NormalizedIngress : Type 0 where
  pub ingress_id : Uuid
  pub channel_kind : ChannelKind
  pub external_user_id : Text
  pub external_conversation_id : Text
  pub external_event_id : Text
  pub external_message_id : Option Text
  pub internal_principal_ref : Text
  pub internal_conversation_ref : Text
  pub event_kind : IngressEventKind
  pub occurred_at : Instant
  pub text_body : Option Text
  pub reply_to : Option ReplyReference
  pub attachments : List AttachmentReference
  pub command_hint : Option CommandHint
  pub approval_payload : Option ApprovalPayload
  pub raw_payload_ref : Option Text

pub record ForegroundBudget : Type 0 where
  pub iteration_budget : ℕ
  pub wall_clock_budget_ms : ℕ
  pub token_budget : ℕ

pub record BackgroundExecutionBudget : Type 0 where
  pub iteration_budget : ℕ
  pub wall_clock_budget_ms : ℕ
  pub token_budget : ℕ
