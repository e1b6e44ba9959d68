-- ===== src/Telegram/Prompt.antt =====
-- `build_approval_prompt_message` of crates/harness/src/telegram.rs. `to_rfc3339` is chrono's
-- printing of an instant.
use blue_lagoon.Base.{
  ℕ, ◌+◌, Bool, ◌&&◌, Option, none, some, List, [], ◌∷◌, ◌++◌, Text, ℤ, codes, leb, ltb,
  if◌then◌else◌, Result, ok, err,
}
use blue_lagoon.Contracts.Action.{Instant, GovernedActionRiskTier}
use blue_lagoon.Config.{ApprovalPromptMode, inline_keyboard, inline_keyboard_with_fallback}

abbrev pub telegram_max_callback_data_bytes : ℕ
telegram_max_callback_data_bytes = 64

pub record TelegramApprovalPrompt : Type 0 where
  pub token : Text
  pub title : Text
  pub consequence_summary : Text
  pub action_fingerprint : Text
  pub risk_tier : GovernedActionRiskTier
  pub expires_at : Instant

pub record TelegramInlineKeyboardButton : Type 0 where
  pub text : Text
  pub callback_data : Text

-- The rows of an inline keyboard.
abbrev pub TelegramReplyMarkup : Type 0
TelegramReplyMarkup = List (List TelegramInlineKeyboardButton)

pub record TelegramOutboundMessage : Type 0 where
  pub chat_id : ℤ
  pub text : Text
  pub reply_to_message_id : Option ℤ
  pub reply_markup : Option TelegramReplyMarkup

pub data PromptError : Type 0 where
  token_too_long : PromptError

-- The number of bytes of a code point in UTF-8.
abbrev pub utf8_width : ℕ → ℕ
utf8_width c = if ltb c 0x80 then 1 else if ltb c 0x800 then 2 else if ltb c 0x10000 then 3 else 4

-- `str::len`
unfoldable pub byte_length : Text → ℕ
byte_length [] = 0
byte_length (c ∷ s) = utf8_width c + byte_length s

unfoldable pub governed_action_risk_tier_label : GovernedActionRiskTier → Text
governed_action_risk_tier_label GovernedActionRiskTier.tier0 = codes "tier_0"
governed_action_risk_tier_label GovernedActionRiskTier.tier1 = codes "tier_1"
governed_action_risk_tier_label GovernedActionRiskTier.tier2 = codes "tier_2"
governed_action_risk_tier_label GovernedActionRiskTier.tier3 = codes "tier_3"

abbrev pub approve_callback : (token : Text) → Text
approve_callback token = codes "approve:" ++ token

abbrev pub reject_callback : (token : Text) → Text
reject_callback token = codes "reject:" ++ token

abbrev pub callbacks_fit : (token : Text) → Bool
callbacks_fit token =
    leb (byte_length (approve_callback token)) telegram_max_callback_data_bytes
    && leb (byte_length (reject_callback token)) telegram_max_callback_data_bytes

abbrev pub keyboard : (token : Text) → TelegramReplyMarkup
keyboard token =
    (record { text = codes "Approve"; callback_data = approve_callback token }
      ∷ record { text = codes "Reject"; callback_data = reject_callback token }
      ∷ [])
    ∷ []

abbrev pub fallback_line : ApprovalPromptMode → (token : Text) → Text
fallback_line inline_keyboard token = []
fallback_line inline_keyboard_with_fallback token =
    codes "\nFallback: send `/approve "
    ++ token
    ++ codes "` or `/reject "
    ++ token
    ++ codes "` if needed."

module _ (to_rfc3339 : Instant → Text) where
  abbrev pub prompt_text : ApprovalPromptMode → TelegramApprovalPrompt → Text
  prompt_text mode prompt =
      codes "Approval required\nAction: "
      ++ prompt.title
      ++ codes "\nRisk: "
      ++ governed_action_risk_tier_label prompt.risk_tier
      ++ codes "\nFingerprint: "
      ++ prompt.action_fingerprint
      ++ codes "\nExpires: "
      ++ to_rfc3339 prompt.expires_at
      ++ codes "\nImpact: "
      ++ prompt.consequence_summary
      ++ fallback_line mode prompt.token

  abbrev pub prompt_markup :
      ApprovalPromptMode → (token : Text) → Result PromptError (Option TelegramReplyMarkup)
  prompt_markup inline_keyboard token =
      if callbacks_fit token then ok (some (keyboard token)) else err token_too_long
  prompt_markup inline_keyboard_with_fallback token =
      if callbacks_fit token then ok (some (keyboard token)) else ok none

  unfoldable pub build_approval_prompt_message :
      ApprovalPromptMode
      → (chat_id : ℤ) → (reply_to_message_id : Option ℤ) → TelegramApprovalPrompt
      → Result PromptError TelegramOutboundMessage
  unfolding byte_length governed_action_risk_tier_label
  build_approval_prompt_message mode chat_id reply_to_message_id prompt =
      elim (prompt_markup mode prompt.token) [
        | err e ↦ err e
        | ok markup ↦ ok (record {
          chat_id = chat_id;
          text = prompt_text mode prompt;
          reply_to_message_id = reply_to_message_id;
          reply_markup = markup;
        })
      ]
