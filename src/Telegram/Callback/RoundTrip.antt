-- ===== src/Telegram/Callback/RoundTrip.antt =====
-- A button of an approval prompt comes back as the answer that it stands for.
use blue_lagoon.Base.{
  ℤ, ◌≡◌, ◌≤◌, ◌<◌, refl, inl, inr, true, false, Option, none, some, [], ◌∷◌, Text, codes, trim,
  any, ◌==◌, split_once, Bool-cases, Result, ok, err, arith,
}
use blue_lagoon.Contracts.Action.{Instant, ApprovalResolutionDecision}
use blue_lagoon.Contracts.Ingress.{ApprovalPayload}
use blue_lagoon.Config.{ApprovalPromptMode, inline_keyboard, inline_keyboard_with_fallback}
use blue_lagoon.Telegram.Prompt.{
  byte_length, callbacks_fit, approve_callback, reject_callback, TelegramApprovalPrompt,
  TelegramInlineKeyboardButton, TelegramReplyMarkup, TelegramOutboundMessage, PromptError,
  build_approval_prompt_message,
}
use blue_lagoon.Telegram.Callback.{
  ParsedApprovalResolutionIngress, callback_source, parse_callback_data,
  parse_approval_callback_decision,
}

-- The answer that a button with the decision stands for.
abbrev pub answer_of :
    ApprovalPayload → (token : Text) → ApprovalResolutionDecision → ParsedApprovalResolutionIngress
answer_of payload token decision = record {
  approval_token = token;
  decision = decision;
  expected_action_fingerprint = none;
  resolution_source = callback_source payload;
}

-- The data of the button fit in what Telegram allows and parse back to the answer.
abbrev pub Answers :
    ApprovalPayload
    → (token : Text) → ApprovalResolutionDecision
    → TelegramInlineKeyboardButton
    → Type 0
Answers payload token decision button =
    (byte_length button.callback_data ≤ 64)
    × (parse_callback_data payload button.callback_data ≡ ok (answer_of payload token decision))

abbrev pub HasButtons :
    ApprovalPayload → ApprovalPromptMode → (token : Text) → Option TelegramReplyMarkup → Type 0
HasButtons payload mode token none =
    (mode ≡ inline_keyboard_with_fallback) × (56 < byte_length token)
HasButtons payload mode token (some markup) =
    (approve : TelegramInlineKeyboardButton) × (reject : TelegramInlineKeyboardButton) × (markup
      ≡ (approve ∷ reject ∷ []) ∷ [])
    × Answers payload token ApprovalResolutionDecision.approved approve
    × Answers payload token ApprovalResolutionDecision.rejected reject

-- A prompt has both buttons, or none because its token is too long for them.
abbrev pub Prompted :
    ApprovalPayload
    → ApprovalPromptMode
    → (token : Text) → Result PromptError TelegramOutboundMessage
    → Type 0
Prompted payload mode token (err e) = (mode ≡ inline_keyboard) × (56 < byte_length token)
Prompted payload mode token (ok message) = HasButtons payload mode token message.reply_markup

no_bar : (s : Text) → any (λ c. c == b'|') s ≡ false → split_once b'|' s ≡ none
unfolding any split_once
no_bar [] h = refl
no_bar (c ∷ s) h = let rest = no_bar s in ground (arith, rest)

module _ (payload : ApprovalPayload) (token : Text) (bare : any (λ c. c == b'|') token ≡ false)
    (trimmed : trim token ≡ token) where
  approve-Answers :
      callbacks_fit token ≡ true
      → Answers payload token ApprovalResolutionDecision.approved
          (record { text = codes "Approve"; callback_data = approve_callback token })
  unfolding parse_callback_data any split_once parse_approval_callback_decision byte_length
  approve-Answers fits =
      let bar = no_bar token bare in (ground (arith, fits), rw (bar, trimmed) refl)

  reject-Answers :
      callbacks_fit token ≡ true
      → Answers payload token ApprovalResolutionDecision.rejected
          (record { text = codes "Reject"; callback_data = reject_callback token })
  unfolding parse_callback_data any split_once parse_approval_callback_decision byte_length
  reject-Answers fits =
      let bar = no_bar token bare in (ground (arith, fits), rw (bar, trimmed) refl)

too_long : (token : Text) → callbacks_fit token ≡ false → 56 < byte_length token
unfolding byte_length
too_long token h = ground (arith, h)

-- The approval prompt for a token without `|` and without blanks around it has two buttons, whose
-- data fit in the 64 bytes that Telegram allows and parse back to an approval and to a rejection
-- with just that token; or the token has more than 56 bytes, and then the message has no keyboard
-- where the mode has a fallback, and is refused where it has none.
pub callback_round_trip :
    (to_rfc3339 : Instant → Text) (payload : ApprovalPayload) (mode : ApprovalPromptMode)
    (chat_id : ℤ) (reply_to : Option ℤ) (prompt : TelegramApprovalPrompt)
    → any (λ c. c == b'|') prompt.token ≡ false
    → trim prompt.token ≡ prompt.token
    → Prompted payload mode prompt.token
        (build_approval_prompt_message to_rfc3339 mode chat_id reply_to prompt)
unfolding build_approval_prompt_message
callback_round_trip to_rfc3339 payload inline_keyboard chat_id reply_to prompt bare trimmed =
    elim (Bool-cases (callbacks_fit prompt.token)) [
      | inl e ↦
          rw (e, Prompted)
            (
              _,
              _,
              refl,
              approve-Answers payload prompt.token bare trimmed e,
              reject-Answers payload prompt.token bare trimmed e,
            )
      | inr e ↦ rw (e, Prompted) (refl, too_long prompt.token e)
    ]
callback_round_trip to_rfc3339 payload inline_keyboard_with_fallback chat_id reply_to prompt bare
      trimmed =
    elim (Bool-cases (callbacks_fit prompt.token)) [
      | inl e ↦
          rw (e, Prompted)
            (
              _,
              _,
              refl,
              approve-Answers payload prompt.token bare trimmed e,
              reject-Answers payload prompt.token bare trimmed e,
            )
      | inr e ↦ rw (e, Prompted) (refl, too_long prompt.token e)
    ]
