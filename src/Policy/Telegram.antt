-- ===== src/Policy/Telegram.antt =====
-- What `evaluate_telegram_foreground_trigger` lets through.
use blue_lagoon.Base.{
  ◌≡◌, ◌↔◌, refl, if◌then◌else◌, Bool, true, false, Option, none, some, Text, text_eq_iff,
  int_to_text, is_blank, is_some, arith,
}
use blue_lagoon.Contracts.Ingress.{
  IngressEventKind, message_created, command_issued, approval_callback, NormalizedIngress,
}
use blue_lagoon.Config.{ResolvedTelegramConfig}
use blue_lagoon.Policy.{
  DenialReason, allowed, denied, has_text, evaluate_event_kind,
  evaluate_telegram_foreground_trigger,
}

-- The ingress carries the identities that the configuration names.
pub record IsBound (config : ResolvedTelegramConfig) (ingress : NormalizedIngress) : Type 0 where
  pub user : ingress.external_user_id ≡ int_to_text config.allowed_user_id
  pub conversation : ingress.external_conversation_id ≡ int_to_text config.allowed_chat_id
  pub principal : ingress.internal_principal_ref ≡ config.internal_principal_ref
  pub internal_conversation : ingress.internal_conversation_ref ≡ config.internal_conversation_ref

-- What the event must carry: the approval payload, or a text with more than white space.
abbrev pub CarriesContent : IngressEventKind → NormalizedIngress → Type 0
CarriesContent approval_callback ingress = is_some ingress.approval_payload ≡ true
CarriesContent message_created ingress =
    (text : Text) × (ingress.text_body ≡ some text) × (is_blank text ≡ false)
CarriesContent command_issued ingress =
    (text : Text) × (ingress.text_body ≡ some text) × (is_blank text ≡ false)

has_text_iff :
    (body : Option Text)
    → (has_text body ≡ true) ↔ ((text : Text) × (body ≡ some text) × (is_blank text ≡ false))
has_text_iff none = (λ h. cc, λ (text, e, b). cc)
has_text_iff (some text) = (λ h. (text, refl, ground arith), λ (t, e, b). ground arith)

if_allowed :
    (test : Bool) (reason : DenialReason)
    → ((if test then allowed else denied reason) ≡ allowed) ↔ (test ≡ true)
if_allowed test reason = ground arith

iff_trans : {A B C : Type 0} → A ↔ B → B ↔ C → A ↔ C
iff_trans f g = (λ a. g.0 (f.0 a), λ c. f.1 (g.1 c))

evaluate_event_kind-allowed :
    (kind : IngressEventKind) (ingress : NormalizedIngress)
    → (evaluate_event_kind kind ingress ≡ allowed) ↔ CarriesContent kind ingress
unfolding evaluate_event_kind
evaluate_event_kind-allowed approval_callback ingress = if_allowed _ _
evaluate_event_kind-allowed message_created ingress =
    iff_trans (if_allowed _ _) (has_text_iff ingress.text_body)
evaluate_event_kind-allowed command_issued ingress =
    iff_trans (if_allowed _ _) (has_text_iff ingress.text_body)

-- A trigger is allowed exactly when the ingress carries the four configured identities and its
-- event carries an approval payload (callbacks) or a text that is not blank (messages, commands).
pub evaluate_telegram_foreground_trigger-allowed :
    (config : ResolvedTelegramConfig) (ingress : NormalizedIngress)
    → (evaluate_telegram_foreground_trigger config ingress ≡ allowed)
      ↔ (IsBound config ingress × CarriesContent ingress.event_kind ingress)
unfolding evaluate_telegram_foreground_trigger
evaluate_telegram_foreground_trigger-allowed config ingress =
    let content = evaluate_event_kind-allowed ingress.event_kind ingress in
    let user = text_eq_iff ingress.external_user_id (int_to_text config.allowed_user_id) in
    let chat = text_eq_iff ingress.external_conversation_id (int_to_text config.allowed_chat_id) in
    let principal = text_eq_iff ingress.internal_principal_ref config.internal_principal_ref in
    let internal = text_eq_iff ingress.internal_conversation_ref config.internal_conversation_ref in
    (
      λ h. (
        ground (arith, user, chat, principal, internal),
        content.0 (ground (arith, user, chat, principal, internal)),
      ),
      λ (b, c). let e = content.1 c in ground (arith, b, user, chat, principal, internal),
    )
