-- ===== src/Telegram/Callback.antt =====
-- `parse_approval_resolution_ingress` of crates/harness/src/foreground_orchestration.rs: the answer
-- to an approval that a Telegram event carries, by a button or by a command.
pub mod RoundTrip
use blue_lagoon.Base.{
  Bool, true, false, not, ◌||◌, Option, none, some, List, [], ◌∷◌, ◌++◌, Text, codes, if◌then◌else◌,
  is_empty, trim, text_eq, split_once, Result, ok, err, bail_if, ◌>>=◌, ◌>>◌,
}
use blue_lagoon.Contracts.Action.{ApprovalResolutionDecision, GovernedActionFingerprint}
use blue_lagoon.Contracts.Ingress.{
  IngressEventKind, approval_callback, CommandHint, ApprovalPayload, NormalizedIngress,
}

pub record ParsedApprovalResolutionIngress : Type 0 where
  pub approval_token : Text
  pub decision : ApprovalResolutionDecision
  pub expected_action_fingerprint : Option GovernedActionFingerprint
  pub resolution_source : Text

pub data CallbackError : Type 0 where
  payload_missing callback_data_missing callback_data_malformed : CallbackError
  decision_unsupported argument_count token_empty : CallbackError

unfoldable pub parse_approval_callback_decision :
    Text → Result CallbackError ApprovalResolutionDecision
unfolding trim text_eq
parse_approval_callback_decision decision =
    let word = trim decision in
    if text_eq word (codes "approve") || text_eq word (codes "approved")
    then ok ApprovalResolutionDecision.approved
    else if text_eq word (codes "reject") || text_eq word (codes "rejected")
    then ok ApprovalResolutionDecision.rejected
    else err decision_unsupported

-- The token and the fingerprint of `decision|token|fingerprint`, with the decision.
abbrev pub split_remainder : Option (Text × Text) → Option (Text × Text × Text)
split_remainder none = none
split_remainder (some (decision, remainder)) = elim (split_once b'|' remainder) [
  | none ↦ none
  | some (token, fingerprint) ↦ some (decision, token, fingerprint)
]

abbrev pub callback_source : ApprovalPayload → Text
callback_source payload = codes "telegram callback " ++ payload.token

abbrev pub parse_short_callback :
    ApprovalPayload → Option (Text × Text) → Result CallbackError ParsedApprovalResolutionIngress
parse_short_callback payload none = err callback_data_malformed
parse_short_callback payload (some (decision, token)) = do
  parsed ← parse_approval_callback_decision decision
  ok (record {
    approval_token = trim token;
    decision = parsed;
    expected_action_fingerprint = none;
    resolution_source = callback_source payload;
  })

abbrev pub parse_callback_parts :
    ApprovalPayload
    → (data_ : Text) → Option (Text × Text × Text)
    → Result CallbackError ParsedApprovalResolutionIngress
parse_callback_parts payload data_ none = parse_short_callback payload (split_once b':' data_)
parse_callback_parts payload data_ (some (decision, token, fingerprint)) = do
  parsed ← parse_approval_callback_decision decision
  ok (record {
    approval_token = trim token;
    decision = parsed;
    expected_action_fingerprint = some (record { value = trim fingerprint });
    resolution_source = callback_source payload;
  })

unfoldable pub parse_callback_data :
    ApprovalPayload → (data_ : Text) → Result CallbackError ParsedApprovalResolutionIngress
unfolding split_once parse_approval_callback_decision trim
parse_callback_data payload data_ =
    parse_callback_parts payload data_ (split_remainder (split_once b'|' data_))

abbrev pub parse_payload :
    Option ApprovalPayload → Result CallbackError ParsedApprovalResolutionIngress
parse_payload none = err payload_missing
parse_payload (some payload) = elim payload.callback_data [
  | none ↦ err callback_data_missing
  | some data_ ↦ parse_callback_data payload data_
]

unfoldable pub parse_approval_callback_ingress :
    NormalizedIngress → Result CallbackError ParsedApprovalResolutionIngress
unfolding parse_callback_data
parse_approval_callback_ingress ingress = parse_payload ingress.approval_payload

abbrev pub is_approval_callback : IngressEventKind → Bool
is_approval_callback approval_callback = true
is_approval_callback _ = false

abbrev pub as_some :
    Result CallbackError ParsedApprovalResolutionIngress
    → Result CallbackError (Option ParsedApprovalResolutionIngress)
as_some (err e) = err e
as_some (ok parsed) = ok (some parsed)

abbrev pub parse_command_arguments :
    (command : Text) → List Text → Result CallbackError (Option ParsedApprovalResolutionIngress)
parse_command_arguments command (argument ∷ []) = do
  bail_if (is_empty (trim argument)) token_empty
  decision ← parse_approval_callback_decision command
  ok (
      some (record {
        approval_token = trim argument;
        decision = decision;
        expected_action_fingerprint = none;
        resolution_source = codes "telegram command /" ++ command ++ codes " " ++ trim argument;
      }))
parse_command_arguments command _ = err argument_count

abbrev pub parse_command :
    Option CommandHint → Result CallbackError (Option ParsedApprovalResolutionIngress)
parse_command none = ok none
parse_command (some hint) =
    if not (text_eq hint.command (codes "approve") || text_eq hint.command (codes "reject"))
    then ok none
    else parse_command_arguments hint.command hint.args

unfoldable pub parse_approval_resolution_ingress :
    NormalizedIngress → Result CallbackError (Option ParsedApprovalResolutionIngress)
unfolding parse_approval_callback_ingress parse_approval_callback_decision trim text_eq
parse_approval_resolution_ingress ingress =
    if is_approval_callback ingress.event_kind
    then as_some (parse_approval_callback_ingress ingress)
    else parse_command ingress.command_hint
