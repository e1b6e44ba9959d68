-- ===== src/Foreground/Bindings.antt =====
-- The table of conversation bindings of crates/harness/src/foreground.rs: which ingress has a
-- binding and how it is reconciled with the rows that are there. The primary key, the two UNIQUE
-- constraints and the foreign key of the ingress events are tests of the statements. The whole
-- runs in a transaction, so an error leaves the store as it was.
pub mod Keys
pub mod Rewrite
pub mod Reconciled
use blue_lagoon.Base.{
  Bool, true, false, not, ◌&&◌, ◌||◌, Option, none, some, List, [], ◌∷◌, map, Text, ℤ, ◌==◌,
  if◌then◌else◌, any, find, text_eq, int_to_text, Result, ok, err,
}
use blue_lagoon.Base.State.{Action, lift, ◌>>=◌, ◌>>◌}
use blue_lagoon.Contracts.Action.{Uuid}
use blue_lagoon.Contracts.Ingress.{ChannelKind, telegram, NormalizedIngress}
use blue_lagoon.Config.{ResolvedTelegramConfig, TelegramForegroundBindingConfig}

pub record NewConversationBinding : Type 0 where
  pub conversation_binding_id : Uuid
  pub channel_kind : ChannelKind
  pub external_user_id : Text
  pub external_conversation_id : Text
  pub internal_principal_ref : Text
  pub internal_conversation_ref : Text

-- A row of the table has the fields of the binding that wrote it.
abbrev pub ConversationBindingRecord : Type 0
ConversationBindingRecord = NewConversationBinding

pub data ConversationBindingAction : Type 0 where
  created updated rebound merged : ConversationBindingAction

pub record ConversationBindingWriteResult : Type 0 where
  pub record_ : ConversationBindingRecord
  pub action : ConversationBindingAction

-- Of a row of `ingress_events`, its reference to a binding.
pub record EventBinding : Type 0 where
  pub ingress_id : Uuid
  pub conversation_binding_id : Option Uuid

pub record BindingStore : Type 0 where
  pub bindings : List ConversationBindingRecord
  pub events : List EventBinding

pub data BindingError : Type 0 where
  unique_violation foreign_key_violation row_missing : BindingError

abbrev pub BindingStep : Type 0 → Type 0
BindingStep A = Action BindingStore BindingError A

-- With one channel the kinds of two rows are equal.
abbrev pub same_external : NewConversationBinding → ConversationBindingRecord → Bool
same_external binding row =
    text_eq row.external_user_id binding.external_user_id
    && text_eq row.external_conversation_id binding.external_conversation_id

abbrev pub same_internal : NewConversationBinding → ConversationBindingRecord → Bool
same_internal binding row = text_eq row.internal_conversation_ref binding.internal_conversation_ref

abbrev pub has_id : Uuid → ConversationBindingRecord → Bool
has_id id row = row.conversation_binding_id == id

unfoldable pub find_by_external_tuple :
    NewConversationBinding → List ConversationBindingRecord → Option ConversationBindingRecord
unfolding find text_eq
find_by_external_tuple binding rows = find (same_external binding) rows

unfoldable pub find_by_internal_ref :
    NewConversationBinding → List ConversationBindingRecord → Option ConversationBindingRecord
unfolding find text_eq
find_by_internal_ref binding rows = find (same_internal binding) rows

unfoldable pub insert_conversation_binding :
    NewConversationBinding → BindingStep ConversationBindingRecord
unfolding any text_eq
insert_conversation_binding binding s =
    if any
      (λ row.
        has_id binding.conversation_binding_id row
        || (same_external binding row || same_internal binding row))
      s.bindings
    then (err unique_violation, s)
    else (ok binding, record s { bindings = binding ∷ s.bindings })

-- The row keeps its id.
abbrev pub rewritten : Uuid → NewConversationBinding → ConversationBindingRecord
rewritten id binding = record binding { conversation_binding_id = id }

abbrev pub rewrite_row :
    Uuid → NewConversationBinding → ConversationBindingRecord → ConversationBindingRecord
rewrite_row id binding row = if has_id id row then rewritten id binding else row

-- Another row has the external tuple or the internal reference.
abbrev pub taken_by_other : Uuid → NewConversationBinding → ConversationBindingRecord → Bool
taken_by_other id binding row =
    not (has_id id row) && (same_external binding row || same_internal binding row)

unfoldable pub update_conversation_binding :
    Uuid → NewConversationBinding → BindingStep ConversationBindingRecord
unfolding any text_eq
update_conversation_binding id binding s =
    if any (taken_by_other id binding) s.bindings
    then (err unique_violation, s)
    else if any (has_id id) s.bindings
    then (
      ok (rewritten id binding),
      record s { bindings = map (rewrite_row id binding) s.bindings },
    )
    else (err row_missing, s)

abbrev pub refers_to : Uuid → EventBinding → Bool
refers_to id event = elim event.conversation_binding_id [ none ↦ false | some b ↦ b == id ]

-- The rows without the one that has the id.
unfoldable pub without : Uuid → List ConversationBindingRecord → List ConversationBindingRecord
without id [] = []
without id (row ∷ rows) = let rest = without id rows in if has_id id row then rest else row ∷ rest

unfoldable pub delete_conversation_binding : Uuid → BindingStep (Unit {0})
unfolding any without
delete_conversation_binding id s =
    if any (refers_to id) s.events
    then (err foreign_key_violation, s)
    else (ok tt, record s { bindings = without id s.bindings })

abbrev pub reassigned : (from to : Uuid) → EventBinding → EventBinding
reassigned from to event =
    if refers_to from event then record event { conversation_binding_id = some to } else event

unfoldable pub reassign_ingress_event_bindings : (from to : Uuid) → BindingStep (Unit {0})
reassign_ingress_event_bindings from to s =
    (ok tt, record s { events = map (reassigned from to) s.events })

abbrev pub written :
    ConversationBindingAction
    → BindingStep ConversationBindingRecord
    → BindingStep ConversationBindingWriteResult
written action step = do row ← step; lift (ok (record { record_ = row; action = action }))

-- The `match` on the two rows that were found.
unfoldable pub reconcile_found :
    NewConversationBinding
    → (external internal : Option ConversationBindingRecord)
    → BindingStep ConversationBindingWriteResult
unfolding insert_conversation_binding update_conversation_binding reassign_ingress_event_bindings
    delete_conversation_binding
reconcile_found binding none none = written created (insert_conversation_binding binding)
reconcile_found binding none (some internal) =
    written rebound (update_conversation_binding internal.conversation_binding_id binding)
reconcile_found binding (some external) none =
    written updated (update_conversation_binding external.conversation_binding_id binding)
reconcile_found binding (some external) (some internal) =
    if external.conversation_binding_id == internal.conversation_binding_id
    then written updated (update_conversation_binding internal.conversation_binding_id binding)
    else (do
      reassign_ingress_event_bindings external.conversation_binding_id
          internal.conversation_binding_id
      delete_conversation_binding external.conversation_binding_id
      written merged (update_conversation_binding internal.conversation_binding_id binding))

abbrev pub rolled_back :
    BindingStore
    → Result BindingError ConversationBindingWriteResult × BindingStore
    → Result BindingError ConversationBindingWriteResult × BindingStore
rolled_back before (ok result, after) = (ok result, after)
rolled_back before (err e, after) = (err e, before)

unfoldable pub reconcile_conversation_binding :
    NewConversationBinding → BindingStep ConversationBindingWriteResult
unfolding find_by_external_tuple find_by_internal_ref reconcile_found
reconcile_conversation_binding binding s = rolled_back s (
    reconcile_found binding (find_by_external_tuple binding s.bindings)
      (find_by_internal_ref binding s.bindings) s)

-- The binding of an ingress that comes from the configured user, in the configured chat, and
-- carries the configured references; `id` is what `Uuid::now_v7` draws.
unfoldable pub matching_conversation_binding_from_parts :
    (id : Uuid) (allowed_user_id allowed_chat_id : ℤ)
    (internal_principal_ref internal_conversation_ref : Text)
    → NormalizedIngress
    → Option NewConversationBinding
unfolding text_eq int_to_text
matching_conversation_binding_from_parts id user chat principal conversation ingress =
    if not (text_eq ingress.external_user_id (int_to_text user))
    then none
    else if not (text_eq ingress.external_conversation_id (int_to_text chat))
    then none
    else if not (text_eq ingress.internal_principal_ref principal)
    then none
    else if not (text_eq ingress.internal_conversation_ref conversation)
    then none
    else some (record {
      conversation_binding_id = id;
      channel_kind = telegram;
      external_user_id = ingress.external_user_id;
      external_conversation_id = ingress.external_conversation_id;
      internal_principal_ref = ingress.internal_principal_ref;
      internal_conversation_ref = ingress.internal_conversation_ref;
    })

unfoldable pub matching_conversation_binding :
    (id : Uuid) → ResolvedTelegramConfig → NormalizedIngress → Option NewConversationBinding
unfolding matching_conversation_binding_from_parts
matching_conversation_binding id config ingress =
    matching_conversation_binding_from_parts id config.allowed_user_id config.allowed_chat_id
      config.internal_principal_ref config.internal_conversation_ref ingress

unfoldable pub matching_conversation_binding_for_binding_config :
    (id : Uuid)
    → TelegramForegroundBindingConfig
    → NormalizedIngress
    → Option NewConversationBinding
unfolding matching_conversation_binding_from_parts
matching_conversation_binding_for_binding_config id config ingress =
    matching_conversation_binding_from_parts id config.allowed_user_id config.allowed_chat_id
      config.internal_principal_ref config.internal_conversation_ref ingress

abbrev pub reconcile_some :
    Option NewConversationBinding → BindingStep (Option ConversationBindingWriteResult)
reconcile_some none = lift (ok none)
reconcile_some (some binding) = do
  result ← reconcile_conversation_binding binding
  lift (ok (some result))

unfoldable pub maybe_upsert_matching_conversation_binding :
    (id : Uuid)
    → ResolvedTelegramConfig
    → NormalizedIngress
    → BindingStep (Option ConversationBindingWriteResult)
unfolding matching_conversation_binding reconcile_conversation_binding
maybe_upsert_matching_conversation_binding id config ingress =
    reconcile_some (matching_conversation_binding id config ingress)
