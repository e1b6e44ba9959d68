-- ===== src/Foreground/Bindings/Reconciled.antt =====
-- Reconciling a binding succeeds on every well-formed table and leaves one row for it.
use blue_lagoon.Base.{
  ◌≡◌, refl, ◌∙◌, subst, inl, inr, true, false, not, ◌&&◌, ◌||◌, Option, none, some, List, [], ◌∷◌,
  map, All, any, find, ◌==◌, ==_iff, Bool-cases, Option-cases, text_eq_refl, ok, arith,
}
use blue_lagoon.Contracts.Action.{Uuid}
use blue_lagoon.Foreground.Bindings.{
  NewConversationBinding, ConversationBindingRecord, ConversationBindingAction,
  ConversationBindingWriteResult, BindingStore, created, updated, rebound, merged, same_external,
  same_internal, has_id, find_by_external_tuple, find_by_internal_ref, insert_conversation_binding,
  rewritten, rewrite_row, written, update_conversation_binding, without,
  delete_conversation_binding, reassigned, reassign_ingress_event_bindings, reconcile_found,
  reconcile_conversation_binding,
}
use blue_lagoon.Foreground.Bindings.Keys.{
  Apart, Distinct, find_nothing, any_and, any_either, any-without, none_left, still_there,
  without-Distinct, only_match, found_id,
}
use blue_lagoon.Foreground.Bindings.Rewrite.{
  Settled, external_excludes, internal_excludes, update_lem, update-Settled, no_reference_left,
}

module _ (b : NewConversationBinding) where
  -- What reconciling answers on a well-formed table.
  abbrev pub Success : BindingStore → Type 0
  Success s =
      (result : ConversationBindingWriteResult) × (after : BindingStore)
      × (reconcile_conversation_binding b s ≡ (ok result, after))
      × Settled b result.record_ after.bindings

  settle :
      (s after : BindingStore) (external internal : Option ConversationBindingRecord)
      (result : ConversationBindingWriteResult)
      → find_by_external_tuple b s.bindings ≡ external
      → find_by_internal_ref b s.bindings ≡ internal
      → reconcile_found b external internal s ≡ (ok result, after)
      → Settled b result.record_ after.bindings
      → Success s
  unfolding reconcile_conversation_binding
  settle s after external internal result e i h settled =
      (result, after, rw (e, i, h) refl, settled)

  fresh-Apart :
      (rows : List ConversationBindingRecord)
      → any (has_id b.conversation_binding_id) rows ≡ false
      → any (same_external b) rows ≡ false
      → any (same_internal b) rows ≡ false
      → All (Apart b) rows
  unfolding any
  fresh-Apart [] i e n = tt
  fresh-Apart (row ∷ rows) i e n =
      let rest = fresh-Apart rows in (ground (arith, i, e, n), ground (arith, i, e, n, rest))

  no_conflict :
      (rows : List ConversationBindingRecord)
      → any (has_id b.conversation_binding_id) rows ≡ false
      → any (same_external b) rows ≡ false
      → any (same_internal b) rows ≡ false
      → any
          (λ row.
            has_id b.conversation_binding_id row || (same_external b row || same_internal b row))
          rows
        ≡ false
  unfolding any
  no_conflict [] i e n = refl
  no_conflict (row ∷ rows) i e n = let rest = no_conflict rows in ground (arith, i, e, n, rest)

  create_case :
      (s : BindingStore)
      → Distinct s.bindings
      → any (has_id b.conversation_binding_id) s.bindings ≡ false
      → find_by_external_tuple b s.bindings ≡ none
      → find_by_internal_ref b s.bindings ≡ none
      → Success s
  unfolding find_by_external_tuple find_by_internal_ref find reconcile_found
      insert_conversation_binding
  create_case s d fresh e i =
      let no_external = find_nothing (same_external b) (same_external b) s.bindings e in
      let no_internal = find_nothing (same_internal b) (same_internal b) s.bindings i in
      let user = text_eq_refl b.external_user_id in
      let chat = text_eq_refl b.external_conversation_id in
      let ref = text_eq_refl b.internal_conversation_ref in
      settle s (record s { bindings = b ∷ s.bindings }) none none
        (record { record_ = b; action = created }) e i
        (rw (no_conflict s.bindings fresh no_external no_internal) refl)
        (
          (fresh-Apart s.bindings fresh no_external no_internal, d),
          rw (user, chat) refl,
          rw ref refl,
          refl,
        )

  -- The three cases that rewrite a row without deleting one.
  rewrite_case :
      (s : BindingStore) (id : Uuid) (action : ConversationBindingAction)
      (external internal : Option ConversationBindingRecord)
      → Distinct s.bindings
      → find_by_external_tuple b s.bindings ≡ external
      → find_by_internal_ref b s.bindings ≡ internal
      → any (has_id id) s.bindings ≡ true
      → any (λ row. not (has_id id row) && same_external b row) s.bindings ≡ false
      → any (λ row. not (has_id id row) && same_internal b row) s.bindings ≡ false
      → reconcile_found b external internal s ≡ written action (update_conversation_binding id b) s
      → Success s
  rewrite_case s id action external internal d e i there no_external no_internal h =
      let free =
        any_either (λ r. not (has_id id r)) (same_external b) (same_internal b) s.bindings
          no_external no_internal in
      settle s (record s { bindings = map (rewrite_row id b) s.bindings }) external internal
        (record { record_ = rewritten id b; action = action }) e i
        (h ∙ rw (update_lem b id s free there) refl)
        (update-Settled b id s.bindings d there no_external no_internal)

  merge_case :
      (s : BindingStore) (external internal : ConversationBindingRecord)
      → Distinct s.bindings
      → find_by_external_tuple b s.bindings ≡ some external
      → find_by_internal_ref b s.bindings ≡ some internal
      → (external.conversation_binding_id == internal.conversation_binding_id) ≡ false
      → Success s
  unfolding find_by_external_tuple find_by_internal_ref reconcile_found
      reassign_ingress_event_bindings delete_conversation_binding
  merge_case s external internal d e i apart =
      let gone = external.conversation_binding_id in
      let id = internal.conversation_binding_id in
      let rows = without gone s.bindings in
      let swapped : (id == gone) ≡ false = ground (arith, apart) in
      let events = map (reassigned gone id) s.events in
      let no_external =
        none_left gone (same_external b) s.bindings
          (only_match (same_external b) (external_excludes b) s.bindings external d e) in
      let no_internal =
        any-without gone (λ r. not (has_id id r) && same_internal b r) s.bindings
          (only_match (same_internal b) (internal_excludes b) s.bindings internal d i) in
      let there =
        still_there gone id s.bindings apart
          (found_id (same_internal b) (internal_excludes b) s.bindings internal i) in
      let no_external_ = any_and (λ r. not (has_id id r)) (same_external b) rows no_external in
      let free =
        any_either (λ r. not (has_id id r)) (same_external b) (same_internal b) rows no_external_
          no_internal in
      let kept : BindingStore = record { bindings = rows; events = events } in
      settle s (record kept { bindings = map (rewrite_row id b) rows }) (some external)
        (some internal) (record { record_ = rewritten id b; action = merged }) e i
        (rw (apart, no_reference_left gone id s.events swapped, update_lem b id kept free there)
          refl)
        (update-Settled b id rows (without-Distinct gone s.bindings d) there no_external_
          no_internal)

  -- On a table whose ids, external tuples and internal references are unique, and that does not
  -- have the new id, reconciling a binding succeeds: no UNIQUE constraint and no foreign key stops
  -- it. Afterwards the keys are unique again, and the row that is returned, with every field of the
  -- binding but perhaps its id, is the one that the external tuple and the internal reference find.
  pub reconcile_total :
      (s : BindingStore)
      → Distinct s.bindings
      → any (has_id b.conversation_binding_id) s.bindings ≡ false
      → Success s
  unfolding find_by_external_tuple find_by_internal_ref reconcile_found
  reconcile_total s d fresh = elim (Option-cases (find_by_external_tuple b s.bindings)) [
    | inl e ↦ elim (Option-cases (find_by_internal_ref b s.bindings)) [
      | inl i ↦ create_case s d fresh e i
      | inr (internal, i) ↦
          rewrite_case s internal.conversation_binding_id rebound none (some internal) d e i
            (found_id (same_internal b) (internal_excludes b) s.bindings internal i)
            (any_and (λ r. not (has_id internal.conversation_binding_id r)) (same_external b)
              s.bindings (find_nothing (same_external b) (same_external b) s.bindings e))
            (only_match (same_internal b) (internal_excludes b) s.bindings internal d i) refl
    ]
    | inr (external, e) ↦ elim (Option-cases (find_by_internal_ref b s.bindings)) [
      | inl i ↦
          rewrite_case s external.conversation_binding_id updated (some external) none d e i
            (found_id (same_external b) (external_excludes b) s.bindings external e)
            (only_match (same_external b) (external_excludes b) s.bindings external d e)
            (any_and (λ r. not (has_id external.conversation_binding_id r)) (same_internal b)
              s.bindings (find_nothing (same_internal b) (same_internal b) s.bindings i))
            refl
      | inr (internal, i) ↦
          elim (Bool-cases (external.conversation_binding_id == internal.conversation_binding_id)) [
            | inr apart ↦ merge_case s external internal d e i apart
            | inl one ↦
                rewrite_case s internal.conversation_binding_id updated (some external)
                  (some internal) d e i
                  (found_id (same_internal b) (internal_excludes b) s.bindings internal i)
                  (subst
                    (λ id. any (λ r. not (has_id id r) && same_external b r) s.bindings ≡ false)
                    ((==_iff external.conversation_binding_id internal.conversation_binding_id).0
                      one)
                    (only_match (same_external b) (external_excludes b) s.bindings external d e))
                  (only_match (same_internal b) (internal_excludes b) s.bindings internal d i)
                  (rw one refl)
          ]
    ]
  ]
