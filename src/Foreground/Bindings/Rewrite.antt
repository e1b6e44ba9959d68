-- ===== src/Foreground/Bindings/Rewrite.antt =====
-- What the UPDATE of `update_conversation_binding` leaves on a table whose keys are unique.
use blue_lagoon.Base.{
  ◌≡◌, refl, sym, subst, inl, inr, Bool, true, false, not, ◌&&◌, ◌||◌, some, List, [], ◌∷◌, map,
  All, any, find, ◌==◌, Bool-cases, text_eq, text_eq_iff, text_eq_refl, text_eq_sym, ok, arith,
}
use blue_lagoon.Contracts.Action.{Uuid}
use blue_lagoon.Foreground.Bindings.{
  NewConversationBinding, ConversationBindingRecord, EventBinding, BindingStore, same_external,
  same_internal, has_id, find_by_external_tuple, find_by_internal_ref, rewritten, rewrite_row,
  taken_by_other, update_conversation_binding, refers_to, reassigned,
}
use blue_lagoon.Foreground.Bindings.Keys.{Apart, Distinct, any_either}

pub no_reference_left :
    (from to : Uuid) (events : List EventBinding)
    → (to == from) ≡ false
    → any (refers_to from) (map (reassigned from to) events) ≡ false
unfolding any
no_reference_left from to [] d = refl
no_reference_left from to (event ∷ events) d =
    let rest = no_reference_left from to events d in ground (arith, rest, d)

module _ (b : NewConversationBinding) where
  pub external_excludes :
      (row other : ConversationBindingRecord)
      → same_external b row ≡ true
      → Apart row other
      → same_external b other ≡ false
  external_excludes row other h a =
      let user = (text_eq_iff row.external_user_id b.external_user_id).0 (ground (arith, h)) in
      let chat =
        (text_eq_iff row.external_conversation_id b.external_conversation_id).0
          (ground (arith, h)) in
      rw (sym user, sym chat) a.1

  pub internal_excludes :
      (row other : ConversationBindingRecord)
      → same_internal b row ≡ true
      → Apart row other
      → same_internal b other ≡ false
  internal_excludes row other h a =
      subst (λ ref. text_eq other.internal_conversation_ref ref ≡ false)
        ((text_eq_iff row.internal_conversation_ref b.internal_conversation_ref).0 h) a.2

  -- The rewritten row is found, and no other row is.
  found_after :
      (id : Uuid) (p : ConversationBindingRecord → Bool) (rows : List ConversationBindingRecord)
      → p (rewritten id b) ≡ true
      → any (has_id id) rows ≡ true
      → any (λ row. not (has_id id row) && p row) rows ≡ false
      → find p (map (rewrite_row id b) rows) ≡ some (rewritten id b)
  unfolding find any
  found_after id p [] h there others = cc
  found_after id p (row ∷ rows) h there others =
      let rest = found_after id p rows h in ground (arith, rest, h)

  rewrite-All :
      (id : Uuid) (row : ConversationBindingRecord) (rows : List ConversationBindingRecord)
      → (has_id id row ≡ false)
      → (same_external b row || same_internal b row) ≡ false
      → All (Apart row) rows
      → All (Apart row) (map (rewrite_row id b) rows)
  rewrite-All id row [] h free a = tt
  rewrite-All id row (other ∷ rows) h free a =
      let user = text_eq_sym row.external_user_id b.external_user_id in
      let chat = text_eq_sym row.external_conversation_id b.external_conversation_id in
      let ref = text_eq_sym row.internal_conversation_ref b.internal_conversation_ref in
      let rest = rewrite-All id row rows h free a.1 in
      (ground (arith, user, chat, ref, h, free), rest)

  others_untouched :
      (id : Uuid) (row : ConversationBindingRecord) (rows : List ConversationBindingRecord)
      → has_id id row ≡ true
      → any (taken_by_other id b) rows ≡ false
      → All (Apart row) rows
      → All (Apart (rewritten id b)) (map (rewrite_row id b) rows)
  unfolding any
  others_untouched id row [] h free a = tt
  others_untouched id row (other ∷ rows) h free a =
      let rest = others_untouched id row rows h (ground (arith, free)) a.1 in
      (ground (arith, h, free), rest)

  rewrite-Distinct :
      (id : Uuid) (rows : List ConversationBindingRecord)
      → any (taken_by_other id b) rows ≡ false
      → Distinct rows
      → Distinct (map (rewrite_row id b) rows)
  unfolding any
  rewrite-Distinct id [] free d = tt
  rewrite-Distinct id (row ∷ rows) free d = elim (Bool-cases (has_id id row)) [
    | inl h ↦ rw h (
      others_untouched id row rows h (ground (arith, free)) d.0,
      rewrite-Distinct id rows (ground (arith, free)) d.1,
    )
    | inr h ↦ rw h (
      rewrite-All id row rows h (ground (arith, free, h)) d.0,
      rewrite-Distinct id rows (ground (arith, free)) d.1,
    )
  ]

  -- One row has the external tuple and the internal reference of the binding, and it is `row`,
  -- which has every other field of the binding too.
  abbrev pub Settled : ConversationBindingRecord → List ConversationBindingRecord → Type 0
  Settled row rows =
      Distinct rows
      × (find_by_external_tuple b rows ≡ some row)
      × (find_by_internal_ref b rows ≡ some row)
      × (row ≡ rewritten row.conversation_binding_id b)

  pub update_lem :
      (id : Uuid) (s : BindingStore)
      → any (taken_by_other id b) s.bindings ≡ false
      → any (has_id id) s.bindings ≡ true
      → update_conversation_binding id b s
        ≡ (ok (rewritten id b), record s { bindings = map (rewrite_row id b) s.bindings })
  unfolding update_conversation_binding
  update_lem id s free there = rw (free, there) refl

  pub update-Settled :
      (id : Uuid) (rows : List ConversationBindingRecord)
      → Distinct rows
      → any (has_id id) rows ≡ true
      → any (λ row. not (has_id id row) && same_external b row) rows ≡ false
      → any (λ row. not (has_id id row) && same_internal b row) rows ≡ false
      → Settled (rewritten id b) (map (rewrite_row id b) rows)
  unfolding find_by_external_tuple find_by_internal_ref
  update-Settled id rows d there no_external no_internal =
      let user = text_eq_refl b.external_user_id in
      let chat = text_eq_refl b.external_conversation_id in
      let ref = text_eq_refl b.internal_conversation_ref in
      (
        rewrite-Distinct id rows
            (any_either (λ r. not (has_id id r)) (same_external b) (same_internal b) rows
              no_external no_internal)
            d,
        found_after id (same_external b) rows (ground (arith, user, chat)) there no_external,
        found_after id (same_internal b) rows ref there no_internal,
        refl,
      )
