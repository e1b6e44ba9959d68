-- ===== src/Foreground/Bindings/Keys.antt =====
-- The keys of the table of bindings: what a lookup by a unique key says of the other rows.
use blue_lagoon.Base.{
  ◌≡◌, refl, subst, inl, inr, Bool, true, false, not, ◌&&◌, ◌||◌, none, some, List, [], ◌∷◌, All,
  any, find, ◌==◌, ==_refl, Bool-cases, arith,
}
use blue_lagoon.Contracts.Action.{Uuid}
use blue_lagoon.Foreground.Bindings.{
  ConversationBindingRecord, same_external, same_internal, has_id, without,
}

-- The keys of two rows differ.
abbrev pub Apart : ConversationBindingRecord → ConversationBindingRecord → Type 0
Apart row other =
    (has_id row.conversation_binding_id other ≡ false)
    × (same_external row other ≡ false)
    × (same_internal row other ≡ false)

abbrev pub Distinct : List ConversationBindingRecord → Type 0
Distinct [] = Unit {0}
Distinct (row ∷ rows) = All (Apart row) rows × Distinct rows

module _ {A : Type 0} (p q : A → Bool) where
  pub find_nothing : (rows : List A) → find p rows ≡ none → any p rows ≡ false
  unfolding find any
  find_nothing [] h = refl
  find_nothing (row ∷ rows) h = let rest = find_nothing rows in ground (arith, rest)

  pub any_and : (rows : List A) → any q rows ≡ false → any (λ row. p row && q row) rows ≡ false
  unfolding any
  any_and [] h = refl
  any_and (row ∷ rows) h = let rest = any_and rows in ground (arith, rest)

pub any_either :
    {A : Type 0} (p q r : A → Bool) (rows : List A)
    → any (λ row. p row && q row) rows ≡ false
    → any (λ row. p row && r row) rows ≡ false
    → any (λ row. p row && (q row || r row)) rows ≡ false
unfolding any
any_either p q r [] h k = refl
any_either p q r (row ∷ rows) h k = let rest = any_either p q r rows in ground (arith, rest)

pub any-without :
    (id : Uuid) (p : ConversationBindingRecord → Bool) (rows : List ConversationBindingRecord)
    → any p rows ≡ false
    → any p (without id rows) ≡ false
unfolding any without
any-without id p [] h = refl
any-without id p (row ∷ rows) h = let rest = any-without id p rows in ground (arith, rest)

pub none_left :
    (id : Uuid) (p : ConversationBindingRecord → Bool) (rows : List ConversationBindingRecord)
    → any (λ row. not (has_id id row) && p row) rows ≡ false
    → any p (without id rows) ≡ false
unfolding any without
none_left id p [] h = refl
none_left id p (row ∷ rows) h = let rest = none_left id p rows in ground (arith, rest)

pub still_there :
    (gone id : Uuid) (rows : List ConversationBindingRecord)
    → (gone == id) ≡ false
    → any (has_id id) rows ≡ true
    → any (has_id id) (without gone rows) ≡ true
unfolding any without
still_there gone id [] d h = h
still_there gone id (row ∷ rows) d h = let rest = still_there gone id rows d in ground (arith, rest)

without-All :
    (id : Uuid) (row : ConversationBindingRecord) (rows : List ConversationBindingRecord)
    → All (Apart row) rows
    → All (Apart row) (without id rows)
unfolding without
without-All id row [] a = tt
without-All id row (other ∷ rows) a = elim (Bool-cases (has_id id other)) [
  | inl h ↦ rw h (without-All id row rows a.1)
  | inr h ↦ rw h (a.0, without-All id row rows a.1)
]

pub without-Distinct :
    (id : Uuid) (rows : List ConversationBindingRecord) → Distinct rows → Distinct (without id rows)
unfolding without
without-Distinct id [] d = tt
without-Distinct id (row ∷ rows) d = elim (Bool-cases (has_id id row)) [
  | inl h ↦ rw h (without-Distinct id rows d.1)
  | inr h ↦ rw h (without-All id row rows d.0, without-Distinct id rows d.1)
]

-- A key that picks at most one row of a table.
module _ (p : ConversationBindingRecord → Bool)
    (excludes : (row other : ConversationBindingRecord)
      → p row ≡ true
      → Apart row other
      → p other ≡ false) where
  others_excluded :
      (row : ConversationBindingRecord) (rows : List ConversationBindingRecord)
      → p row ≡ true
      → All (Apart row) rows
      → any p rows ≡ false
  unfolding any
  others_excluded row [] h a = refl
  others_excluded row (other ∷ rows) h a =
      let one = excludes row other h a.0 in
      let rest = others_excluded row rows h a.1 in ground (arith, one, rest)

  pub only_match :
      (rows : List ConversationBindingRecord) (found : ConversationBindingRecord)
      → Distinct rows
      → find p rows ≡ some found
      → any (λ row. not (has_id found.conversation_binding_id row) && p row) rows ≡ false
  unfolding find any
  only_match [] found d h = cc
  only_match (row ∷ rows) found d h = elim (Bool-cases (p row)) [
    | inl e ↦
        (let here : row ≡ found = ground (arith, e, h) in
          let others = others_excluded row rows e d.0 in
          let kept = any_and (λ r. not (has_id row.conversation_binding_id r)) p rows others in
          let self = ==_refl row.conversation_binding_id in
          subst
            (λ f. any (λ r. not (has_id f.conversation_binding_id r) && p r) (row ∷ rows) ≡ false)
            here (ground (arith, self, kept)))
    | inr e ↦
        (let rest = only_match rows found d.1 (ground (arith, e, h)) in ground (arith, rest, e))
  ]

  pub found_id :
      (rows : List ConversationBindingRecord) (found : ConversationBindingRecord)
      → find p rows ≡ some found
      → any (has_id found.conversation_binding_id) rows ≡ true
  unfolding find any
  found_id [] found h = cc
  found_id (row ∷ rows) found h = elim (Bool-cases (p row)) [
    | inl e ↦
        (let here : row ≡ found = ground (arith, e, h) in
          let self = ==_refl row.conversation_binding_id in
          subst (λ f. any (has_id f.conversation_binding_id) (row ∷ rows) ≡ true) here
            (ground (arith, self)))
    | inr e ↦ (let rest = found_id rows found (ground (arith, e, h)) in ground (arith, rest))
  ]
