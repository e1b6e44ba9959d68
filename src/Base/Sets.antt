-- ===== src/Base/Sets.antt =====
-- `BTreeSet<String>` as the ascending list of its members, without duplicates. `Ord` on `str`
-- compares UTF-8 bytes, which is the order of the code points.
use mathlib.Core.Path.{◌≡◌, refl, sym, ap, subst, ◌∙◌}
use mathlib.Core.Logic.{inl, inr, ◌↔◌}
use mathlib.Core.Bool.{Bool, true, false, ◌&&◌, ◌||◌}
use mathlib.Core.List.{List, [], ◌∷◌}
use native.Mathlib.Omega.{arith}
use blue_lagoon.Base.Tests.{ltb, ◌==◌, if◌then◌else◌, Bool-cases}
use blue_lagoon.Base.Lists.{any, All}
use blue_lagoon.Base.Strings.{Text, text_eq, text_eq_iff, text_eq_refl}

-- `<` on texts
unfoldable pub text_ltb : Text → Text → Bool
text_ltb s [] = false
text_ltb [] (d ∷ t) = true
text_ltb (c ∷ s) (d ∷ t) = ltb c d || (c == d && text_ltb s t)

unfoldable pub insert_text : Text → List Text → List Text
unfolding text_ltb
insert_text x [] = x ∷ []
insert_text x (y ∷ ys) =
    let rest = insert_text x ys in
    if text_ltb x y then x ∷ y ∷ ys else if text_ltb y x then y ∷ rest else y ∷ ys

-- `collect::<BTreeSet<_>>().into_iter().collect()`
unfoldable pub text_set : List Text → List Text
unfolding insert_text
text_set [] = []
text_set (x ∷ xs) = insert_text x (text_set xs)

unfoldable pub member : Text → List Text → Bool
unfolding any text_eq
member x xs = any (text_eq x) xs

text_ltb_irreflexive : (s : Text) → text_ltb s s ≡ false
unfolding text_ltb
text_ltb_irreflexive [] = refl
text_ltb_irreflexive (c ∷ s) = let rest = text_ltb_irreflexive s in ground (arith, rest)

text_ltb_transitive :
    (s t u : Text) → text_ltb s t ≡ true → text_ltb t u ≡ true → text_ltb s u ≡ true
unfolding text_ltb
text_ltb_transitive s t [] h k = cc
text_ltb_transitive [] t (e ∷ u) h k = refl
text_ltb_transitive (c ∷ s) [] (e ∷ u) h k = cc
text_ltb_transitive (c ∷ s) (d ∷ t) (e ∷ u) h k =
    let rest = text_ltb_transitive s t u in ground (arith, rest)

text_ltb_total : (s t : Text) → text_ltb s t ≡ false → text_ltb t s ≡ false → s ≡ t
unfolding text_ltb
text_ltb_total [] [] h k = refl
text_ltb_total [] (d ∷ t) h k = cc
text_ltb_total (c ∷ s) [] h k = cc
text_ltb_total (c ∷ s) (d ∷ t) h k =
    let rest = text_ltb_total s t in
    let same : c ≡ d = ground arith in let tails : s ≡ t = ground (arith, rest) in cc

-- Every member is above the text.
abbrev pub Above : Text → List Text → Type 0
Above x ys = All (λ y. text_ltb x y ≡ true) ys

abbrev pub IsAscending : List Text → Type 0
IsAscending [] = Unit
IsAscending (x ∷ xs) = Above x xs × IsAscending xs

insert_text-Above :
    (z x : Text) (ys : List Text) → text_ltb z x ≡ true → Above z ys → Above z (insert_text x ys)
unfolding insert_text
insert_text-Above z x [] h a = (h, tt)
insert_text-Above z x (y ∷ ys) h a =
    let rest = insert_text-Above z x ys h a.1 in ground (arith, a.0, a.1, rest)

Above-transitive : (x y : Text) (ys : List Text) → text_ltb x y ≡ true → Above y ys → Above x ys
Above-transitive x y [] h a = tt
Above-transitive x y (z ∷ ys) h a = (text_ltb_transitive x y z h a.0, Above-transitive x y ys h a.1)

insert_text-IsAscending :
    (x : Text) (ys : List Text) → IsAscending ys → IsAscending (insert_text x ys)
unfolding insert_text
insert_text-IsAscending x [] a = (tt, tt)
insert_text-IsAscending x (y ∷ ys) a = elim (Bool-cases (text_ltb x y)) [
  | inl h ↦ rw h ((h, Above-transitive x y ys h a.0), a)
  | inr h ↦ rw h (elim (Bool-cases (text_ltb y x)) [
    | inl k ↦ rw k (insert_text-Above y x ys k a.0, insert_text-IsAscending x ys a.1)
    | inr k ↦ rw k a
  ])
]

-- A set is kept in ascending order, without duplicates.
pub text_set-IsAscending : (xs : List Text) → IsAscending (text_set xs)
unfolding text_set
text_set-IsAscending [] = tt
text_set-IsAscending (x ∷ xs) = insert_text-IsAscending x (text_set xs) (text_set-IsAscending xs)

member-insert_text :
    (t x : Text) (ys : List Text) → member t (insert_text x ys) ≡ (text_eq t x || member t ys)
unfolding member insert_text any
member-insert_text t x [] = refl
member-insert_text t x (y ∷ ys) =
    let rest = member-insert_text t x ys in
    elim (Bool-cases (text_ltb x y)) [
      | inl h ↦ rw h refl
      | inr h ↦ rw h (elim (Bool-cases (text_ltb y x)) [
        | inl k ↦ rw k (ground (arith, rest))
        | inr k ↦ rw k (let same = text_ltb_total x y h k in ground (arith, same))
      ])
    ]

-- The members of a set are the items that it was made of.
pub member-text_set : (t : Text) (xs : List Text) → member t (text_set xs) ≡ member t xs
unfolding text_set member any
member-text_set t [] = refl
member-text_set t (x ∷ xs) =
    let one = member-insert_text t x (text_set xs) in
    let rest = member-text_set t xs in ground (arith, one, rest)

Above-member : (x : Text) (ys : List Text) → Above x ys → member x ys ≡ false
unfolding member any
Above-member x [] a = refl
Above-member x (y ∷ ys) a =
    let rest = Above-member x ys a.1 in
    let same = (text_eq_iff x y).0 in
    let strict = text_ltb_irreflexive x in
    elim (Bool-cases (text_eq x y)) [
      | inl h ↦ (let e = same h in let below = a.0 in cc)
      | inr h ↦ ground (arith, rest)
    ]

heads_agree :
    (x y : Text) (xs ys : List Text)
    → IsAscending (x ∷ xs)
    → IsAscending (y ∷ ys)
    → ((t : Text) → member t (x ∷ xs) ≡ member t (y ∷ ys))
    → x ≡ y
unfolding member any
heads_agree x y xs ys a b same =
    let in_x : member x (x ∷ xs) ≡ true = ground (arith, text_eq_refl x) in
    let in_y : member y (y ∷ ys) ≡ true = ground (arith, text_eq_refl y) in
    elim (Bool-cases (text_ltb x y)) [
      | inl h ↦
          (let absent = Above-member x (y ∷ ys) (h, Above-transitive x y ys h b.0) in
            let e = same x in cc)
      | inr h ↦ elim (Bool-cases (text_ltb y x)) [
        | inl k ↦
            (let absent = Above-member y (x ∷ xs) (k, Above-transitive y x xs k a.0) in
              let e = same y in cc)
        | inr k ↦ text_ltb_total x y h k
      ]
    ]

member_of_tails :
    (x : Text) (xs ys : List Text)
    → Above x xs
    → Above x ys
    → ((t : Text) → member t (x ∷ xs) ≡ member t (x ∷ ys))
    → (t : Text) → member t xs ≡ member t ys
unfolding member any
member_of_tails x xs ys a b same t =
    let whole = same t in
    let left = Above-member x xs a in
    let right = Above-member x ys b in
    elim (Bool-cases (text_eq t x)) [
      | inl h ↦ (let e = (text_eq_iff t x).0 h in cc)
      | inr h ↦ ground (arith, whole)
    ]

-- Two ascending lists with the same members are equal.
ascending_ext :
    (xs ys : List Text)
    → IsAscending xs
    → IsAscending ys
    → ((t : Text) → member t xs ≡ member t ys)
    → xs ≡ ys
unfolding member any
ascending_ext [] [] a b same = refl
ascending_ext [] (y ∷ ys) a b same = let e = same y in ground (arith, text_eq_refl y)
ascending_ext (x ∷ xs) [] a b same = let e = same x in ground (arith, text_eq_refl x)
ascending_ext (x ∷ xs) (y ∷ ys) a b same =
    let heads = heads_agree x y xs ys a b same in
    let above = subst (λ z. Above z ys) (sym heads) b.0 in
    let same_members =
      subst (λ z. (t : Text) → member t (x ∷ xs) ≡ member t (z ∷ ys)) (sym heads) same in
    let tails = ascending_ext xs ys a.1 b.1 (member_of_tails x xs ys a.0 above same_members) in cc

-- Two sets are equal exactly when the lists that they are made of have the same members.
pub text_set_iff :
    (xs ys : List Text) → (text_set xs ≡ text_set ys) ↔ ((t : Text) → member t xs ≡ member t ys)
text_set_iff xs ys = (
  λ h t. sym (member-text_set t xs) ∙ ap (member t) h ∙ member-text_set t ys,
  λ same.
      ascending_ext (text_set xs) (text_set ys) (text_set-IsAscending xs) (text_set-IsAscending ys)
        (λ t. member-text_set t xs ∙ same t ∙ sym (member-text_set t ys)),
)
