-- ===== src/Base/Int.antt =====
-- Signed integers (`i64`) over the native numbers, and the decimal text that `to_string` gives.
use Prim.Native.Nat.{ℕ, zero, suc, ◌+◌, ◌-◌, ◌*◌, ◌/◌, ◌%◌, ◌<◌, ◌≤◌}
use mathlib.Core.Path.{◌≡◌, refl, sym, ap, ◌∙◌}
use mathlib.Core.Logic.{inl, inr, ◌↔◌}
use mathlib.Core.Bool.{Bool, true, false}
use mathlib.Core.List.{[], ◌∷◌}
use native.Mathlib.Omega.{arith}
use blue_lagoon.Base.Tests.{ltb, ◌==◌, if◌then◌else◌, Bool-cases}
use blue_lagoon.Base.Strings.{Text, text_eq, text_eq_iff}

-- `negsuc n` is -(n + 1).
pub data ℤ : Type 0 where
  pos : ℕ → ℤ
  negsuc : ℕ → ℤ

abbrev pub int_eq : ℤ → ℤ → Bool
int_eq (pos a) (pos b) = a == b
int_eq (pos a) (negsuc b) = false
int_eq (negsuc a) (pos b) = false
int_eq (negsuc a) (negsuc b) = a == b

abbrev pub int_ltb : ℤ → ℤ → Bool
int_ltb (pos a) (pos b) = ltb a b
int_ltb (pos a) (negsuc b) = false
int_ltb (negsuc a) (pos b) = true
int_ltb (negsuc a) (negsuc b) = ltb b a

-- The decimal digits of `n` in front of `rest`; `fuel` bounds their number.
digits_onto : (fuel n : ℕ) → Text → Text
digits_onto zero n rest = rest
digits_onto (suc fuel) n rest =
    let more = digits_onto fuel (n / 10) ((n % 10 + b'0') ∷ rest) in
    if ltb n 10 then (n + b'0') ∷ rest else more

-- A number has at most as many digits as its value, plus one.
nat_to_text : ℕ → Text
unfolding digits_onto
nat_to_text n = digits_onto (suc n) n []

-- `i64::to_string`
unfoldable pub int_to_text : ℤ → Text
unfolding nat_to_text
int_to_text (pos n) = nat_to_text n
int_to_text (negsuc n) = b'-' ∷ nat_to_text (n + 1)

-- The number that a text of digits stands for, read from the left.
value_from : ℕ → Text → ℕ
value_from acc [] = acc
value_from acc (c ∷ s) = value_from (acc * 10 + (c - b'0')) s

digits_onto-value_from :
    (fuel n : ℕ) (rest : Text)
    → n < fuel
    → value_from 0 (digits_onto fuel n rest) ≡ value_from n rest
unfolding digits_onto value_from
digits_onto-value_from zero n rest h = absurd (omega arith)
digits_onto-value_from (suc fuel) n rest h = elim (Bool-cases (ltb n 10)) [
  | inl last ↦ rw last (ap (λ k. value_from k rest) (omega arith))
  | inr more ↦ rw more (
      digits_onto-value_from fuel (n / 10) ((n % 10 + b'0') ∷ rest) (ground arith)
      ∙ ap (λ k. value_from k rest) (ground arith))
]

-- The first character is a digit.
digits_onto-cons :
    (fuel n : ℕ) (rest : Text)
    → n < fuel
    → (c : ℕ) × (s : Text) × (digits_onto fuel n rest ≡ c ∷ s) × (b'0' ≤ c)
unfolding digits_onto
digits_onto-cons zero n rest h = absurd (omega arith)
digits_onto-cons (suc fuel) n rest h = elim (Bool-cases (ltb n 10)) [
  | inl last ↦ (n + b'0', rest, rw last, omega arith)
  | inr more ↦ rw more (digits_onto-cons fuel (n / 10) ((n % 10 + b'0') ∷ rest) (ground arith))
]

nat_to_text-injective : (m n : ℕ) → nat_to_text m ≡ nat_to_text n → m ≡ n
unfolding nat_to_text value_from
nat_to_text-injective m n h =
    sym (digits_onto-value_from (suc m) m [] (omega arith))
    ∙ (ap (value_from 0) h ∙ digits_onto-value_from (suc n) n [] (omega arith))

nat_to_text-ne-minus : (m : ℕ) (s : Text) → nat_to_text m ≡ b'-' ∷ s → ⊥
unfolding nat_to_text
nat_to_text-ne-minus m s h =
    let (c, t, e, d) = digits_onto-cons (suc m) m [] (omega arith) in ground (arith, e)

cons-injective : {c : ℕ} (s t : Text) → ◌≡◌ {A = Text} (c ∷ s) (c ∷ t) → s ≡ t
cons-injective s t h = cc

-- Two integers have one decimal text only if they are equal.
pub int_to_text-injective : (a b : ℤ) → int_to_text a ≡ int_to_text b → a ≡ b
unfolding int_to_text
int_to_text-injective (pos m) (pos n) h = ap pos (nat_to_text-injective m n h)
int_to_text-injective (pos m) (negsuc n) h = absurd (nat_to_text-ne-minus m _ h)
int_to_text-injective (negsuc m) (pos n) h = absurd (nat_to_text-ne-minus n _ (sym h))
int_to_text-injective (negsuc m) (negsuc n) h =
    let e = nat_to_text-injective (m + 1) (n + 1) (cons-injective _ _ h) in ap negsuc (omega arith)

pub int_eq_iff : (a b : ℤ) → (int_eq a b ≡ true) ↔ (a ≡ b)
int_eq_iff (pos a) (pos b) = ground arith
int_eq_iff (pos a) (negsuc b) = ground arith
int_eq_iff (negsuc a) (pos b) = ground arith
int_eq_iff (negsuc a) (negsuc b) = ground arith

-- Two integers of which neither is less are equal.
pub int_ltb_total : (a b : ℤ) → int_ltb a b ≡ false → int_ltb b a ≡ false → a ≡ b
int_ltb_total (pos a) (pos b) h k = ap pos (ground arith)
int_ltb_total (pos a) (negsuc b) h k = cc
int_ltb_total (negsuc a) (pos b) h k = cc
int_ltb_total (negsuc a) (negsuc b) h k = ap negsuc (ground arith)

pub int_ltb_irreflexive : (a : ℤ) → int_ltb a a ≡ false
int_ltb_irreflexive (pos a) = ground arith
int_ltb_irreflexive (negsuc a) = ground arith

-- Comparing the texts of two integers compares the integers.
pub text_eq-int_to_text : (a b : ℤ) → (text_eq (int_to_text a) (int_to_text b) ≡ true) ↔ (a ≡ b)
text_eq-int_to_text a b = (
  λ h. int_to_text-injective a b ((text_eq_iff (int_to_text a) (int_to_text b)).0 h),
  λ h. (text_eq_iff (int_to_text a) (int_to_text b)).1 (ap int_to_text h),
)

int_to_text-test : int_to_text (negsuc 1203) ≡ b'-' ∷ b'1' ∷ b'2' ∷ b'0' ∷ b'4' ∷ []
unfolding int_to_text
int_to_text-test = refl
