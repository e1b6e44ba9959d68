-- ===== src/Base/Results.antt =====
-- `anyhow::Result`: a value, or one of the errors that the component names.
use mathlib.Core.Path.{◌≡◌, refl}
use mathlib.Core.Logic.{◌⊎◌, inl, inr}
use mathlib.Core.Bool.{Bool, true, false}

pub data Result {ℓ κ} (E : Type ℓ) (A : Type κ) : Type (ℓ ⊔ κ) where
  err : E → Result E A
  ok : A → Result E A

module _ {ℓ} {E : Type ℓ} where
  infixl 5 ◌>>=◌ ◌>>◌
  -- `if test { bail!(e) }`
  abbrev pub bail_if : Bool → E → Result E (Unit {0})
  bail_if false e = ok tt
  bail_if true e = err e

  pub bail_if-eq-ok : (b : Bool) (e : E) → bail_if b e ≡ ok tt → b ≡ false
  bail_if-eq-ok false e h = refl
  bail_if-eq-ok true e h = cc

  -- `?`
  abbrev pub ◌>>=◌ {κ μ} : {A : Type κ} {B : Type μ} → Result E A → (A → Result E B) → Result E B
  err e >>= next = err e
  ok value >>= next = next value

  -- Inversion of a successful chain.
  pub >>=-eq-ok {κ μ} :
      {A : Type κ} {B : Type μ} (m : Result E A) (next : A → Result E B) {b : B}
      → (m >>= next) ≡ ok b
      → (a : A) × (m ≡ ok a) × (next a ≡ ok b)
  >>=-eq-ok (err e) next h = cc
  >>=-eq-ok (ok a) next h = (a, refl, h)

  abbrev pub ◌>>◌ {μ} : {B : Type μ} → Result E (Unit {0}) → Result E B → Result E B
  first >> next = first >>= λ _. next

  -- Inversion of a successful check that another step follows.
  pub >>-eq-ok {μ} :
      {B : Type μ} (m : Result E (Unit {0})) (next : Result E B) {b : B}
      → (m >> next) ≡ ok b
      → (m ≡ ok tt) × (next ≡ ok b)
  >>-eq-ok (err e) next h = cc
  >>-eq-ok (ok tt) next h = (refl, h)

  pub Result-cases {κ} :
      {A : Type κ} (r : Result E A) → ((a : A) × (r ≡ ok a)) ⊎ ((e : E) × (r ≡ err e))
  Result-cases (err e) = inr (e, refl)
  Result-cases (ok a) = inl (a, refl)
