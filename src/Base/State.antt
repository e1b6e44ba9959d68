-- ===== src/Base/State.antt =====
-- Fallible operations on a store: an error keeps what was written before it.
use mathlib.Core.Path.{◌≡◌, refl}
use blue_lagoon.Base.Results.{Result, ok, err}

abbrev pub Action : Type 0 → Type 0 → Type 0 → Type 0
Action S E A = S → Result E A × S

module _ {S E : Type 0} where
  abbrev pub lift : {A : Type 0} → Result E A → Action S E A
  lift r s = (r, s)

  abbrev pub and_then : {A B : Type 0} → Result E A → (A → Action S E B) → Action S E B
  and_then (ok a) f s = f a s
  and_then (err e) f s = (err e, s)

  infixl 5 ◌>>=◌ ◌>>◌
  abbrev pub ◌>>=◌ : {A B : Type 0} → Action S E A → (A → Action S E B) → Action S E B
  (m >>= f) s = let (r, s') = m s in and_then r f s'

  abbrev pub ◌>>◌ : {B : Type 0} → Action S E (Unit {0}) → Action S E B → Action S E B
  m >> k = m >>= λ _. k

  -- A step that succeeds passes its value and its store on.
  pub bind_ok :
      {A B : Type 0} (m : Action S E A) (f : A → Action S E B) (s : S) {a : A} {s' : S}
      → m s ≡ (ok a, s')
      → (m >>= f) s ≡ f a s'
  bind_ok m f s h = rw h refl

  -- A step that fails ends the operation.
  pub bind_err :
      {A B : Type 0} (m : Action S E A) (f : A → Action S E B) (s : S) {e : E} {s' : S}
      → m s ≡ (err e, s')
      → (m >>= f) s ≡ (err e, s')
  bind_err m f s h = rw h refl
