-- ===== src/Prelude/Fallible.antt =====
-- Go's `(T, error)`: a value, or an error of the component's own.
use mathlib.Core.Path.{◌≡◌, refl}
use mathlib.Core.Logic.{◌⊎◌, inl, inr}

pub data Result {ℓ κ} (E : Type ℓ) (A : Type κ) : Type (ℓ ⊔ κ) where
  err : E → Result E A
  ok : A → Result E A

module _ {ℓ κ} {E : Type ℓ} {A : Type κ} where
  pub Result-cases : (r : Result E A) → ((e : E) × (r ≡ err e)) ⊎ ((a : A) × (r ≡ ok a))
  Result-cases (err e) = inl (e, refl)
  Result-cases (ok a) = inr (a, refl)

  infixl 5 ◌>>=◌
  -- `if err != nil { return err }`, and what follows it.
  abbrev pub ◌>>=◌ {ι} : {B : Type ι} → Result E A → (A → Result E B) → Result E B
  err problem >>= next = err problem
  ok value >>= next = next value

  -- Where the whole succeeds, so did its first part.
  pub >>=-eq-ok {ι} :
      {B : Type ι} (first : Result E A) (next : A → Result E B) {out : B}
      → (first >>= next) ≡ ok out
      → (value : A) × (first ≡ ok value) × (next value ≡ ok out)
  >>=-eq-ok (err problem) next whole = cc
  >>=-eq-ok (ok value) next whole = (value, refl, whole)
