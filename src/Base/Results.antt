-- ===== src/Base/Results.antt =====
-- Fallible code: a value, or the error that the program throws.
use mathlib.Core.Path.{◌≡◌, refl}
use mathlib.Core.Logic.{◌⊎◌, inl, inr}
use mathlib.Core.Bool.{Bool, true, false}

pub data Result {ℓ} (E : Type 0) (A : Type ℓ) : Type ℓ where
  ok : A → Result E A
  err : E → Result E A

module _ {E : Type 0} where
  -- `if (!test) throw e;`
  abbrev pub guard : Bool → E → Result E (Unit {0})
  guard false thrown = err thrown
  guard true thrown = ok tt

  module _ {ℓ κ} {A : Type ℓ} {B : Type κ} where
    infixl 5 ◌>>=◌
    abbrev pub ◌>>=◌ : Result E A → (A → Result E B) → Result E B
    err thrown >>= next = err thrown
    ok value >>= next = next value

    -- A chain that gives a value got one from its first part.
    pub >>=-eq-ok :
        (first : Result E A) (next : A → Result E B) {b : B}
        → (first >>= next) ≡ ok b
        → (a : A) × (first ≡ ok a) × (next a ≡ ok b)
    >>=-eq-ok (err thrown) next e = cc
    >>=-eq-ok (ok value) next e = (value, refl, e)

  infixl 5 ◌>>◌
  abbrev pub ◌>>◌ {ℓ} : {B : Type ℓ} → Result E (Unit {0}) → Result E B → Result E B
  checked >> after = checked >>= λ _. after

-- To split on a computed result and keep the equation.
pub Result-cases {ℓ} :
    {E : Type 0} {A : Type ℓ} (r : Result E A)
    → ((value : A) × (r ≡ ok value)) ⊎ ((thrown : E) × (r ≡ err thrown))
Result-cases (ok value) = inl (value, refl)
Result-cases (err thrown) = inr (thrown, refl)
