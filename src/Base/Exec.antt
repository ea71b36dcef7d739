-- ===== src/Base/Exec.antt =====
-- Code that changes a state and may throw. What was written before a throw stays written, so the state
-- comes back beside the error too. An `await` is the step that the awaited promise makes.
use casfa.Base.Results.{Result, ok, err}

abbrev pub Exec {ℓ} : Type ℓ → Type 0 → Type ℓ → Type ℓ
Exec S E A = S → Result E A × S

module _ {ℓ} {S : Type ℓ} {E : Type 0} {A : Type ℓ} where
  abbrev pub pure : A → Exec S E A
  pure a s = (ok a, s)

  abbrev pub raise : E → Exec S E A
  raise e s = (err e, s)

  abbrev pub lift : Result E A → Exec S E A
  lift r s = (r, s)

  -- A computation that reads the state and may throw.
  abbrev pub reads : (S → Result E A) → Exec S E A
  reads f s = (f s, s)

  abbrev pub gets : (S → A) → Exec S E A
  gets f s = (ok (f s), s)

module _ {ℓ} {S : Type ℓ} {E : Type 0} {A B : Type ℓ} where
  abbrev pub continue : Result E A → (A → Exec S E B) → Exec S E B
  continue (ok a) f s = f a s
  continue (err e) f s = (err e, s)

  infixl 5 ◌>>=◌ ◌>>◌
  abbrev pub ◌>>=◌ : Exec S E A → (A → Exec S E B) → Exec S E B
  ◌>>=◌ m f s = let (r, s') = m s in continue r f s'

  abbrev pub ◌>>◌ : Exec S E A → Exec S E B → Exec S E B
  m >> n = m >>= λ _. n

abbrev pub modify {ℓ} : {S : Type ℓ} {E : Type 0} → (S → S) → Exec S E (Unit {ℓ})
modify f s = (ok tt, f s)
