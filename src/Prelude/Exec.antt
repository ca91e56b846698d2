-- ===== src/Prelude/Exec.antt =====
-- Calls that read or change a state and may fail. What was changed before an error stays changed.
use mathlib.Core.Path.{◌≡◌, refl}
use infrastructure.Prelude.Results.{Result, ok, err, Error}

abbrev pub Exec {ℓ} : Type 0 → Type ℓ → Type ℓ
Exec S A = S → Result A × S

module _ {ℓ} {S : Type 0} {A : Type ℓ} where
  abbrev pub pure : A → Exec S A
  pure a s = (ok a, s)

  abbrev pub raise : Error → Exec S A
  raise e s = (err e, s)

module _ {ℓ κ} {S : Type 0} {A : Type ℓ} {B : Type κ} where
  abbrev pub continue : (A → Exec S B) → Result A → S → Result B × S
  continue f (ok a) s = f a s
  continue f (err e) s = (err e, s)

  infixl 5 ◌>>=◌
  abbrev pub ◌>>=◌ : Exec S A → (A → Exec S B) → Exec S B
  ◌>>=◌ m f s = continue f (m s).0 (m s).1

pub continue-eq-ok {ℓ κ} :
    {S : Type 0} {A : Type ℓ} {B : Type κ} (f : A → Exec S B) (r : Result A) (s : S) {b : B}
    → (continue f r s).0 ≡ ok b
    → (a : A) × (r ≡ ok a) × ((f a s).0 ≡ ok b)
continue-eq-ok f (ok a) s h = (a, refl, h)
continue-eq-ok f (err e) s h = cc
