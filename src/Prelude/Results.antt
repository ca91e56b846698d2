-- ===== src/Prelude/Results.antt =====
-- Go's `(value, error)` results. `errors.Is` looks through the wrapping of `fmt.Errorf("… %w")`.
use Prim.Native.String.{String}
use mathlib.Core.Path.{◌≡◌, ap}
use mathlib.Core.Logic.{◌≢◌}
use mathlib.Core.Bool.{Bool, true, false}

-- `not_found` and `conflict` are the sentinels of the state package; `failure` is any other error.
pub data Error : Type 0 where
  not_found conflict : Error
  failure : String → Error
  wrap : String → Error → Error

-- errors.Is(err, state.ErrNotFound)
abbrev pub is_not_found : Error → Bool
is_not_found not_found = true
is_not_found conflict = false
is_not_found (failure m) = false
is_not_found (wrap m e) = is_not_found e

-- errors.Is(err, state.ErrConflict)
abbrev pub is_conflict : Error → Bool
is_conflict not_found = false
is_conflict conflict = true
is_conflict (failure m) = false
is_conflict (wrap m e) = is_conflict e

pub data Result {ℓ} (A : Type ℓ) : Type ℓ where
  ok : A → Result A
  err : Error → Result A

-- `if err != nil { return err }`, then the rest.
module _ {ℓ κ} {A : Type ℓ} {B : Type κ} where
  infixl 5 ◌>>=◌
  abbrev pub ◌>>=◌ : Result A → (A → Result B) → Result B
  err failed >>= rest = err failed
  ok value >>= rest = rest value

pub ok-injective {ℓ} : {A : Type ℓ} {a b : A} → ok a ≡ ok b → a ≡ b
ok-injective {a = a} h = ap (λ r. elim r [ ok x ↦ x | err e ↦ a ]) h

pub err-ok {ℓ} : {A : Type ℓ} {e : Error} {a : A} → err e ≢ ok a
err-ok h = cc
