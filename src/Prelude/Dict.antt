-- ===== src/Prelude/Dict.antt =====
-- A Go map with text keys, as an association list in which a write replaces the first entry.
use Prim.Native.String.{String}
use text.Mathlib.Text.{◌==◌}
use text.Mathlib.TextEquality.{eq_iff}
use mathlib.Core.Path.{◌≡◌, refl}
use mathlib.Core.List.{List, [], ◌∷◌}
use mathlib.Core.Option.{Option, none, some}
use native.Mathlib.Omega.{arith}
use infrastructure.Prelude.Tests.{if◌then◌else◌}

module _ {ℓ} {V : Type ℓ} where
  -- m[key], and whether it is there
  unfoldable pub value_at : String → List (String × V) → Option V
  value_at key [] = none
  value_at key (entry ∷ entries) = if entry.0 == key then some (entry.1) else value_at key entries

  -- m[key] = value
  unfoldable pub assign : String → V → List (String × V) → List (String × V)
  assign key value [] = (key, value) ∷ []
  assign key value (entry ∷ entries) =
      let rest = assign key value entries in
      if entry.0 == key then (key, value) ∷ entries else entry ∷ rest

  -- delete(m, key)
  unfoldable pub discard : String → List (String × V) → List (String × V)
  discard key [] = []
  discard key (entry ∷ entries) =
      let rest = discard key entries in if entry.0 == key then rest else entry ∷ rest

  pub value_at-assign :
      (key other : String) (value : V) (entries : List (String × V))
      → value_at other (assign key value entries)
        ≡ (if key == other then some value else value_at other entries)
  unfolding value_at assign
  value_at-assign key other value [] = refl
  value_at-assign key other value (entry ∷ entries) =
      let ih = value_at-assign key other value entries in
      ground (arith, ih, eq_iff key other, eq_iff (entry.0) key, eq_iff (entry.0) other)

  pub value_at-discard :
      (key other : String) (entries : List (String × V))
      → value_at other (discard key entries)
        ≡ (if key == other then none else value_at other entries)
  unfolding value_at discard
  value_at-discard key other [] = ground arith
  value_at-discard key other (entry ∷ entries) =
      let ih = value_at-discard key other entries in
      ground (arith, ih, eq_iff key other, eq_iff (entry.0) key, eq_iff (entry.0) other)
