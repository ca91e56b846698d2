-- ===== src/Resource/Meta.antt =====
-- internal/domain/resource/resource.go: references to a resource, and the finalizers that hold back
-- its removal. The other fields of the metadata are not read by the operations here.
pub mod Finalizers
use infrastructure.Prelude.{
  ℕ, Bool, true, false, List, [], ◌∷◌, ◌++◌, String, str_eq, if◌then◌else◌, Option, none, some,
}

pub record ObjectReference : Type 0 where
  pub kind : String
  pub uid : String
  pub name : String

-- The fields that finalizers and deletion read; a time is a number of nanoseconds.
pub record ObjectMeta : Type 0 where
  pub finalizers : List String
  pub deletion_timestamp : Option ℕ

unfoldable pub is_deleting : ObjectMeta → Bool
is_deleting m = elim m.deletion_timestamp [ none ↦ false | some t ↦ true ]

unfoldable pub among : String → List String → Bool
among name [] = false
among name (f ∷ fs) = if str_eq f name then true else among name fs

unfoldable pub has_finalizer : String → ObjectMeta → Bool
unfolding among
has_finalizer name m = among name m.finalizers

unfoldable pub add_finalizer : String → ObjectMeta → ObjectMeta
add_finalizer name m =
    if has_finalizer name m then m else record m { finalizers = m.finalizers ++ name ∷ [] }

-- What is kept of the finalizers.
unfoldable pub without : String → List String → List String
without name [] = []
without name (f ∷ fs) = let rest = without name fs in if str_eq f name then rest else f ∷ rest

unfoldable pub remove_finalizer : String → ObjectMeta → ObjectMeta
unfolding without
remove_finalizer name m = record m { finalizers = without name m.finalizers }
