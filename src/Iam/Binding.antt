-- ===== src/Iam/Binding.antt =====
-- internal/iam/resolve.go: the permissions that bindings grant along a chain.
pub mod Effective
pub mod Validate
use infrastructure.Prelude.{
  String, Bool, true, false, ◌&&◌, ◌||◌, not, List, [], ◌∷◌, Option, none, some, str_eq,
  if◌then◌else◌,
}
use infrastructure.Prelude.Dict.{value_at, assign}
use infrastructure.Resource.Meta.{ObjectReference}
use infrastructure.Iam.Role.{Permission, permissions}

-- `IAMBindingSpec`; the metadata and the status of a binding are not read.
pub record IamBinding : Type 0 where
  pub resource : ObjectReference
  pub role : String
  pub members : List String

unfoldable pub in_chain : ObjectReference → List ObjectReference → Bool
in_chain ref [] = false
in_chain ref (c ∷ cs) =
    if str_eq c.kind ref.kind && str_eq c.uid ref.uid then true else in_chain ref cs

unfoldable pub has_member : List String → String → Bool
has_member [] subject = false
has_member (m ∷ ms) subject = if str_eq m subject then true else has_member ms subject

-- `map[Permission]bool`
abbrev pub PermissionSet : Type 0
PermissionSet = List (Permission × Bool)

-- The inner loop of `EffectivePermissions`.
unfoldable pub grant_all : List Permission → PermissionSet → PermissionSet
grant_all [] effective = effective
grant_all (p ∷ ps) effective = grant_all ps (assign p true effective)

unfoldable pub grant_bindings :
    List IamBinding → List ObjectReference → String → PermissionSet → PermissionSet
unfolding in_chain has_member grant_all
grant_bindings [] chain subject effective = effective
grant_bindings (b ∷ bs) chain subject effective = grant_bindings bs chain subject (
    if not (in_chain b.resource chain) || not (has_member b.members subject)
    then effective
    else grant_all (permissions b.role) effective)

unfoldable pub effective_permissions :
    List IamBinding → List ObjectReference → String → PermissionSet
effective_permissions bindings chain subject = grant_bindings bindings chain subject []

-- `effective[perm]`, which is false where the key is missing.
unfoldable pub has_permission : PermissionSet → Permission → Bool
has_permission effective perm = elim (value_at perm effective) [ none ↦ false | some b ↦ b ]
