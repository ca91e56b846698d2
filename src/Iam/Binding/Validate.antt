-- ===== src/Iam/Binding/Validate.antt =====
-- internal/domain/resource/iam_binding.go: the validation of a binding before it is stored. An error
-- is a text without its arguments.
use Prim.Native.String.{len}
use text.Mathlib.Text.{find?}
use infrastructure.Prelude.{
  ◌+◌, ◌≡◌, ◌==◌, String, Bool, true, false, ◌&&◌, ◌||◌, not, List, [], ◌∷◌, none, some, str_eq,
  if◌then◌else◌, Result, ok, err, failure, Any, arith, Bool-cases, inl, inr, subst, sym,
}
use infrastructure.Resource.Meta.{ObjectReference}
use infrastructure.Iam.Role.{
  permission_read, role_viewer, role_editor, role_owner, permissions, holds, grants,
}
use infrastructure.Iam.Binding.{IamBinding, has_permission, effective_permissions}
use infrastructure.Iam.Binding.Effective.{Applies, effective_permissions_iff}

abbrev pub known_role : String → Bool
known_role role = str_eq role role_viewer || str_eq role role_editor || str_eq role role_owner

-- `strings.Cut(m, ":")` finds a colon with something before and behind it.
unfoldable pub is_member : String → Bool
is_member m = elim (find? m ":") [ none ↦ false | some i ↦ not (i == 0) && not (i + 1 == len m) ]

unfoldable pub check_members : List String → Result {0} Unit
unfolding is_member
check_members [] = ok tt
check_members (m ∷ ms) =
    let rest = check_members ms in
    if is_member m then rest else err (failure "member must be formatted as <kind>:<id>")

unfoldable pub validate_binding : IamBinding → Result {0} Unit
unfolding check_members
validate_binding b =
    if str_eq (b.resource).kind "" || str_eq (b.resource).uid ""
    then err (failure "resource.kind and resource.uid are required")
    else if not (known_role b.role)
    then err (failure "role must be one of the known roles")
    else elim b.members [
      | [] ↦ err (failure "members must not be empty")
      | m ∷ ms ↦ check_members (m ∷ ms)
    ]

known_role-grants : (role : String) → known_role role ≡ true → grants role permission_read ≡ true
unfolding grants permissions holds
known_role-grants role h = ground arith

validate_binding-known_role :
    (b : IamBinding) → validate_binding b ≡ ok tt → known_role b.role ≡ true
unfolding validate_binding
validate_binding-known_role b h =
    elim (Bool-cases (str_eq (b.resource).kind "" || str_eq (b.resource).uid "")) [
      | inl e ↦ absurd (ground (arith, rw e at h))
      | inr e ↦ elim (Bool-cases (known_role b.role)) [
        | inl k ↦ k
        | inr k ↦ absurd (ground (arith, rw (e, k) at h))
      ]
    ]

grants_read :
    (b : IamBinding) (bs : List IamBinding) (chain : List ObjectReference) (subject : String)
    → Applies chain subject permission_read b
    → Any (λ x. x ≡ b) bs
    → Any (Applies chain subject permission_read) bs
grants_read b (x ∷ bs) chain subject a (inl e) =
    inl (subst (Applies chain subject permission_read) (sym e) a)
grants_read b (x ∷ bs) chain subject a (inr e) = inr (grants_read b bs chain subject a e)
grants_read b [] chain subject a e = e

-- A binding that passes validation lets each of its members read, wherever it stands among other
-- bindings, along every chain of scopes that has its resource.
pub validate_binding-effective_permissions :
    (b : IamBinding) (bs : List IamBinding) (chain : List ObjectReference) (subject : String)
    → Any (λ x. x ≡ b) bs
    → validate_binding b ≡ ok tt
    → Any (λ c. (c.kind ≡ b.resource.kind) × (c.uid ≡ b.resource.uid)) chain
    → Any (λ m. m ≡ subject) b.members
    → has_permission (effective_permissions bs chain subject) permission_read ≡ true
validate_binding-effective_permissions b bs chain subject there v c m =
    (effective_permissions_iff chain subject permission_read bs).1 (
      grants_read b bs chain subject
        (c, m, known_role-grants b.role (validate_binding-known_role b v)) there)
