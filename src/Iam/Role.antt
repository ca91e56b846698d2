-- ===== src/Iam/Role.antt =====
-- internal/iam/role.go, and the role names of internal/domain/resource/iam_binding.go.
use infrastructure.Prelude.{
  String, ◌≡◌, ◌↔◌, Bool, true, false, List, [], ◌∷◌, Any, arith, str_eq, eq_iff, if◌then◌else◌,
}

abbrev pub Permission : Type 0
Permission = String

abbrev pub permission_read : Permission
permission_read = "read"

abbrev pub permission_write : Permission
permission_write = "write"

abbrev pub permission_delete : Permission
permission_delete = "delete"

abbrev pub permission_admin : Permission
permission_admin = "admin"

abbrev pub role_viewer : String
role_viewer = "roles/viewer"

abbrev pub role_editor : String
role_editor = "roles/editor"

abbrev pub role_owner : String
role_owner = "roles/owner"

-- The table `rolePermissions`, with `nil` for an unknown role.
unfoldable pub permissions : String → List Permission
permissions role =
    if str_eq role role_viewer
    then permission_read ∷ []
    else if str_eq role role_editor
    then permission_read ∷ permission_write ∷ permission_delete ∷ []
    else if str_eq role role_owner
    then permission_read ∷ permission_write ∷ permission_delete ∷ permission_admin ∷ []
    else []

-- The loop of `Grants`.
unfoldable pub holds : Permission → List Permission → Bool
holds perm [] = false
holds perm (p ∷ ps) = if str_eq p perm then true else holds perm ps

unfoldable pub grants : String → Permission → Bool
unfolding permissions holds
grants role perm = holds perm (permissions role)

pub holds_iff :
    (perm : Permission) (ps : List Permission) → (holds perm ps ≡ true) ↔ Any (λ p. p ≡ perm) ps
unfolding holds
holds_iff perm [] = (λ h. cc, λ h. absurd h)
holds_iff perm (p ∷ ps) = (
  λ h. ground (arith, eq_iff p perm, (holds_iff perm ps).0),
  λ h. ground (arith, eq_iff p perm, (holds_iff perm ps).1),
)

-- Every role above `viewer` keeps what the role below it grants.
pub grants_mono :
    (perm : Permission)
    → (grants role_viewer perm ≡ true → grants role_editor perm ≡ true)
      × (grants role_editor perm ≡ true → grants role_owner perm ≡ true)
unfolding grants
grants_mono perm = (λ h. ground arith, λ h. ground arith)
