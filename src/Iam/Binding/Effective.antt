-- ===== src/Iam/Binding/Effective.antt =====
-- `EffectivePermissions` against the bindings that apply.
use infrastructure.Prelude.{
  String, ◌≡◌, refl, ◌∙◌, ◌↔◌, ◌⊎◌, inl, inr, true, List, [], ◌∷◌, Any, arith, str_eq, eq_iff, not,
  ◌||◌, if◌then◌else◌,
}
use infrastructure.Prelude.Dict.{value_at, assign, value_at-assign}
use infrastructure.Resource.Meta.{ObjectReference}
use infrastructure.Iam.Role.{Permission, permissions, holds, grants}
use infrastructure.Iam.Binding.{
  IamBinding, PermissionSet, in_chain, has_member, grant_all, grant_bindings, effective_permissions,
  has_permission,
}

pub in_chain_iff :
    (ref : ObjectReference) (chain : List ObjectReference)
    → (in_chain ref chain ≡ true) ↔ Any (λ c. (c.kind ≡ ref.kind) × (c.uid ≡ ref.uid)) chain
unfolding in_chain
in_chain_iff ref [] = (λ h. cc, λ h. absurd h)
in_chain_iff ref (c ∷ cs) = (
  λ h. ground (arith, eq_iff c.kind ref.kind, eq_iff c.uid ref.uid, (in_chain_iff ref cs).0),
  λ h. ground (arith, eq_iff c.kind ref.kind, eq_iff c.uid ref.uid, (in_chain_iff ref cs).1),
)

pub has_member_iff :
    (members : List String) (subject : String)
    → (has_member members subject ≡ true) ↔ Any (λ m. m ≡ subject) members
unfolding has_member
has_member_iff [] subject = (λ h. cc, λ h. absurd h)
has_member_iff (m ∷ ms) subject = (
  λ h. ground (arith, eq_iff m subject, (has_member_iff ms subject).0),
  λ h. ground (arith, eq_iff m subject, (has_member_iff ms subject).1),
)

has_permission-insert :
    (perm p : Permission) (e : PermissionSet)
    → has_permission (assign p true e) perm
      ≡ (if str_eq p perm then true else has_permission e perm)
unfolding has_permission
has_permission-insert perm p e = ground (arith, value_at-assign p perm true e)

has_permission-grant_all :
    (perm : Permission) (ps : List Permission) (e : PermissionSet)
    → has_permission (grant_all ps e) perm ≡ (if holds perm ps then true else has_permission e perm)
unfolding grant_all holds
has_permission-grant_all perm [] e = refl
has_permission-grant_all perm (p ∷ ps) e =
    has_permission-grant_all perm ps (assign p true e)
    ∙ ground (arith, has_permission-insert perm p e)

-- The binding is on a scope of the chain, lists the subject, and its role grants the permission.
abbrev pub Applies : List ObjectReference → String → Permission → IamBinding → Type 0
Applies chain subject perm b =
    Any (λ c. (c.kind ≡ b.resource.kind) × (c.uid ≡ b.resource.uid)) chain
    × Any (λ m. m ≡ subject) b.members
    × (grants b.role perm ≡ true)

module _ (chain : List ObjectReference) (subject : String) (perm : Permission) where
  visit_iff :
      (b : IamBinding) (e : PermissionSet)
      → (has_permission
            (if not (in_chain b.resource chain) || not (has_member b.members subject)
              then e
              else grant_all (permissions b.role) e)
            perm
          ≡ true)
        ↔ ((has_permission e perm ≡ true) ⊎ Applies chain subject perm b)
  unfolding grants
  visit_iff b e = (
    λ h. ground (
      arith,
      (in_chain_iff b.resource chain).0,
      (has_member_iff b.members subject).0,
      has_permission-grant_all perm (permissions b.role) e,
    ),
    λ h. ground (
      arith,
      (in_chain_iff b.resource chain).1,
      (has_member_iff b.members subject).1,
      has_permission-grant_all perm (permissions b.role) e,
    ),
  )

  has_permission-grant_bindings :
      (bs : List IamBinding) (e : PermissionSet)
      → (has_permission (grant_bindings bs chain subject e) perm ≡ true)
        ↔ ((has_permission e perm ≡ true) ⊎ Any (Applies chain subject perm) bs)
  unfolding grant_bindings
  has_permission-grant_bindings [] e = (λ h. inl h, elim [ inl h ↦ h | inr h ↦ absurd h ])
  has_permission-grant_bindings (b ∷ bs) e =
      let later = has_permission-grant_bindings bs _ in
      (
        λ h. elim (later.0 h) [
          | inl old ↦ elim ((visit_iff b e).0 old) [ inl o ↦ inl o | inr a ↦ inr (inl a) ]
          | inr new ↦ inr (inr new)
        ],
        elim [
          | inl old ↦ later.1 (inl ((visit_iff b e).1 (inl old)))
          | inr (inl a) ↦ later.1 (inl ((visit_iff b e).1 (inr a)))
          | inr (inr new) ↦ later.1 (inr new)
        ],
      )

  -- A permission is effective exactly when some binding is on a scope of the chain, lists the
  -- subject among its members and has a role that grants the permission.
  pub effective_permissions_iff :
      (bs : List IamBinding)
      → (has_permission (effective_permissions bs chain subject) perm ≡ true)
        ↔ Any (Applies chain subject perm) bs
  unfolding effective_permissions has_permission value_at
  effective_permissions_iff bs =
      let all = has_permission-grant_bindings bs [] in
      (λ h. elim (all.0 h) [ inl e ↦ absurd (ground arith) | inr a ↦ a ], λ a. all.1 (inr a))
