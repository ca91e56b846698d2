-- ===== src/Iam/Authorizer/Decision.antt =====
-- When `Allowed` says yes, over lookups that answer as fixed functions do.
use infrastructure.Prelude.{
  String, ◌≡◌, refl, ◌↔◌, ◌≢◌, ◌⊎◌, Bool, true, List, Any, Result, ok, none, arith, eq_iff,
}
use infrastructure.Prelude.Exec.{Exec, pure, continue-eq-ok}
use infrastructure.Resource.Meta.{ObjectReference}
use infrastructure.Iam.Role.{Permission}
use infrastructure.Iam.Scope.{Parent, ScopeLookup, scope_chain}
use infrastructure.Iam.Scope.Answers.{Answers, Agrees, fixed, bind-Agrees, scope_chain-Agrees}
use infrastructure.Iam.Scope.Ancestry.{IsChain, scope_chain_iff}
use infrastructure.Iam.Binding.{IamBinding, effective_permissions, has_permission}
use infrastructure.Iam.Binding.Effective.{Applies, effective_permissions_iff}
use infrastructure.Iam.Authorizer.{user_principal, decide_live, allowed}

module _ (project folder : String → Result Parent) (bindings : List IamBinding) where
  abbrev pub fixed_bindings : Exec (Unit {0}) (List IamBinding)
  fixed_bindings = pure bindings

  -- Some binding on the project's chain of scopes grants the permission to the user.
  abbrev pub IsGranted : String → String → Permission → Type 0
  IsGranted subject project_id perm =
      (chain : List ObjectReference) × IsChain project folder project_id chain
      × Any (Applies chain (user_principal subject) perm) bindings

  pub decide_live_iff :
      (subject project_id : String) (perm : Permission)
      → ((decide_live (fixed project folder) fixed_bindings subject project_id perm tt).0 ≡ ok true)
        ↔ IsGranted subject project_id perm
  unfolding decide_live
  decide_live_iff subject project_id perm = (
    λ h.
        let (chain, e, yes_h) =
          continue-eq-ok _ (scope_chain (fixed project folder) project_id tt).0 _ h in
        (
          chain,
          (scope_chain_iff project folder project_id chain).0 e,
          (effective_permissions_iff chain (user_principal subject) perm bindings).0 cc,
        ),
    λ (chain, c, a). rw (
      (scope_chain_iff project folder project_id chain).1 c,
      (effective_permissions_iff chain (user_principal subject) perm bindings).1 a,
    ),
  )

  module _ {S : Type 0} (Inv : S → Type 0) (scopes : ScopeLookup S)
      (source : Exec S (List IamBinding)) (answers : Answers scopes Inv project folder)
      (listed : (s : S) → Inv s → ((source s).0 ≡ ok bindings) × Inv (source s).1) where
    pub decide_live-Agrees :
        (subject project_id : String) (perm : Permission)
        → Agrees Inv
            (decide_live scopes source subject project_id perm)
            (decide_live (fixed project folder) fixed_bindings subject project_id perm)
    unfolding decide_live
    decide_live-Agrees subject project_id perm =
        bind-Agrees Inv (scope_chain scopes project_id) _ _ _
          (scope_chain-Agrees Inv scopes project folder answers project_id)
          (λ chain.
            let found = λ (bs : List IamBinding).
              has_permission (effective_permissions bs chain (user_principal subject)) perm in
            bind-Agrees Inv source (ok bindings) (λ bs. pure (found bs)) (λ bs. pure (found bs))
              listed (λ bs s inv. (refl, inv)))

    -- `Allowed` says yes exactly to an administrator, to the owner of an owned resource, and, for a
    -- resource in a project, to a user to whom a binding on the project's chain of scopes grants the
    -- permission. The lookups may keep a state, as long as their answers do not depend on it.
    pub allowed_iff :
        (subject : String) (is_admin : Bool) (owner_uid project_id : String) (perm : Permission)
        (s : S)
        → Inv s
        → ((allowed
              (record { scopes = scopes; bindings = source; decide = none })
              subject
              is_admin
              owner_uid
              project_id
              perm
              s).0
            ≡ ok true)
          ↔ ((is_admin ≡ true)
              ⊎ ((owner_uid ≢ "") × (owner_uid ≡ subject))
              ⊎ ((project_id ≢ "") × IsGranted subject project_id perm))
    unfolding allowed
    allowed_iff subject is_admin owner_uid project_id perm s inv = (
      λ h. ground (
        arith,
        eq_iff owner_uid "",
        eq_iff owner_uid subject,
        eq_iff project_id "",
        (decide_live-Agrees subject project_id perm s inv).0,
        (decide_live_iff subject project_id perm).0,
      ),
      λ h. ground (
        arith,
        eq_iff owner_uid "",
        eq_iff owner_uid subject,
        eq_iff project_id "",
        (decide_live-Agrees subject project_id perm s inv).0,
        (decide_live_iff subject project_id perm).1,
      ),
    )
