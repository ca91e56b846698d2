-- ===== src/Iam/Scope/Answers.antt =====
-- A lookup with a state of its own, seen as two functions that do not depend on that state.
use infrastructure.Prelude.{
  ℕ, zero, suc, String, ◌≡◌, refl, List, ◌∷◌, ◌++◌, [], Result, ok, err, Bool-cases, inl, inr,
  str_eq,
}
use infrastructure.Prelude.Exec.{Exec, continue}
use infrastructure.Resource.Meta.{ObjectReference}
use infrastructure.Iam.Scope.{
  Parent, ScopeLookup, climb, scope_chain, scope, kind_project, kind_folder, kind_organization,
  max_chain_depth,
}

-- While `Inv` holds of the state, the lookup answers as `project` and `folder` say, and keeps `Inv`.
pub record Answers {S : Type 0} (lookup : ScopeLookup S) (Inv : S → Type 0)
    (project folder : String → Result Parent) : Type 0 where
  pub project_answer :
      (id : String) (s : S)
      → Inv s
      → ((lookup.project_parent id s).0 ≡ project id) × Inv (lookup.project_parent id s).1
  pub folder_answer :
      (id : String) (s : S)
      → Inv s
      → ((lookup.folder_parent id s).0 ≡ folder id) × Inv (lookup.folder_parent id s).1

-- The lookup that is those two functions.
abbrev pub fixed : (String → Result Parent) → (String → Result Parent) → ScopeLookup (Unit {0})
fixed project folder = record {
  project_parent = λ id s. (project id, s);
  folder_parent = λ id s. (folder id, s);
}

-- `m` gives what `n` gives, from states with `Inv`, and keeps `Inv`.
abbrev pub Agrees {ℓ} :
    {S : Type 0} {A : Type ℓ} → (S → Type 0) → Exec S A → Exec (Unit {0}) A → Type ℓ
Agrees {S} Inv m n = (s : S) → Inv s → ((m s).0 ≡ (n tt).0) × Inv (m s).1

module _ {S : Type 0} (Inv : S → Type 0) where
  pub continue-Agrees {ℓ κ} :
      {A : Type ℓ} {B : Type κ} (f : A → Exec S B) (g : A → Exec (Unit {0}) B) (r : Result A)
      (s : S)
      → ((a : A) → Agrees Inv (f a) (g a))
      → Inv s
      → ((continue f r s).0 ≡ (continue g r tt).0) × Inv (continue f r s).1
  continue-Agrees f g (ok a) s h inv = h a s inv
  continue-Agrees f g (err e) s h inv = (refl, inv)

  pub bind-Agrees {ℓ κ} :
      {A : Type ℓ} {B : Type κ} (m : Exec S A) (r : Result A) (f : A → Exec S B)
      (g : A → Exec (Unit {0}) B)
      → ((s : S) → Inv s → ((m s).0 ≡ r) × Inv (m s).1)
      → ((a : A) → Agrees Inv (f a) (g a))
      → (s : S) → Inv s
      → ((continue f (m s).0 (m s).1).0 ≡ (continue g r tt).0) × Inv (continue f (m s).0 (m s).1).1
  bind-Agrees m r f g hm hf s inv =
      rw ((hm s inv).0) (continue-Agrees f g r (m s).1 hf (hm s inv).1)

  module _ (lookup : ScopeLookup S) (project folder : String → Result Parent)
      (answers : Answers lookup Inv project folder) where
    climb-Agrees :
        (depth : ℕ) (kind id : String) (chain : List ObjectReference)
        → Agrees Inv
            (climb lookup depth kind id chain)
            (climb (fixed project folder) depth kind id chain)
    unfolding climb
    climb-Agrees zero kind id chain s inv = (refl, inv)
    climb-Agrees (suc depth) kind id chain s inv =
        elim (Bool-cases (str_eq kind kind_organization)) [
          | inl e ↦ rw e (refl, inv)
          | inr e ↦ elim (Bool-cases (str_eq kind kind_folder)) [
            | inl d ↦
                rw (e, d)
                  (bind-Agrees (lookup.folder_parent id) (folder id) _ _ (answers.folder_answer id)
                    (λ p. climb-Agrees depth p.0 p.1 (chain ++ scope kind_folder id ∷ [])) s inv)
            | inr d ↦ rw (e, d) (refl, inv)
          ]
        ]

    pub scope_chain-Agrees :
        (project_id : String)
        → Agrees Inv (scope_chain lookup project_id) (scope_chain (fixed project folder) project_id)
    unfolding scope_chain
    scope_chain-Agrees project_id =
        bind-Agrees (lookup.project_parent project_id) (project project_id) _ _
          (answers.project_answer project_id)
          (λ p. climb-Agrees max_chain_depth p.0 p.1 (scope kind_project project_id ∷ []))
