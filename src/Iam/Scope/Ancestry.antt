-- ===== src/Iam/Scope/Ancestry.antt =====
-- What a chain of scopes is, without the walk: `ScopeChain` of internal/iam/resolve.go against it.
use infrastructure.Prelude.{
  ℕ, zero, suc, ◌≤◌, String, ◌≡◌, refl, ◌↔◌, ◌⊎◌, inl, inr, ap, ◌∙◌, List, [], ◌∷◌, ◌++◌,
  append_assoc, Result, ok, err, arith, length, Bool-cases, str_eq, eq_iff,
}
use infrastructure.Prelude.Exec.{continue-eq-ok}
use infrastructure.Resource.Meta.{ObjectReference}
use infrastructure.Iam.Scope.{
  Parent, climb, scope_chain, scope, kind_project, kind_folder, kind_organization, max_chain_depth,
  too_long,
}
use infrastructure.Iam.Scope.Answers.{fixed}

module _ (folder : String → Result Parent) where
  -- The scopes from the parent `kind` `id` up to an organization, which is the last of them.
  abbrev pub Above : String → String → List ObjectReference → Type 0
  Above kind id [] = ⊥
  Above kind id (r ∷ rest) =
      ((kind ≡ kind_organization) × (r ≡ scope kind_organization id) × (rest ≡ []))
      ⊎ ((kind ≡ kind_folder)
          × (r ≡ scope kind_folder id)
          × ((p : Parent) × (folder id ≡ ok p) × Above p.0 p.1 rest))

module _ (project folder : String → Result Parent) where
  -- The chain of a project: itself, then what stands above its parent, in at most 64 steps.
  abbrev pub IsChain : String → List ObjectReference → Type 0
  IsChain project_id chain =
      (p : Parent) × (rest : List ObjectReference) × (project project_id ≡ ok p)
      × (chain ≡ scope kind_project project_id ∷ rest)
      × Above folder p.0 p.1 rest
      × (length rest ≤ max_chain_depth)

  abbrev Climbed : ℕ → String → String → List ObjectReference → List ObjectReference → Type 0
  Climbed depth kind id before chain =
      (rest : List ObjectReference) × (chain ≡ before ++ rest)
      × Above folder kind id rest
      × (length rest ≤ depth)

  climb_sound :
      (depth : ℕ) (kind id : String) (before chain : List ObjectReference)
      → (climb (fixed project folder) depth kind id before tt).0 ≡ ok chain
      → Climbed depth kind id before chain
  unfolding climb
  climb_sound zero kind id before chain h = cc
  climb_sound (suc depth) kind id before chain h =
      elim (Bool-cases (str_eq kind kind_organization)) [
        | inl e ↦ (
          scope kind_organization id ∷ [],
          ground arith,
          inl ((eq_iff kind kind_organization).0 e, refl, refl),
          omega arith,
        )
        | inr e ↦ elim (Bool-cases (str_eq kind kind_folder)) [
          | inl d ↦
              let found = continue-eq-ok _ (folder id) tt (rw (e, d) at h) in
              let (p, step, above) = found in
              let (rest, joined, higher, room) = climb_sound depth p.0 p.1 _ chain above in
              (
                scope kind_folder id ∷ rest,
                joined ∙ append_assoc before _ rest,
                inr ((eq_iff kind kind_folder).0 d, refl, (p, step, higher)),
                omega arith,
              )
          | inr d ↦ ground arith
        ]
      ]

  climb_complete :
      (depth : ℕ) (kind id : String) (before rest : List ObjectReference)
      → Above folder kind id rest
      → length rest ≤ depth
      → (climb (fixed project folder) depth kind id before tt).0 ≡ ok (before ++ rest)
  unfolding climb
  climb_complete depth kind id before [] above room = absurd above
  climb_complete zero kind id before (r ∷ rest) above room = absurd (omega arith)
  climb_complete (suc depth) kind id before (r ∷ rest) (inl (k, e, done)) room =
      rw (k, e, done) refl
  climb_complete (suc depth) kind id before (r ∷ rest) (inr (k, e, (p, step, above))) room =
      rw (k, e, step)
        (climb_complete depth p.0 p.1 (before ++ scope kind_folder id ∷ []) rest above (omega arith)
          ∙ ap ok (append_assoc before (scope kind_folder id ∷ []) rest))

  -- `ScopeChain` returns a chain exactly when the project, the folders above its parent and an
  -- organization above them form one, with at most 64 scopes above the project.
  pub scope_chain_iff :
      (project_id : String) (chain : List ObjectReference)
      → ((scope_chain (fixed project folder) project_id tt).0 ≡ ok chain) ↔ IsChain project_id chain
  unfolding scope_chain
  scope_chain_iff project_id chain = (
    λ h.
        let (p, step, above) = continue-eq-ok _ (project project_id) tt h in
        let (rest, joined, higher, room) = climb_sound max_chain_depth p.0 p.1 _ chain above in
        (p, rest, step, joined, higher, room),
    λ (p, rest, step, joined, higher, room).
        rw (step, joined) (climb_complete max_chain_depth p.0 p.1 _ rest higher room),
  )

  climb-cycle :
      (Looped : String → Type 0)
      → ((id : String)
          → Looped id
          → (id' : String) × (folder id ≡ ok (kind_folder, id')) × Looped id')
      → (depth : ℕ) (id : String) (before : List ObjectReference) → Looped id
      → (climb (fixed project folder) depth kind_folder id before tt).0 ≡ err too_long
  unfolding climb
  climb-cycle Looped next zero id before l = refl
  climb-cycle Looped next (suc depth) id before l =
      let (id', step, l') = next id l in rw step (climb-cycle Looped next depth id' _ l')

  -- A project under folders that only lead to one another, as in a parent cycle, gets the error
  -- of a chain that is too long, and no chain.
  pub scope_chain-cycle :
      (Looped : String → Type 0)
      → ((id : String)
          → Looped id
          → (id' : String) × (folder id ≡ ok (kind_folder, id')) × Looped id')
      → (project_id id : String) → project project_id ≡ ok (kind_folder, id)
      → Looped id
      → (scope_chain (fixed project folder) project_id tt).0 ≡ err too_long
  unfolding scope_chain
  scope_chain-cycle Looped next project_id id parent l =
      rw parent (climb-cycle Looped next max_chain_depth id _ l)
