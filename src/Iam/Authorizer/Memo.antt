-- ===== src/Iam/Authorizer/Memo.antt =====
-- The authorizer of one request (`ForRequest`) against the live one.
use infrastructure.Prelude.{
  String, ◌≡◌, refl, sym, ◌∙◌, inl, inr, Bool, true, false, not, ◌&&◌, ◌||◌, List, [], ◌∷◌, map,
  none, some, Result, ok, arith, str_eq, eq_iff, Option-cases, if◌then◌else◌,
}
use mathlib.Core.Path.{ap₂}
use mathlib.Core.Option.{some-injective}
use infrastructure.Prelude.Dict.{value_at, assign, value_at-assign}
use infrastructure.Iam.Role.{Permission}
use infrastructure.Iam.Scope.{Parent}
use infrastructure.Iam.Scope.Answers.{Answers, Agrees, fixed}
use infrastructure.Iam.Binding.{IamBinding}
use infrastructure.Iam.Authorizer.{
  Authorizer, Request, new_request, memo_project, memo_folder, memo_bindings, request_lookup,
  find_decision, memo_decide, for_request, allowed,
}
use infrastructure.Iam.Authorizer.Decision.{fixed_bindings, decide_live-Agrees}

-- The arguments of a call of `Allowed`.
pub record Question : Type 0 where
  pub subject : String
  pub is_admin : Bool
  pub owner_uid : String
  pub project_id : String
  pub perm : Permission

-- The questions of one request to its copy of the authorizer `a`, in turn.
pub ask : {S : Type 0} → Authorizer S → List Question → Request S → List (Result Bool)
ask a [] r = []
ask a (q ∷ qs) r =
    let answer = allowed (for_request a) q.subject q.is_admin q.owner_uid q.project_id q.perm r in
    answer.0 ∷ ask a qs answer.1

-- Remembering what was answered keeps a cache right.
value_at-assign_agree :
    (f : String → Result Parent) (id : String) (answer : Result Parent)
    (m : List (String × Result Parent))
    → answer ≡ f id
    → ((j : String) (b : Result Parent) → value_at j m ≡ some b → b ≡ f j)
    → (j : String) (b : Result Parent) → value_at j (assign id answer m) ≡ some b
    → b ≡ f j
value_at-assign_agree f id answer m e agree j b h =
    ground (arith, eq_iff id j, value_at-assign id j answer m, agree j b)

branch-Agrees :
    {S : Type 0} (Inv : S → Type 0) (b : Bool) (x z : Result Bool × S)
    (y w : Result Bool × Unit {0})
    → ((x.0 ≡ y.0) × Inv x.1)
    → (b ≡ false → (z.0 ≡ w.0) × Inv z.1)
    → ((if b then x else z).0 ≡ (if b then y else w).0) × Inv (if b then x else z).1
branch-Agrees Inv true x z y w h k = h
branch-Agrees Inv false x z y w h k = k refl

module _ (project folder : String → Result Parent) (bindings : List IamBinding) where
  abbrev pub fixed_authorizer : Authorizer (Unit {0})
  fixed_authorizer = record {
    scopes = fixed project folder;
    bindings = fixed_bindings project folder bindings;
    decide = none;
  }

  abbrev pub verdict : String → Bool → String → String → Permission → Result Bool
  verdict subject is_admin owner_uid project_id perm =
      (allowed fixed_authorizer subject is_admin owner_uid project_id perm tt).0

  module _ {S : Type 0} (Inv : S → Type 0) where
    -- Whatever a request remembers is what would be answered now.
    pub record IsConsistent (r : Request S) : Type 0 where
      pub source_inv : Inv r.source
      pub projects_agree :
          (id : String) (answer : Result Parent)
          → value_at id r.projects ≡ some answer
          → answer ≡ project id
      pub folders_agree :
          (id : String) (answer : Result Parent)
          → value_at id r.folders ≡ some answer
          → answer ≡ folder id
      pub bindings_agree :
          (answer : Result (List IamBinding)) → r.bindings ≡ some answer → answer ≡ ok bindings
      pub decisions_agree :
          (subject project_id : String) (perm : Permission) (v : Result Bool)
          → find_decision subject project_id perm r.decisions ≡ some v
          → v ≡ verdict subject false "" project_id perm

    pub new_request-IsConsistent : (s : S) → Inv s → IsConsistent (new_request s)
    unfolding new_request value_at find_decision
    new_request-IsConsistent s inv = record {
      source_inv = inv;
      projects_agree = λ id answer h. cc;
      folders_agree = λ id answer h. cc;
      bindings_agree = λ answer h. cc;
      decisions_agree = λ subject project_id perm v h. cc;
    }

    module _ (a : Authorizer S) (answers : Answers a.scopes Inv project folder)
        (listed : (s : S) → Inv s → ((a.bindings s).0 ≡ ok bindings) × Inv (a.bindings s).1) where
      memo_project-Agrees :
          (id : String) (r : Request S)
          → IsConsistent r
          → ((memo_project a.scopes id r).0 ≡ project id)
            × IsConsistent (memo_project a.scopes id r).1
      unfolding memo_project
      memo_project-Agrees id r c = elim (Option-cases (value_at id r.projects)) [
        | inl e ↦
            let asked = answers.project_answer id r.source c.source_inv in
            rw (e, memo_project)
              (
                asked.0,
                record {
                  source_inv = asked.1;
                  projects_agree =
                      value_at-assign_agree project id _ r.projects asked.0 c.projects_agree;
                  folders_agree = c.folders_agree;
                  bindings_agree = c.bindings_agree;
                  decisions_agree = c.decisions_agree;
                },
              )
        | inr (answer, e) ↦ rw (e, memo_project) (c.projects_agree id answer e, c)
      ]

      memo_folder-Agrees :
          (id : String) (r : Request S)
          → IsConsistent r
          → ((memo_folder a.scopes id r).0 ≡ folder id) × IsConsistent (memo_folder a.scopes id r).1
      unfolding memo_folder
      memo_folder-Agrees id r c = elim (Option-cases (value_at id r.folders)) [
        | inl e ↦
            let asked = answers.folder_answer id r.source c.source_inv in
            rw (e, memo_folder)
              (
                asked.0,
                record {
                  source_inv = asked.1;
                  projects_agree = c.projects_agree;
                  folders_agree =
                      value_at-assign_agree folder id _ r.folders asked.0 c.folders_agree;
                  bindings_agree = c.bindings_agree;
                  decisions_agree = c.decisions_agree;
                },
              )
        | inr (answer, e) ↦ rw (e, memo_folder) (c.folders_agree id answer e, c)
      ]

      memo_bindings-Agrees :
          (r : Request S)
          → IsConsistent r
          → ((memo_bindings a.bindings r).0 ≡ ok bindings)
            × IsConsistent (memo_bindings a.bindings r).1
      unfolding memo_bindings
      memo_bindings-Agrees r c = elim (Option-cases r.bindings) [
        | inl e ↦
            let asked = listed r.source c.source_inv in
            rw (e, memo_bindings)
              (
                asked.0,
                record {
                  source_inv = asked.1;
                  projects_agree = c.projects_agree;
                  folders_agree = c.folders_agree;
                  bindings_agree = λ answer h. sym (some-injective _ _ h) ∙ asked.0;
                  decisions_agree = c.decisions_agree;
                },
              )
        | inr (answer, e) ↦ rw (e, memo_bindings) (c.bindings_agree answer e, c)
      ]

      request_lookup-Answers : Answers (request_lookup a.scopes) IsConsistent project folder
      unfolding request_lookup
      request_lookup-Answers = record {
        project_answer = memo_project-Agrees;
        folder_answer = memo_folder-Agrees;
      }

      abbrev live : Authorizer (Request S)
      live = record {
        scopes = request_lookup a.scopes;
        bindings = memo_bindings a.bindings;
        decide = none;
      }

      live-Agrees :
          (subject project_id : String) (perm : Permission) (r : Request S)
          → IsConsistent r
          → ((allowed live subject false "" project_id perm r).0
              ≡ verdict subject false "" project_id perm)
            × IsConsistent (allowed live subject false "" project_id perm r).1
      unfolding allowed
      live-Agrees subject project_id perm r c =
          branch-Agrees IsConsistent (str_eq project_id "") _ _ _ _ (refl, c)
            (λ _.
              decide_live-Agrees project folder bindings IsConsistent (request_lookup a.scopes)
                (memo_bindings a.bindings) request_lookup-Answers memo_bindings-Agrees subject
                project_id perm r c)

      memo_decide-Agrees :
          (subject project_id : String) (perm : Permission) (r : Request S)
          → IsConsistent r
          → ((memo_decide a subject project_id perm r).0 ≡ verdict subject false "" project_id perm)
            × IsConsistent (memo_decide a subject project_id perm r).1
      unfolding memo_decide
      memo_decide-Agrees subject project_id perm r c =
          elim (Option-cases (find_decision subject project_id perm r.decisions)) [
            | inl e ↦
                let (same, kept) = live-Agrees subject project_id perm r c in
                rw (e, memo_decide)
                  (
                    same,
                    record {
                      source_inv = kept.source_inv;
                      projects_agree = kept.projects_agree;
                      folders_agree = kept.folders_agree;
                      bindings_agree = kept.bindings_agree;
                      decisions_agree = λ subject' project_id' perm' v h. ground (
                        arith,
                        eq_iff subject subject',
                        eq_iff project_id project_id',
                        eq_iff perm perm',
                        kept.decisions_agree subject' project_id' perm' v,
                      );
                    },
                  )
            | inr (v, e) ↦ rw (e, memo_decide) (c.decisions_agree subject project_id perm v e, c)
          ]

      -- Within a request the copy of `ForRequest` answers as the live authorizer does.
      pub for_request-Agrees :
          (subject : String) (is_admin : Bool) (owner_uid project_id : String) (perm : Permission)
          → Agrees IsConsistent
              (allowed (for_request a) subject is_admin owner_uid project_id perm)
              (allowed fixed_authorizer subject is_admin owner_uid project_id perm)
      unfolding allowed for_request
      for_request-Agrees subject is_admin owner_uid project_id perm r c =
          branch-Agrees IsConsistent
            (is_admin || (not (str_eq owner_uid "") && str_eq owner_uid subject)) (ok true, r) _
            (ok true, tt) _ (refl, c)
            (λ _.
              branch-Agrees IsConsistent (str_eq project_id "") (ok false, r) _ (ok false, tt) _
                (refl, c)
                (λ e. rw (e, verdict) at (memo_decide-Agrees subject project_id perm r c)))

      ask-verdicts :
          (qs : List Question) (r : Request S)
          → IsConsistent r
          → ask a qs r ≡ map (λ q. verdict q.subject q.is_admin q.owner_uid q.project_id q.perm) qs
      unfolding ask
      ask-verdicts [] r c = refl
      ask-verdicts (q ∷ qs) r c =
          let (same, kept) =
            for_request-Agrees q.subject q.is_admin q.owner_uid q.project_id q.perm r c in
          ap₂ ◌∷◌ same (ask-verdicts qs _ kept)

      -- However many questions a request asks its copy of the authorizer, each gets the answer that
      -- the live authorizer gives, as long as the answers of the lookups and the stored bindings do
      -- not change while the request lasts.
      pub for_request_same :
          (qs : List Question) (s : S)
          → Inv s
          → ask a qs (new_request s)
            ≡ map (λ q. verdict q.subject q.is_admin q.owner_uid q.project_id q.perm) qs
      for_request_same qs s inv = ask-verdicts qs (new_request s) (new_request-IsConsistent s inv)
