-- ===== src/Iam/Authorizer.antt =====
-- internal/iam/authorizer.go: the decision, and its copy that remembers answers for one request.
-- The mutexes of the request's caches make each value_at one step, and are not modelled further.
pub mod Decision
pub mod Memo
use Prim.Native.String.{◌++◌}
use infrastructure.Prelude.{
  String, Bool, true, false, ◌&&◌, ◌||◌, not, List, [], ◌∷◌, Option, none, some, Result, ok, str_eq,
  if◌then◌else◌,
}
use infrastructure.Prelude.Dict.{value_at, assign}
use infrastructure.Prelude.Exec.{Exec, pure, ◌>>=◌}
use infrastructure.Iam.Role.{Permission}
use infrastructure.Iam.Scope.{Parent, ScopeLookup, scope_chain}
use infrastructure.Iam.Binding.{IamBinding, effective_permissions, has_permission}

abbrev pub Decide : Type 0 → Type 0
Decide S = String → String → Permission → Exec S Bool

pub record Authorizer (S : Type 0) : Type 0 where
  pub scopes : ScopeLookup S
  pub bindings : Exec S (List IamBinding)
  pub decide : Option (Decide S)

unfoldable pub user_principal : String → String
user_principal subject = "user:" ++ subject

-- The part of `Allowed` below the fast paths.
unfoldable pub decide_live : {S : Type 0} → ScopeLookup S → Exec S (List IamBinding) → Decide S
unfolding user_principal
decide_live scopes bindings subject project_id perm = do
  chain ← scope_chain scopes project_id
  bs ← bindings
  pure (has_permission (effective_permissions bs chain (user_principal subject)) perm)

unfoldable pub allowed :
    {S : Type 0} → Authorizer S → String → Bool → String → String → Permission → Exec S Bool
allowed a subject is_admin owner_uid project_id perm s =
    if is_admin || (not (str_eq owner_uid "") && str_eq owner_uid subject)
    then (ok true, s)
    else if str_eq project_id ""
    then (ok false, s)
    else elim a.decide [
      | none ↦ decide_live a.scopes a.bindings subject project_id perm s
      | some decide ↦ decide subject project_id perm s
    ]

-- `decisionKey` and `decision`.
pub record Decided : Type 0 where
  pub subject : String
  pub project : String
  pub perm : Permission
  pub verdict : Result Bool

-- What one request remembers, beside the state `source` of the authorizer that it copies.
pub record Request (S : Type 0) : Type 0 where
  pub source : S
  pub projects : List (String × Result Parent)
  pub folders : List (String × Result Parent)
  pub bindings : Option (Result (List IamBinding))
  pub decisions : List Decided

unfoldable pub new_request : {S : Type 0} → S → Request S
new_request s = record { source = s; projects = []; folders = []; bindings = none; decisions = [] }

unfoldable pub memo_project : {S : Type 0} → ScopeLookup S → String → Exec (Request S) Parent
memo_project lookup_source id r = elim (value_at id r.projects) [
  | some answer ↦ (answer, r)
  | none ↦
      let asked = lookup_source.project_parent id r.source in
      (asked.0, record r { source = asked.1; projects = assign id asked.0 r.projects })
]

unfoldable pub memo_folder : {S : Type 0} → ScopeLookup S → String → Exec (Request S) Parent
memo_folder lookup_source id r = elim (value_at id r.folders) [
  | some answer ↦ (answer, r)
  | none ↦
      let asked = lookup_source.folder_parent id r.source in
      (asked.0, record r { source = asked.1; folders = assign id asked.0 r.folders })
]

-- `once.Do`.
unfoldable pub memo_bindings :
    {S : Type 0} → Exec S (List IamBinding) → Exec (Request S) (List IamBinding)
memo_bindings bindings_source r = elim r.bindings [
  | some answer ↦ (answer, r)
  | none ↦
      let asked = bindings_source r.source in
      (asked.0, record r { source = asked.1; bindings = some asked.0 })
]

unfoldable pub request_lookup : {S : Type 0} → ScopeLookup S → ScopeLookup (Request S)
unfolding memo_project memo_folder
request_lookup lookup_source = record {
  project_parent = memo_project lookup_source;
  folder_parent = memo_folder lookup_source;
}

unfoldable pub find_decision : String → String → Permission → List Decided → Option (Result Bool)
find_decision subject project perm [] = none
find_decision subject project perm (d ∷ ds) =
    if str_eq d.subject subject && str_eq d.project project && str_eq d.perm perm
    then some d.verdict
    else find_decision subject project perm ds

-- `live.Allowed(subject, false, "", project, perm)`, remembered.
unfoldable pub memo_decide : {S : Type 0} → Authorizer S → Decide (Request S)
unfolding find_decision allowed decide_live request_lookup memo_bindings
memo_decide a subject project perm r = elim (find_decision subject project perm r.decisions) [
  | some verdict ↦ (verdict, r)
  | none ↦
      let live =
        allowed
          (record {
            scopes = request_lookup a.scopes;
            bindings = memo_bindings a.bindings;
            decide = none;
          })
          subject false "" project perm r in
      (
        live.0,
        record (live.1) {
          decisions =
              record { subject = subject; project = project; perm = perm; verdict = live.0 }
              ∷ (live.1).decisions;
        },
      )
]

unfoldable pub for_request : {S : Type 0} → Authorizer S → Authorizer (Request S)
unfolding memo_decide
for_request a = record {
  scopes = request_lookup a.scopes;
  bindings = memo_bindings a.bindings;
  decide = some (memo_decide a);
}
