-- ===== src/Iam/Scope.antt =====
-- internal/iam/resolve.go: the chain of scopes above a project.
-- A lookup may change a state of its own (the cache of a request), so it is an `Exec` call.
pub mod Ancestry
pub mod Answers
use infrastructure.Prelude.{
  ℕ, zero, suc, String, List, [], ◌∷◌, ◌++◌, Error, failure, str_eq, if◌then◌else◌,
}
use infrastructure.Prelude.Exec.{Exec, pure, raise, ◌>>=◌}
use infrastructure.Resource.Meta.{ObjectReference}

abbrev pub kind_project : String
kind_project = "project"

abbrev pub kind_folder : String
kind_folder = "folder"

abbrev pub kind_organization : String
kind_organization = "organization"

-- ParentKind and ParentID.
abbrev pub Parent : Type 0
Parent = String × String

pub record ScopeLookup (S : Type 0) : Type 0 where
  pub project_parent : String → Exec S Parent
  pub folder_parent : String → Exec S Parent

abbrev pub max_chain_depth : ℕ
max_chain_depth = 64

abbrev pub too_long : Error
too_long = failure "iam: parent chain exceeds 64 hops (cycle?)"

abbrev pub scope : String → String → ObjectReference
scope kind uid = record { kind = kind; uid = uid; name = "" }

-- The loop of `ScopeChain`: `depth` rounds are left.
unfoldable pub climb :
    {S : Type 0}
    → ScopeLookup S
    → ℕ
    → String
    → String
    → List ObjectReference
    → Exec S (List ObjectReference)
climb lookup zero kind id chain = raise too_long
climb lookup (suc depth) kind id chain =
    let above = (do
      (kind', id') ← lookup.folder_parent id
      climb lookup depth kind' id' (chain ++ scope kind_folder id ∷ [])) in
    if str_eq kind kind_organization
    then pure (chain ++ scope kind_organization id ∷ [])
    else if str_eq kind kind_folder
    then above
    else raise (failure "iam: unknown parent kind")

unfoldable pub scope_chain : {S : Type 0} → ScopeLookup S → String → Exec S (List ObjectReference)
scope_chain lookup project_id = do
  (kind, id) ← lookup.project_parent project_id
  climb lookup max_chain_depth kind id (scope kind_project project_id ∷ [])
