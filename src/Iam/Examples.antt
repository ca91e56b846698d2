-- ===== src/Iam/Examples.antt =====
-- A small hierarchy: project p1 in folder f1 in organization o1, with alice an editor of the folder.
use infrastructure.Prelude.{
  String, ◌≡◌, refl, ◌↔◌, ◌≢◌, ◌⊎◌, inl, inr, true, false, List, [], ◌∷◌, map, Result, ok, err,
  not_found, str_eq, if◌then◌else◌,
}
use infrastructure.Prelude.Dict.{value_at, assign}
use infrastructure.Resource.Meta.{ObjectReference}
use infrastructure.Iam.Role.{permissions, role_editor, permission_read}
use infrastructure.Iam.Scope.{Parent, climb, scope_chain, scope}
use infrastructure.Iam.Scope.Answers.{Answers, fixed}
use infrastructure.Iam.Scope.Ancestry.{IsChain, scope_chain_iff}
use infrastructure.Iam.Binding.{IamBinding, grant_bindings, effective_permissions, has_permission}
use infrastructure.Iam.Binding.Validate.{
  validate_binding, check_members, is_member, validate_binding-effective_permissions,
}
use infrastructure.Iam.Authorizer.{allowed, new_request, decide_live}
use infrastructure.Iam.Authorizer.Decision.{IsGranted, allowed_iff, fixed_bindings}
use infrastructure.Iam.Authorizer.Memo.{Question, ask, verdict, for_request_same, fixed_authorizer}

abbrev project_of : String → Result Parent
project_of id = if str_eq id "p1" then ok ("folder", "f1") else err not_found

abbrev folder_of : String → Result Parent
folder_of id = if str_eq id "f1" then ok ("organization", "o1") else err not_found

abbrev alice : String
alice = "alice"

abbrev bob : String
bob = "bob"

abbrev p1 : String
p1 = "p1"

abbrev chain : List ObjectReference
chain = scope "project" "p1" ∷ scope "folder" "f1" ∷ scope "organization" "o1" ∷ []

abbrev editors : List IamBinding
editors =
    record { resource = scope "folder" "f1"; role = role_editor; members = "user:alice" ∷ [] } ∷ []

-- A folder that is its own parent.
abbrev looped_folder : String → Result Parent
looped_folder id = ok ("folder", id)

abbrev Anywhere : Unit {0} → Type 0
Anywhere s = Unit {0}

fixed-Answers : Answers (fixed project_of folder_of) Anywhere project_of folder_of
fixed-Answers = record {
  project_answer = λ id s inv. (refl, tt);
  folder_answer = λ id s inv. (refl, tt);
}

scope_chain_iff_example :
    ((scope_chain (fixed project_of folder_of) "p1" tt).0 ≡ ok chain)
    ↔ IsChain project_of folder_of "p1" chain
scope_chain_iff_example = scope_chain_iff project_of folder_of "p1" chain

allowed_iff_example :
    ((allowed (fixed_authorizer project_of folder_of editors) alice false bob p1 "write" tt).0
      ≡ ok true)
    ↔ ((false ≡ true)
        ⊎ ((bob ≢ "") × (bob ≡ alice))
        ⊎ ((p1 ≢ "") × IsGranted project_of folder_of editors alice p1 "write"))
allowed_iff_example =
    allowed_iff project_of folder_of editors Anywhere (fixed project_of folder_of)
      (fixed_bindings project_of folder_of editors) fixed-Answers (λ s inv. (refl, tt)) alice false
      bob p1 "write" tt tt

-- So alice may write in the project.
alice_writes :
    (allowed (fixed_authorizer project_of folder_of editors) alice false bob p1 "write" tt).0
    ≡ ok true
unfolding allowed decide_live scope_chain climb effective_permissions grant_bindings has_permission
    permissions value_at assign
alice_writes = refl

abbrev write_then_read : List Question
write_then_read =
    record {
      subject = "alice";
      is_admin = false;
      owner_uid = "";
      project_id = "p1";
      perm = "write";
    }
    ∷ record {
      subject = "alice";
      is_admin = false;
      owner_uid = "";
      project_id = "p1";
      perm = "read";
    }
    ∷ []

for_request_same_example :
    ask (fixed_authorizer project_of folder_of editors) write_then_read (new_request tt)
    ≡ map
        (λ q.
          verdict project_of folder_of editors q.subject q.is_admin q.owner_uid q.project_id q.perm)
        write_then_read
for_request_same_example =
    for_request_same project_of folder_of editors Anywhere
      (fixed_authorizer project_of folder_of editors) fixed-Answers (λ s inv. (refl, tt))
      write_then_read tt tt

abbrev folder_editors : IamBinding
folder_editors = record {
  resource = scope "folder" "f1";
  role = role_editor;
  members = "user:alice" ∷ [];
}

editors_valid : validate_binding folder_editors ≡ ok tt
unfolding validate_binding check_members is_member
editors_valid = refl

validate_binding_example :
    has_permission
      (effective_permissions (folder_editors ∷ folder_editors ∷ []) chain "user:alice")
      permission_read
    ≡ true
validate_binding_example =
    validate_binding-effective_permissions folder_editors (folder_editors ∷ folder_editors ∷ [])
      chain "user:alice" (inr (inl refl)) editors_valid (inr (inl (refl, refl))) (inl refl)
