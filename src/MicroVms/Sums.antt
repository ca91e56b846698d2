-- ===== src/MicroVms/Sums.antt =====
-- The allocations of the nodes are sums over the micro-VMs on them.
use infrastructure.Prelude.{
  ◌≡◌, refl, ◌∙◌, subst, inl, inr, Bool, true, false, List, [], ◌∷◌, Option, none, some, String,
  str_eq, eq_iff, if◌then◌else◌, Any, arith, Bool-cases,
}
use infrastructure.Prelude.Dict.{value_at, assign, value_at-assign}
use infrastructure.MicroVms.{
  MicroVm, Node, Alloc, Allocs, no_alloc, alloc_of, plus, no_allocs, counted, count_all,
}

-- The sums of the micro-VMs that stand on a node.
unfoldable pub total : String → List (String × MicroVm) → Alloc
total uid [] = no_alloc
total uid (t ∷ ts) = let rest = total uid ts in if str_eq (t.0) uid then plus rest (t.1) else rest

-- The live micro-VMs with the nodes they are on, the last first.
unfoldable pub tenants : List MicroVm → List (String × MicroVm) → List (String × MicroVm)
tenants [] before = before
tenants (v ∷ vs) before =
    if (v.body).deleting then tenants vs before else tenants vs (((v.body).node_name, v) ∷ before)

abbrev pub IsNode : List Node → String → Type 0
IsNode ns uid = Any (λ n. n.uid ≡ uid) ns

-- The allocations of the nodes are the sums of what stands on them.
abbrev pub IsSum : List Node → List (String × MicroVm) → Allocs → Type 0
IsSum nodes ts allocs =
    (uid : String) → IsNode nodes uid → value_at uid allocs ≡ some (total uid ts)

pub no_allocs-IsSum :
    (is_ready : Node → Bool) (nodes ns : List Node) → IsSum ns [] (no_allocs is_ready nodes ns)
unfolding no_allocs value_at total
no_allocs-IsSum is_ready nodes [] uid at = absurd at
no_allocs-IsSum is_ready nodes (n ∷ ns) uid at = elim (Bool-cases (str_eq n.uid uid)) [
  | inl e ↦ rw e refl
  | inr e ↦ elim at [
    | inl same ↦ absurd (ground (arith, e, same, eq_iff n.uid uid))
    | inr there ↦ rw e (no_allocs-IsSum is_ready nodes ns uid there)
  ]
]

-- A micro-VM more, with its node.
pub assign-IsSum :
    (nodes : List Node) (ts : List (String × MicroVm)) (allocs : Allocs) (node : String)
    (v : MicroVm)
    → IsSum nodes ts allocs
    → IsSum nodes ((node, v) ∷ ts) (assign node (plus (alloc_of (value_at node allocs)) v) allocs)
unfolding total
assign-IsSum nodes ts allocs node v sum uid at =
    let set = value_at-assign node uid (plus (alloc_of (value_at node allocs)) v) allocs in
    elim (Bool-cases (str_eq node uid)) [
      | inl e ↦
          let same : node ≡ uid = ground (arith, e, eq_iff node uid) in
          let here : value_at node allocs ≡ some (total uid ts) = rw same (sum uid at) in
          set ∙ rw (e, here) refl
      | inr e ↦ set ∙ rw e (sum uid at)
    ]

-- A micro-VM more that is not on a node.
elsewhere-IsSum :
    (nodes : List Node) (ts : List (String × MicroVm)) (allocs : Allocs) (node : String)
    (v : MicroVm)
    → value_at node allocs ≡ none
    → IsSum nodes ts allocs
    → IsSum nodes ((node, v) ∷ ts) allocs
unfolding total
elsewhere-IsSum nodes ts allocs node v absent sum uid at = elim (Bool-cases (str_eq node uid)) [
  | inl e ↦
      let same : node ≡ uid = ground (arith, e, eq_iff node uid) in
      let there : value_at node allocs ≡ some (total uid ts) = rw same (sum uid at) in cc
  | inr e ↦ rw e (sum uid at)
]

branch-IsSum :
    (nodes : List Node) (b : Bool) (ts ts' : List (String × MicroVm)) (allocs allocs' : Allocs)
    → IsSum nodes ts allocs
    → IsSum nodes ts' allocs'
    → IsSum nodes (if b then ts else ts') (if b then allocs else allocs')
branch-IsSum nodes true ts ts' allocs allocs' h h' = h
branch-IsSum nodes false ts ts' allocs allocs' h h' = h'

counted-IsSum :
    (is_ready : Node → Bool) (nodes : List Node) (ts : List (String × MicroVm)) (allocs : Allocs)
    (v : MicroVm) (o : Option Alloc)
    → value_at (v.body).node_name allocs ≡ o
    → IsSum nodes ts allocs
    → IsSum nodes (((v.body).node_name, v) ∷ ts) (counted is_ready nodes v o allocs)
counted-IsSum is_ready nodes ts allocs v none e sum =
    elsewhere-IsSum nodes ts allocs (v.body).node_name v e sum
counted-IsSum is_ready nodes ts allocs v (some a) e sum =
    subst
      (λ o.
        IsSum nodes (((v.body).node_name, v) ∷ ts)
          (assign (v.body).node_name (plus (alloc_of o) v) allocs))
      e (assign-IsSum nodes ts allocs (v.body).node_name v sum)

pub count_all-IsSum :
    (is_ready : Node → Bool) (nodes : List Node) (vs : List MicroVm) (ts : List (String × MicroVm))
    (allocs : Allocs)
    → IsSum nodes ts allocs
    → IsSum nodes (tenants vs ts) (count_all is_ready nodes vs allocs)
unfolding count_all tenants
count_all-IsSum is_ready nodes [] ts allocs sum = sum
count_all-IsSum is_ready nodes (v ∷ vs) ts allocs sum =
    let node : String = (v.body).node_name in
    let next : Allocs = counted is_ready nodes v (value_at node allocs) allocs in
    branch-IsSum nodes (v.body).deleting (tenants vs ts) (tenants vs ((node, v) ∷ ts))
      (count_all is_ready nodes vs allocs) (count_all is_ready nodes vs next)
      (count_all-IsSum is_ready nodes vs ts allocs sum)
      (count_all-IsSum is_ready nodes vs ((node, v) ∷ ts) next
        (counted-IsSum is_ready nodes ts allocs v (value_at node allocs) refl sum))
