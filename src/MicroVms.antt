-- ===== src/MicroVms.antt =====
-- internal/controllers/microvm_scheduler.go, and `pickNode` and `matchLabels` of scheduler.go: a pass
-- that puts micro-VMs on nodes. Amounts are not negative; a CPU amount, which the source sums as a
-- float, is a whole number here and exact. The UIDs of nodes differ. The parsing of a time is a
-- parameter.
pub mod Reconcile
pub mod Choice
pub mod Sums
pub mod Within
mod Examples
use infrastructure.Prelude.{
  ℕ, zero, suc, ◌+◌, Bool, true, false, not, ◌&&◌, ◌||◌, List, [], ◌∷◌, Option, none, some, String,
  str_eq, ltb, leb, ◌==◌, if◌then◌else◌, Result, ok, err, Error,
}
use infrastructure.Prelude.Dict.{value_at, assign}
use infrastructure.Prelude.Exec.{Exec, pure, ◌>>=◌}
use infrastructure.Registry.{Resource, Registry, get, put, list}

-- What the scheduler reads of a micro-VM beside its metadata's UID.
pub record Placement : Type 0 where
  pub deleting : Bool
  pub node_name : String
  pub node_pool_id : String
  pub vcpus : ℕ
  pub memory_mb : ℕ

abbrev pub MicroVm : Type 0
MicroVm = Resource Placement

-- `Node` and `NodePool`, with their UIDs.
pub record Node : Type 0 where
  pub uid : String
  pub labels : List (String × String)
  pub cpus : ℕ
  pub memory_mb : ℕ
  pub max_pods : ℕ
  pub last_seen : String

pub record NodePool : Type 0 where
  pub uid : String
  pub node_selector : List (String × String)

-- `nodeAlloc`
pub record Alloc : Type 0 where
  pub cpus : ℕ
  pub mem : ℕ
  pub pods : ℕ

abbrev pub no_alloc : Alloc
no_alloc = record { cpus = 0; mem = 0; pods = 0 }

-- a.cpus += …; a.mem += …; a.pods++
unfoldable pub plus : Alloc → MicroVm → Alloc
plus a v = record {
  cpus = a.cpus + (v.body).vcpus;
  mem = a.mem + (v.body).memory_mb;
  pods = a.pods + 1;
}

-- A label that is not there reads as empty.
abbrev pub label : Option String → String
label none = ""
label (some v) = v

unfoldable pub match_labels : List (String × String) → List (String × String) → Bool
match_labels labels [] = true
match_labels labels (entry ∷ selector) =
    let rest = match_labels labels selector in
    if str_eq (label (value_at (entry.0) labels)) (entry.1) then rest else false

-- The selector of a pool; `none` when the pool is missing.
unfoldable pub pool_selector : List NodePool → String → Option (List (String × String))
pool_selector [] id = if str_eq id "" then some [] else none
pool_selector (p ∷ ps) id =
    let rest = pool_selector ps id in
    if str_eq id "" then some [] else if str_eq p.uid id then some p.node_selector else rest

-- now.Sub(t) <= window
abbrev pub is_recent : ℕ → ℕ → Option ℕ → Bool
is_recent now window none = false
is_recent now window (some t) = leb now (t + window)

unfoldable pub node_ready : (String → Option ℕ) → ℕ → ℕ → Node → Bool
node_ready parse_time now window n =
    if str_eq n.last_seen "" then false else is_recent now window (parse_time n.last_seen)

abbrev pub Allocs : Type 0
Allocs = List (String × Alloc)

-- alloc[uid], of a node that is there.
abbrev pub alloc_of : Option Alloc → Alloc
alloc_of none = no_alloc
alloc_of (some a) = a

module _ (is_ready : Node → Bool) (nodes : List Node) where
  -- The tests of `pickNode`, in their order.
  unfoldable pub has_room : Allocs → List (String × String) → MicroVm → Node → Bool
  has_room allocs selector v n =
      let a = alloc_of (value_at n.uid allocs) in
      if not (is_ready n) || not (match_labels n.labels selector)
      then false
      else if ltb 0 n.max_pods && leb n.max_pods a.pods
      then false
      else if ltb n.cpus (a.cpus + (v.body).vcpus)
      then false
      else not (ltb n.memory_mb (a.mem + (v.body).memory_mb))

  -- The loop of `pickNode`, with the best node so far.
  unfoldable pub pick_from :
      Allocs → List (String × String) → MicroVm → List Node → String → ℕ → String
  pick_from allocs selector v [] best best_pods = best
  pick_from allocs selector v (n ∷ ns) best best_pods =
      let pods = (alloc_of (value_at n.uid allocs)).pods in
      let kept = pick_from allocs selector v ns best best_pods in
      let taken = pick_from allocs selector v ns n.uid pods in
      if has_room allocs selector v n && (str_eq best "" || ltb pods best_pods) then taken else kept

  unfoldable pub pick_node : Allocs → List (String × String) → MicroVm → String
  pick_node allocs selector v = pick_from allocs selector v nodes "" 0

  -- The allocations of the nodes before any micro-VM is counted.
  unfoldable pub no_allocs : List Node → Allocs
  no_allocs [] = []
  no_allocs (n ∷ ns) = (n.uid, no_alloc) ∷ no_allocs ns

  -- ready[uid], false for a node that is missing.
  unfoldable pub ready_at : List Node → String → Bool
  ready_at [] uid = false
  ready_at (n ∷ ns) uid =
      let rest = ready_at ns uid in if str_eq n.uid uid then is_ready n else rest

  -- A live micro-VM counts on its node, if that is there.
  abbrev pub counted : MicroVm → Option Alloc → Allocs → Allocs
  counted v none allocs = allocs
  counted v (some a) allocs = assign (v.body).node_name (plus a v) allocs

  unfoldable pub count_all : List MicroVm → Allocs → Allocs
  count_all [] allocs = allocs
  count_all (v ∷ vs) allocs =
      if (v.body).deleting
      then count_all vs allocs
      else count_all vs (counted v (value_at (v.body).node_name allocs) allocs)

-- What a pass leaves: the allocations, the micro-VMs that were put on a node, the last first, and errors.
pub record Pass (S : Type 0) : Type 0 where
  pub allocs : Allocs
  pub placed : List (String × MicroVm)
  pub errors : List Error
  pub state : S

abbrev pub moved : String → MicroVm → MicroVm
moved node v = record v { body = record (v.body) { node_name = node } }

module _ {S : Type 0} (vms : Registry S Placement) where
  -- What `assign` and `evict` write on the latest copy.
  abbrev pub move : String → MicroVm → Exec S (Unit {0})
  move node cur =
      if str_eq (cur.body).node_name node
      then pure tt
      else put vms (moved node cur) >>= (λ r. pure tt)

  unfoldable pub assign_node : String → String → Exec S (Unit {0})
  assign_node uid node = get vms uid >>= move node

  unfoldable pub evict : String → Exec S (Unit {0})
  evict uid = assign_node uid ""
