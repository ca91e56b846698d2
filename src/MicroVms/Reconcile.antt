-- ===== src/MicroVms/Reconcile.antt =====
-- internal/controllers/microvm_scheduler.go: `Reconcile`, up to the status of the nodes and the pools.
use infrastructure.Prelude.{
  Bool, not, ◌||◌, List, [], ◌∷◌, Option, none, some, String, str_eq, if◌then◌else◌, Result, ok,
  err, Error, wrap,
}
use infrastructure.Prelude.Dict.{value_at, assign}
use infrastructure.Registry.{Registry}
use infrastructure.MicroVms.{
  Placement, MicroVm, Node, NodePool, alloc_of, plus, pool_selector, pick_node, no_allocs, ready_at,
  count_all, Pass, moved, assign_node, evict,
}

-- The micro-VMs after the evictions, the errors, and the store.
pub record Evicted (S : Type 0) : Type 0 where
  pub kept : List MicroVm
  pub errors : List Error
  pub state : S

module _ {S : Type 0} (vms : Registry S Placement) (is_ready : Node → Bool) (nodes : List Node)
    (pools : List NodePool) where
  abbrev pub with_evicted : MicroVm → Result (Unit {0}) → Evicted S → Evicted S
  with_evicted v (ok t) rest = record rest { kept = moved "" v ∷ rest.kept }
  with_evicted v (err e) rest = record rest {
    kept = v ∷ rest.kept;
    errors = wrap "evict" e ∷ rest.errors;
  }

  -- Micro-VMs on nodes that are not ready lose their node.
  unfoldable pub evict_all : List MicroVm → S → Evicted S
  evict_all [] s = record { kept = []; errors = []; state = s }
  evict_all (v ∷ vs) s =
      let stay = evict_all vs s in
      let gone = evict_all vs (evict vms v.uid s).1 in
      if (v.body).deleting
        || str_eq (v.body).node_name ""
        || ready_at is_ready nodes nodes (v.body).node_name
      then record stay { kept = v ∷ stay.kept }
      else with_evicted v (evict vms v.uid s).0 gone

  abbrev pub with_assigned : String → MicroVm → Result (Unit {0}) × S → Pass S → Pass S
  with_assigned node v (ok t, s) p = record p {
    allocs = assign node (plus (alloc_of (value_at node p.allocs)) v) p.allocs;
    placed = (node, v) ∷ p.placed;
    state = s;
  }
  with_assigned node v (err e, s) p = record p { errors = wrap "schedule" e ∷ p.errors; state = s }

  abbrev pub place_on : String → MicroVm → Pass S → Pass S
  place_on node v p =
      if str_eq node "" then p else with_assigned node v (assign_node vms v.uid node p.state) p

  -- A micro-VM of a missing pool stays where it is.
  abbrev pub place : MicroVm → Option (List (String × String)) → Pass S → Pass S
  place v none p = p
  place v (some selector) p = place_on (pick_node is_ready nodes p.allocs selector v) v p

  unfoldable pub place_all : List MicroVm → Pass S → Pass S
  place_all [] p = p
  place_all (v ∷ vs) p =
      if (v.body).deleting || not (str_eq (v.body).node_name "")
      then place_all vs p
      else place_all vs (place v (pool_selector pools (v.body).node_pool_id) p)

  -- The pass over the listed micro-VMs.
  unfoldable pub reconcile_placement : List MicroVm → S → Pass S
  reconcile_placement listed s =
      let e = evict_all listed s in
      place_all e.kept (record {
        allocs = count_all is_ready nodes e.kept (no_allocs is_ready nodes nodes);
        placed = [];
        errors = e.errors;
        state = e.state;
      })
