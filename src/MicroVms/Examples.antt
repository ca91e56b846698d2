-- ===== src/MicroVms/Examples.antt =====
-- Two nodes, one of which has no room, and two micro-VMs.
use infrastructure.Prelude.{
  ℕ, ◌≡◌, refl, true, false, List, [], ◌∷◌, map, String, str_eq, if◌then◌else◌, Result, ok, err,
  failure,
}
use infrastructure.Prelude.Dict.{value_at, assign}
use infrastructure.State.{Files, get as file_get, compare_and_swap, resolve, split, clean, join}
use infrastructure.State.Files.{file_store}
use infrastructure.Registry.{Registry, get, put, key, load, read_expected, swap_in}
use infrastructure.MicroVms.{
  Placement, MicroVm, Node, count_all, no_allocs, pick_node, pick_from, has_room, plus,
  match_labels, pool_selector, assign_node,
}
use infrastructure.MicroVms.Reconcile.{place_all, evict_all, reconcile_placement}

abbrev host : String → ℕ → Node
host uid memory = record {
  uid = uid;
  labels = [];
  cpus = 4;
  memory_mb = memory;
  max_pods = 0;
  last_seen = "now";
}

abbrev vm : String → MicroVm
vm uid = record {
  api_version = "infra/v1";
  kind = "MicroVM";
  uid = uid;
  resource_version = "";
  body = record { deleting = false; node_name = ""; node_pool_id = ""; vcpus = 2; memory_mb = 512 };
}

abbrev decoded_vm : String → Result MicroVm
decoded_vm bytes = if str_eq bytes "" then err (failure "no JSON") else ok (vm bytes)

abbrev vms : Registry Files Placement
vms = record {
  store = file_store;
  codec = record { marshal = λ res. ok res.uid; unmarshal = decoded_vm; revision = λ bytes. bytes };
  kind = "MicroVM";
}

abbrev nodes : List Node
nodes = host "small" 256 ∷ host "large" 1024 ∷ []

abbrev stored : Files
stored = ("MicroVM/a", "a") ∷ ("MicroVM/b", "b") ∷ []

-- Both are put on the node that has room.
both :
    map
      (λ t. t.0)
      (reconcile_placement vms (λ n. true) nodes [] (vm "a" ∷ vm "b" ∷ []) stored).placed
    ≡ "large" ∷ "large" ∷ []
unfolding reconcile_placement evict_all place_all count_all no_allocs pick_node pick_from has_room
    plus match_labels pool_selector assign_node get put key load read_expected swap_in file_get
    compare_and_swap resolve split clean join value_at assign
both = refl
