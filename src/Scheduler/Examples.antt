-- ===== src/Scheduler/Examples.antt =====
-- Two nodes that fit a demand, of which packing prefers the fuller one.
use infrastructure.Prelude.{List, [], ◌∷◌, String}
use infrastructure.Prelude.Int.{pos}
use infrastructure.Scheduler.{Resources, Node, bin_pack, schedule}
use infrastructure.Scheduler.Best.{IsPlacement, schedule-IsPlacement}

abbrev node : String → Resources → Node
node name used = record {
  name = name;
  capacity = record { milli_cpu = pos 4000; memory_mb = pos 8192 };
  allocated = used;
}

abbrev two_nodes : List Node
two_nodes =
    node "idle" (record { milli_cpu = pos 0; memory_mb = pos 0 })
    ∷ node "busy" (record { milli_cpu = pos 2000; memory_mb = pos 4096 })
    ∷ []

abbrev demand : Resources
demand = record { milli_cpu = pos 1000; memory_mb = pos 1024 }

schedule-IsPlacement_example :
    IsPlacement bin_pack demand two_nodes (schedule demand two_nodes bin_pack)
schedule-IsPlacement_example = schedule-IsPlacement demand two_nodes bin_pack
