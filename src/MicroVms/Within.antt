-- ===== src/MicroVms/Within.antt =====
-- A pass does not put more on a node than the node has.
use infrastructure.Prelude.{◌≡◌, ◌⊎◌, Bool, true, List, ◌++◌, String, Any}
use infrastructure.Registry.{Registry}
use infrastructure.MicroVms.{Placement, MicroVm, Node, NodePool, Pass}
use infrastructure.MicroVms.Choice.{IsFit}
use infrastructure.MicroVms.Sums.{total, IsSum}

module _ {S : Type 0} (vms : Registry S Placement) (is_ready : Node → Bool) (nodes : List Node)
    (pools : List NodePool) (base : List (String × MicroVm)) where
  -- A node either holds what it held, or a ready node of that UID has room for all that it holds.
  abbrev pub Holds : String → List (String × MicroVm) → Type 0
  Holds uid ts =
      (total uid ts ≡ total uid base)
      ⊎ Any (λ n. (n.uid ≡ uid) × (is_ready n ≡ true) × IsFit n (total uid ts)) nodes

  abbrev IsGood : Pass S → Type 0
  IsGood p =
      IsSum nodes (p.placed ++ base) p.allocs × ((uid : String) → Holds uid (p.placed ++ base))
