-- ===== src/Scheduler.antt =====
-- internal/scheduler/scheduler.go: the placement of a workload on one of some nodes. A resource
-- amount is an integer whose sums do not overflow. `sort.Slice` is a sort by insertion: nodes that
-- neither precedes the other have the same name, which is all that is returned.
pub mod Best
mod Examples
use Prim.Native.String.{compare}
use Prim.Native.Nat.{Ordering}
use infrastructure.Prelude.{
  Bool, true, false, ◌&&◌, ◌||◌, not, List, [], ◌∷◌, String, Option, none, some, if◌then◌else◌,
}
use infrastructure.Prelude.Int.{ℤ, pos, ◌+ℤ◌, ◌-ℤ◌, leb_ℤ, ltb_ℤ}

pub record Resources : Type 0 where
  pub milli_cpu : ℤ
  pub memory_mb : ℤ

pub record Node : Type 0 where
  pub name : String
  pub capacity : Resources
  pub allocated : Resources

unfoldable pub free : Node → Resources
free n = record {
  milli_cpu = n.capacity.milli_cpu -ℤ n.allocated.milli_cpu;
  memory_mb = n.capacity.memory_mb -ℤ n.allocated.memory_mb;
}

unfoldable pub fits : Resources → Resources → Bool
fits r demand = leb_ℤ demand.milli_cpu r.milli_cpu && leb_ℤ demand.memory_mb r.memory_mb

unfoldable pub score : Resources → ℤ
score r = r.milli_cpu +ℤ r.memory_mb

pub data Strategy : Type 0 where
  bin_pack spread : Strategy

unfoldable pub rank : Strategy → Resources → ℤ
unfolding score
rank bin_pack r = pos 0 -ℤ score r
rank spread r = score r

abbrev pub name_before : String → String → Bool
name_before a b = elim (compare a b) [ Ordering.lt ↦ true | _ ↦ false ]

-- The order that `Schedule` sorts by.
unfoldable pub precedes : Strategy → Node → Node → Bool
precedes st a b =
    let ra = rank st (free a) in
    let rb = rank st (free b) in
    if ltb_ℤ rb ra then true else if ltb_ℤ ra rb then false else name_before a.name b.name

unfoldable pub insert : Strategy → Node → List Node → List Node
insert st n [] = n ∷ []
insert st n (m ∷ ms) = let rest = insert st n ms in if precedes st n m then n ∷ m ∷ ms else m ∷ rest

unfoldable pub sort : Strategy → List Node → List Node
unfolding insert
sort st [] = []
sort st (n ∷ ns) = insert st n (sort st ns)

unfoldable pub fitting : Resources → List Node → List Node
fitting demand [] = []
fitting demand (n ∷ ns) =
    let rest = fitting demand ns in if fits (free n) demand then n ∷ rest else rest

abbrev pub first_name : List Node → Option String
first_name [] = none
first_name (n ∷ ns) = some n.name

-- `none` is `ErrNoFit`.
unfoldable pub schedule : Resources → List Node → Strategy → Option String
unfolding fitting sort
schedule demand nodes strategy = first_name (sort strategy (fitting demand nodes))
