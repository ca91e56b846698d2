-- ===== src/Scheduler/Best.antt =====
-- `Schedule` returns the best of the nodes that fit.
use infrastructure.Prelude.{
  true, false, ◌≡◌, subst, sym, ◌⊎◌, inl, inr, refl, List, [], ◌∷◌, String, Option, none, some, All,
  Any, Bool-cases, arith,
}
use infrastructure.Prelude.Int.{ℤ, ◌+ℤ◌, ◌-ℤ◌, ◌≤ℤ◌, int_laws}
use infrastructure.Scheduler.{
  Resources, Node, free, fits, Strategy, bin_pack, spread, rank, score, precedes, insert, sort,
  fitting, first_name, schedule,
}

module _ (st : Strategy) where
  -- No worse than.
  abbrev pub IsBelow : Node → Node → Type 0
  IsBelow best n = rank st (free n) ≤ℤ rank st (free best)

  precedes-IsBelow : (a b : Node) → precedes st a b ≡ true → IsBelow a b
  unfolding precedes
  precedes-IsBelow a b h = ground arith

  precedes-IsBelow_not : (a b : Node) → precedes st a b ≡ false → IsBelow b a
  unfolding precedes
  precedes-IsBelow_not a b h = ground arith

  insert-All :
      (P : Node → Type 0) (n : Node) (ms : List Node) → P n → All P ms → All P (insert st n ms)
  unfolding insert
  insert-All P n [] h a = (h, a)
  insert-All P n (m ∷ ms) h a = elim (Bool-cases (precedes st n m)) [
    | inl e ↦ rw e (h, a)
    | inr e ↦ rw e (a.0, insert-All P n ms h (a.1))
  ]

  insert-All_back :
      (P : Node → Type 0) (n : Node) (ms : List Node) → All P (insert st n ms) → P n × All P ms
  unfolding insert
  insert-All_back P n [] a = a
  insert-All_back P n (m ∷ ms) a = elim (Bool-cases (precedes st n m)) [
    | inl e ↦ rw (e, insert) at a
    | inr e ↦
        let (h, rest) = (rw (e, insert) at a) in
        let (first, others) = insert-All_back P n ms rest in (first, (h, others))
  ]

  sort-All : (P : Node → Type 0) (ns : List Node) → All P ns → All P (sort st ns)
  unfolding sort
  sort-All P [] a = a
  sort-All P (n ∷ ns) a = insert-All P n (sort st ns) (a.0) (sort-All P ns (a.1))

  sort-All_back : (P : Node → Type 0) (ns : List Node) → All P (sort st ns) → All P ns
  unfolding sort
  sort-All_back P [] a = a
  sort-All_back P (n ∷ ns) a =
      let (h, rest) = insert-All_back P n (sort st ns) a in (h, sort-All_back P ns rest)

  -- The first node is the best.
  abbrev pub IsLed : List Node → Type 0
  IsLed [] = Unit
  IsLed (n ∷ ns) = All (IsBelow n) ns

  All-weaken :
      (P Q : Node → Type 0) (ns : List Node) → ((n : Node) → P n → Q n) → All P ns → All Q ns
  All-weaken P Q [] f a = tt
  All-weaken P Q (n ∷ ns) f a = (f n (a.0), All-weaken P Q ns f (a.1))

  insert-IsLed : (n : Node) (ms : List Node) → IsLed ms → IsLed (insert st n ms)
  unfolding insert
  insert-IsLed n [] l = tt
  insert-IsLed n (m ∷ ms) l = elim (Bool-cases (precedes st n m)) [
    | inl e ↦
        let b = precedes-IsBelow n m e in
        rw e (b, All-weaken (IsBelow m) (IsBelow n) ms (λ o h. omega (arith, b, h)) l)
    | inr e ↦ rw e (insert-All (IsBelow m) n ms (precedes-IsBelow_not n m e) l)
  ]

  sort-IsLed : (ns : List Node) → IsLed (sort st ns)
  unfolding sort
  sort-IsLed [] = tt
  sort-IsLed (n ∷ ns) = insert-IsLed n (sort st ns) (sort-IsLed ns)

module _ (st : Strategy) (demand : Resources) where
  -- What holds of the nodes that fit, as a fact about all nodes.
  abbrev pub Fitting : (Node → Type 0) → Node → Type 0
  Fitting P n = (fits (free n) demand ≡ false) ⊎ P n

  fitting-All_back :
      (P : Node → Type 0) (ns : List Node) → All P (fitting demand ns) → All (Fitting P) ns
  unfolding fitting
  fitting-All_back P [] a = tt
  fitting-All_back P (n ∷ ns) a = elim (Bool-cases (fits (free n) demand)) [
    | inl e ↦ let (h, rest) = (rw (e, fitting) at a) in (inr h, fitting-All_back P ns rest)
    | inr e ↦ (inl e, fitting-All_back P ns (rw (e, fitting) at a))
  ]

  -- `m` is one of the nodes, and fits.
  abbrev pub Offers : List Node → Node → Type 0
  Offers ns m = Any (λ n. n ≡ m) ns × (fits (free m) demand ≡ true)

  fitting-All : (ns : List Node) → All (Offers ns) (fitting demand ns)
  unfolding fitting
  fitting-All [] = tt
  fitting-All (n ∷ ns) =
      let rest =
        All-weaken st (Offers ns) (Offers (n ∷ ns)) (fitting demand ns) (λ m h. (inr (h.0), h.1))
          (fitting-All ns) in
      elim (Bool-cases (fits (free n) demand)) [
        | inl e ↦ rw e ((inl refl, e), rest)
        | inr e ↦ rw e rest
      ]

  -- No node fits, or one of that name fits and the strategy ranks none of those that fit higher.
  abbrev pub IsPicked : List Node → Option String → Type 0
  IsPicked ns none = All (λ n. fits (free n) demand ≡ false) ns
  IsPicked ns (some name) =
      (best : Node) × (best.name ≡ name) × Offers ns best × All (Fitting (IsBelow st best)) ns

  first-IsPicked :
      (ns ms : List Node)
      → sort st (fitting demand ns) ≡ ms
      → IsLed st ms
      → IsPicked ns (first_name ms)
  first-IsPicked ns [] e l =
      All-weaken st (Fitting (λ n. ⊥)) (λ n. fits (free n) demand ≡ false) ns
        (λ n h. elim h [ inl f ↦ f | inr x ↦ elim x [ ] ])
        (fitting-All_back (λ n. ⊥) ns
          (sort-All_back st (λ n. ⊥) (fitting demand ns) (subst (All (λ n. ⊥)) (sym e) tt)))
  first-IsPicked ns (m ∷ ms) e l =
      let offers =
        subst (All (Offers ns)) e (sort-All st (Offers ns) (fitting demand ns) (fitting-All ns)) in
      (
        m,
        refl,
        offers.0,
        fitting-All_back (IsBelow st m) ns (
            sort-All_back st (IsBelow st m) (fitting demand ns)
              (subst (All (IsBelow st m)) (sym e) (omega arith, l))),
      )

-- A node can take a demand: with it, neither its processors nor its memory exceed its capacity.
pub record CanTake (demand : Resources) (n : Node) : Type 0 where
  pub milli_cpu : n.allocated.milli_cpu +ℤ demand.milli_cpu ≤ℤ n.capacity.milli_cpu
  pub memory_mb : n.allocated.memory_mb +ℤ demand.memory_mb ≤ℤ n.capacity.memory_mb

-- What is left of a node, processors and memory together.
abbrev pub left_of : Node → ℤ
left_of n =
    (n.capacity.milli_cpu +ℤ n.capacity.memory_mb)
    -ℤ (n.allocated.milli_cpu +ℤ n.allocated.memory_mb)

-- Packing wants the node with the least left, spreading the one with the most.
abbrev pub IsPreferred : Strategy → Node → Node → Type 0
IsPreferred bin_pack best n = left_of best ≤ℤ left_of n
IsPreferred spread best n = left_of n ≤ℤ left_of best

-- What a placement promises: no node can take the demand, or a node of that name can, and none of
-- those that can is preferred to it.
abbrev pub IsPlacement : Strategy → Resources → List Node → Option String → Type 0
IsPlacement st demand ns none = All (λ n. ¬ CanTake demand n) ns
IsPlacement st demand ns (some name) =
    (best : Node) × (best.name ≡ name)
    × Any (λ n. n ≡ best) ns
    × CanTake demand best
    × All (λ n. (¬ CanTake demand n) ⊎ IsPreferred st best n) ns

fits-CanTake : (demand : Resources) (n : Node) → fits (free n) demand ≡ true → CanTake demand n
unfolding fits free
fits-CanTake demand n h =
    let cpu : demand.milli_cpu ≤ℤ n.capacity.milli_cpu -ℤ n.allocated.milli_cpu =
      ground (arith, h) in
    let memory : demand.memory_mb ≤ℤ n.capacity.memory_mb -ℤ n.allocated.memory_mb =
      ground (arith, h) in
    record { milli_cpu = omega (int_laws, cpu); memory_mb = omega (int_laws, memory) }

fits-CanTake_not :
    (demand : Resources) (n : Node) → fits (free n) demand ≡ false → ¬ CanTake demand n
unfolding fits free
fits-CanTake_not demand n h c =
    let cpu : demand.milli_cpu ≤ℤ n.capacity.milli_cpu -ℤ n.allocated.milli_cpu =
      omega (int_laws, c.milli_cpu) in
    let memory : demand.memory_mb ≤ℤ n.capacity.memory_mb -ℤ n.allocated.memory_mb =
      omega (int_laws, c.memory_mb) in
    absurd (ground (arith, h, cpu, memory))

IsBelow-IsPreferred : (st : Strategy) (best n : Node) → IsBelow st best n → IsPreferred st best n
unfolding rank score free
IsBelow-IsPreferred bin_pack best n h = omega (int_laws, h)
IsBelow-IsPreferred spread best n h = omega (int_laws, h)

IsPicked-IsPlacement :
    (st : Strategy) (demand : Resources) (ns : List Node) (o : Option String)
    → IsPicked st demand ns o
    → IsPlacement st demand ns o
IsPicked-IsPlacement st demand ns none h =
    All-weaken st (λ n. fits (free n) demand ≡ false) (λ n. ¬ CanTake demand n) ns
      (fits-CanTake_not demand) h
IsPicked-IsPlacement st demand ns (some name) (best, named, (there, taken), others) = (
  best,
  named,
  there,
  fits-CanTake demand best taken,
  All-weaken st (Fitting st demand (IsBelow st best))
      (λ n. (¬ CanTake demand n) ⊎ IsPreferred st best n) ns
      (λ n x. elim x [
        | inl full ↦ inl (fits-CanTake_not demand n full)
        | inr below ↦ inr (IsBelow-IsPreferred st best n below)
      ])
      others,
)

-- `Schedule` gives the name of a node whose capacity bears the demand on top of what is allocated, and
-- of which, among the nodes that can take it, the least is left when packing and the most when
-- spreading; it gives the error exactly where no node can take the demand.
pub schedule-IsPlacement :
    (demand : Resources) (nodes : List Node) (strategy : Strategy)
    → IsPlacement strategy demand nodes (schedule demand nodes strategy)
unfolding schedule
schedule-IsPlacement demand nodes strategy =
    IsPicked-IsPlacement strategy demand nodes (schedule demand nodes strategy) (
      first-IsPicked strategy demand nodes (sort strategy (fitting demand nodes)) refl
        (sort-IsLed strategy (fitting demand nodes)))
