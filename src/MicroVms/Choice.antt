-- ===== src/MicroVms/Choice.antt =====
-- The node that `pickNode` picks.
use infrastructure.Prelude.{
  ℕ, ◌≤◌, ◌≡◌, ◌≢◌, refl, sym, subst, ◌∙◌, ◌⊎◌, inl, inr, Bool, true, false, ◌&&◌, ◌||◌, List, [],
  ◌∷◌, String, str_eq, ltb, Any, arith, Bool-cases,
}
use infrastructure.Prelude.Dict.{value_at}
use infrastructure.MicroVms.{
  MicroVm, Node, Alloc, Allocs, alloc_of, plus, match_labels, has_room, pick_from, pick_node,
}

-- An allocation is within what a node has.
abbrev pub IsFit : Node → Alloc → Type 0
IsFit n a = (a.cpus ≤ n.cpus) × (a.mem ≤ n.memory_mb) × ((n.max_pods ≡ 0) ⊎ (a.pods ≤ n.max_pods))

module _ (is_ready : Node → Bool) (nodes : List Node) (allocs : Allocs)
    (selector : List (String × String)) (v : MicroVm) where
  -- A node that can take the micro-VM: it is ready, has the labels, and has room with it.
  abbrev pub Takes : Node → Type 0
  Takes n =
      (is_ready n ≡ true)
      × (match_labels n.labels selector ≡ true)
      × IsFit n (plus (alloc_of (value_at n.uid allocs)) v)

  has_room-Takes : (n : Node) → has_room is_ready nodes allocs selector v n ≡ true → Takes n
  unfolding has_room plus
  has_room-Takes n h = ground (arith, h)

  abbrev pub Picked : String → List Node → Type 0
  Picked b ns = Any (λ n. (n.uid ≡ b) × Takes n) ns

  abbrev is_better : Node → String → ℕ → Bool
  is_better n best pods =
      has_room is_ready nodes allocs selector v n
      && (str_eq best "" || ltb (alloc_of (value_at n.uid allocs)).pods pods)

  pick_taken :
      (n : Node) (ns : List Node) (best : String) (pods : ℕ)
      → is_better n best pods ≡ true
      → pick_from is_ready nodes allocs selector v (n ∷ ns) best pods
        ≡ pick_from is_ready nodes allocs selector v ns n.uid
            (alloc_of (value_at n.uid allocs)).pods
  unfolding pick_from
  pick_taken n ns best pods e = rw e refl

  pick_kept :
      (n : Node) (ns : List Node) (best : String) (pods : ℕ)
      → is_better n best pods ≡ false
      → pick_from is_ready nodes allocs selector v (n ∷ ns) best pods
        ≡ pick_from is_ready nodes allocs selector v ns best pods
  unfolding pick_from
  pick_kept n ns best pods e = rw e refl

  take_over :
      (n : Node) (ns : List Node) (pods : ℕ) {best : String}
      → has_room is_ready nodes allocs selector v n ≡ true
      → (pick_from is_ready nodes allocs selector v ns n.uid pods ≡ n.uid)
        ⊎ Picked (pick_from is_ready nodes allocs selector v ns n.uid pods) ns
      → (pick_from is_ready nodes allocs selector v ns n.uid pods ≡ best)
        ⊎ Picked (pick_from is_ready nodes allocs selector v ns n.uid pods) (n ∷ ns)
  take_over n ns pods room (inl e) = inr (inl (sym e, has_room-Takes n room))
  take_over n ns pods room (inr p) = inr (inr p)

  keep_on :
      (n : Node) (ns : List Node) (best : String) (pods : ℕ)
      → (pick_from is_ready nodes allocs selector v ns best pods ≡ best)
        ⊎ Picked (pick_from is_ready nodes allocs selector v ns best pods) ns
      → (pick_from is_ready nodes allocs selector v ns best pods ≡ best)
        ⊎ Picked (pick_from is_ready nodes allocs selector v ns best pods) (n ∷ ns)
  keep_on n ns best pods (inl e) = inl e
  keep_on n ns best pods (inr p) = inr (inr p)

  pick_from-Picked :
      (ns : List Node) (best : String) (pods : ℕ)
      → (pick_from is_ready nodes allocs selector v ns best pods ≡ best)
        ⊎ Picked (pick_from is_ready nodes allocs selector v ns best pods) ns
  unfolding pick_from
  pick_from-Picked [] best pods = inl refl
  pick_from-Picked (n ∷ ns) best pods =
      let own : ℕ = (alloc_of (value_at n.uid allocs)).pods in
      elim (Bool-cases (is_better n best pods)) [
        | inl e ↦
            subst (λ b. (b ≡ best) ⊎ Picked b (n ∷ ns)) (sym (pick_taken n ns best pods e))
              (take_over n ns own (ground (arith, e)) (pick_from-Picked ns n.uid own))
        | inr e ↦
            subst (λ b. (b ≡ best) ⊎ Picked b (n ∷ ns)) (sym (pick_kept n ns best pods e))
              (keep_on n ns best pods (pick_from-Picked ns best pods))
      ]

  -- A node that is picked can take the micro-VM.
  pub pick_node-Picked :
      (b : String) → pick_node is_ready nodes allocs selector v ≡ b → b ≢ "" → Picked b nodes
  unfolding pick_node
  pick_node-Picked b e ne = picked_at b e ne (pick_from-Picked nodes "" 0)
    where
      picked_at :
          (b : String)
          → pick_from is_ready nodes allocs selector v nodes "" 0 ≡ b
          → b ≢ ""
          → (pick_from is_ready nodes allocs selector v nodes "" 0 ≡ "")
            ⊎ Picked (pick_from is_ready nodes allocs selector v nodes "" 0) nodes
          → Picked b nodes
      picked_at b e ne (inl none_picked) = absurd (ne (sym e ∙ none_picked))
      picked_at b e ne (inr p) = subst (λ b. Picked b nodes) e p
