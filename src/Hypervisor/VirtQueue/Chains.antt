-- ===== src/Hypervisor/VirtQueue/Chains.antt =====
-- The requests of a virtqueue: descriptor chains.
use infrastructure.Prelude.{
  ℕ, ◌+◌, ◌*◌, sym, zero, suc, ◌≤◌, ◌≡◌, ◌↔◌, refl, ap, ◌∙◌, ◌⊎◌, inl, inr, true, false, List, [],
  ◌∷◌, ◌++◌, append_assoc, arith, length, Bool-cases,
}
use infrastructure.Hypervisor.Word.{bit, u64}
use infrastructure.Hypervisor.Memory.{
  Outcome, done, failed, crashed, Memory, slice, >>=_returned, u16_at, u32_at, u64_at,
}
use infrastructure.Hypervisor.Memory.Access.{done-injective, slice-view}
use infrastructure.Hypervisor.VirtQueue.{
  Segment, Chain, VirtQueue, Descriptor, read_descriptor, follow, read_chain, max_chain_length,
}

abbrev segments_of : List Segment → Outcome Chain → List Segment
segments_of d (done c) = c.segments
segments_of d failed = d
segments_of d crashed = d

module _ (m : Memory) (vq : VirtQueue) where
  -- A descriptor lies in the memory, at 16 bytes for each index: a 64-bit address, a 32-bit length,
  -- and 16 bits each for its flags and for the index of the next one.
  pub record IsDescriptor (idx : ℕ) (d : Descriptor) : Type 0 where
    pub lies :
        slice m (u64 (vq.desc_addr + idx * 16)) 16
        ≡ done (record { start = u64 (vq.desc_addr + idx * 16); count = 16 })
    pub addr : d.addr ≡ u64_at m (u64 (vq.desc_addr + idx * 16))
    pub count : d.count ≡ u32_at m (u64 (vq.desc_addr + idx * 16) + 8)
    pub flags : d.flags ≡ u16_at m (u64 (vq.desc_addr + idx * 16) + 12)
    pub next : d.next ≡ u16_at m (u64 (vq.desc_addr + idx * 16) + 14)

  read_descriptor-IsDescriptor :
      (idx : ℕ) (d : Descriptor) → read_descriptor m vq idx ≡ done d → IsDescriptor idx d
  unfolding read_descriptor
  read_descriptor-IsDescriptor idx d h =
      let at : ℕ = u64 (vq.desc_addr + idx * 16) in
      let (v, e, h1) = >>=_returned (slice m at 16) _ h in
      let view = slice-view m at 16 v e in
      let same = done-injective h1 in
      record {
        lies = e ∙ ap done view;
        addr = ap (λ x. x.addr) (sym same) ∙ ap (λ w. u64_at m w.start) view;
        count = ap (λ x. x.count) (sym same) ∙ ap (λ w. u32_at m (w.start + 8)) view;
        flags = ap (λ x. x.flags) (sym same) ∙ ap (λ w. u16_at m (w.start + 12)) view;
        next = ap (λ x. x.next) (sym same) ∙ ap (λ w. u16_at m (w.start + 14)) view;
      }

  IsDescriptor-read_descriptor :
      (idx : ℕ) (d : Descriptor) → IsDescriptor idx d → read_descriptor m vq idx ≡ done d
  unfolding read_descriptor
  IsDescriptor-read_descriptor idx d i =
      rw (i.lies) (ground (arith, i.addr, i.count, i.flags, i.next))

  -- The segments of the chain of descriptors that starts at `idx`: the last one has no `next` flag.
  abbrev pub IsLinked : ℕ → List Segment → Type 0
  IsLinked idx [] = ⊥
  IsLinked idx (s ∷ rest) =
      (d : Descriptor) × IsDescriptor idx d
      × (slice m d.addr d.count ≡ done s.buffer)
      × (s.writable ≡ bit 1 d.flags)
      × (((bit 0 d.flags ≡ false) × (rest ≡ [])) ⊎ ((bit 0 d.flags ≡ true) × IsLinked d.next rest))

  follow_sound :
      (rounds idx : ℕ) (before all : List Segment)
      → follow m vq rounds idx before ≡ done all
      → (rest : List Segment) × (all ≡ before ++ rest) × IsLinked idx rest × (length rest ≤ rounds)
  unfolding follow
  follow_sound zero idx before all h = cc
  follow_sound (suc rounds) idx before all h =
      let (d, e, h1) = >>=_returned (read_descriptor m vq idx) _ h in
      let (v, f, h2) = >>=_returned (slice m d.addr d.count) _ h1 in
      let s : Segment = record { buffer = v; writable = bit 1 d.flags } in
      elim (Bool-cases (bit 0 d.flags)) [
        | inl more ↦
            let (rest, joined, linked, n) = follow_sound rounds d.next _ all (rw more at h2) in
            (
              s ∷ rest,
              joined ∙ append_assoc before (s ∷ []) rest,
              (d, read_descriptor-IsDescriptor idx d e, f, refl, inr (more, linked)),
              omega arith,
            )
        | inr last ↦ (
          s ∷ [],
          ground (arith, rw last at h2),
          (d, read_descriptor-IsDescriptor idx d e, f, refl, inl (last, refl)),
          omega arith,
        )
      ]

  follow_complete :
      (rounds idx : ℕ) (before rest : List Segment)
      → IsLinked idx rest
      → length rest ≤ rounds
      → follow m vq rounds idx before ≡ done (before ++ rest)
  unfolding follow
  follow_complete rounds idx before [] l n = absurd l
  follow_complete zero idx before (s ∷ rest) l n = absurd (omega arith)
  follow_complete (suc rounds) idx before (s ∷ rest) (d, e, v, w, inl (f, last)) n =
      rw (IsDescriptor-read_descriptor idx d e, v, f, last) (rw (← w) refl)
  follow_complete (suc rounds) idx before (s ∷ rest) (d, e, v, w, inr (f, l)) n =
      rw (IsDescriptor-read_descriptor idx d e, v, f)
        (rw (← w) (
          follow_complete rounds d.next (before ++ s ∷ []) rest l (omega arith)
          ∙ ap done (append_assoc before (s ∷ []) rest)))

  -- `readChain` returns the chain of linked descriptors behind a head, each as it lies in the table of
  -- the queue and with its buffer resolved in guest memory, and does so exactly if there are at most 1024 of them; so it returns no chain
  -- of a cycle, and ends on every memory.
  pub read_chain_iff :
      (head : ℕ) (segments : List Segment)
      → (read_chain m vq head ≡ done (record { head_index = head; segments = segments }))
        ↔ (IsLinked head segments × (length segments ≤ max_chain_length))
  unfolding read_chain
  read_chain_iff head segments = (
    λ h.
        let (found, e, h1) = >>=_returned (follow m vq max_chain_length head []) _ h in
        let same : found ≡ segments = ap (segments_of segments) h1 in
        let (rest, joined, linked, n) = follow_sound max_chain_length head [] found e in
        rw (← same, joined) (linked, n),
    λ (linked, n). rw (follow_complete max_chain_length head [] segments linked n),
  )
