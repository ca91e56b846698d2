-- ===== src/Hypervisor/VirtQueue/Rings.antt =====
-- The available and the used ring of a virtqueue.
use infrastructure.Prelude.{
  ℕ, ◌+◌, ◌-◌, ◌*◌, ◌%◌, ◌≤◌, ◌<◌, ◌≡◌, ◌≢◌, refl, ap, ◌∙◌, ◌⊎◌, inl, inr, true, false, arith,
  Bool-cases, none, some, Option, ◌==◌, sym, subst,
}
use mathlib.Core.Option.{some-injective}
use infrastructure.Hypervisor.Word.{u16, u64}
use infrastructure.Hypervisor.Memory.{
  Outcome, done, failed, crashed, Memory, slice, >>=_returned, u16_at, u32_at, put_u16_at,
  put_u32_at,
}
use infrastructure.Hypervisor.Memory.Access.{
  done-injective, not_crashed, slice-view, slice_in_range, u16_at-put_u16_at, byte-put_u16_at,
  u32_at-put_u32_at, byte-put_u32_at,
}
use infrastructure.Hypervisor.VirtQueue.{
  Chain, VirtQueue, read_avail_idx, ring_slot, read_chain, next_request, advance, pop, push,
}

u32_at_agree :
    (n n' : Memory) (a : ℕ)
    → ((x : ℕ) → a ≤ x → x ≤ a + 3 → n.byte x ≡ n'.byte x)
    → u32_at n a ≡ u32_at n' a
u32_at_agree n n' a same =
    let s0 : n.byte a ≡ n'.byte a = same a (omega arith) (omega arith) in
    let s1 : n.byte (a + 1) ≡ n'.byte (a + 1) = same (a + 1) (omega arith) (omega arith) in
    let s2 : n.byte (a + 2) ≡ n'.byte (a + 2) = same (a + 2) (omega arith) (omega arith) in
    let s3 : n.byte (a + 2 + 1) ≡ n'.byte (a + 2 + 1) =
      same (a + 2 + 1) (omega arith) (omega arith) in
    rw (s0, s1, s2, s3)

-- The used ring of a queue of `size` entries lies in the memory, and addresses do not wrap around.
pub record HasUsedRing (m : Memory) (vq : VirtQueue) : Type 0 where
  pub some_entries : 0 < vq.size
  pub fits : vq.used_addr + 4 + vq.size * 8 ≤ m.size
  pub no_wrap : m.size < 0x10000000000000000
  pub bytes : (x : ℕ) → m.byte x < 0x100

-- Where the next used entry goes.
abbrev pub used_entry : Memory → VirtQueue → ℕ
used_entry m vq = vq.used_addr + 4 + u16_at m (vq.used_addr + 2) % vq.size * 8

module _ (m : Memory) (vq : VirtQueue) (head written : ℕ) (r : HasUsedRing m vq) where
  abbrev pub idx : ℕ
  idx = u16_at m (vq.used_addr + 2)

  abbrev pub filled : Memory
  filled = put_u32_at (put_u32_at m (used_entry m vq) head) (used_entry m vq + 4) written

  abbrev pub pushed : Memory
  pushed = put_u16_at filled (vq.used_addr + 2) (u16 (idx + 1))

  pub entry_within : used_entry m vq + 8 ≤ m.size
  entry_within = grind (arith, r.fits, r.some_entries)

  pub slice_at :
      (n : Memory) (a count : ℕ)
      → n.size ≡ m.size
      → a + count ≤ m.size
      → slice n (u64 a) count ≡ done (record { start = a; count = count })
  slice_at n a count e h =
      let z : u64 a ≡ a = omega (arith, r.no_wrap) in
      let within = slice_in_range n a count (omega (arith, r.no_wrap)) in
      rw z (ground (arith, within))

  pub filled_size : filled.size ≡ m.size
  unfolding put_u32_at
  filled_size = refl

  pub push-pushed : push m vq head written ≡ done pushed
  unfolding push
  push-pushed =
      let some : (vq.size == 0) ≡ false = ground (arith, r.some_entries) in
      let idx_within : vq.used_addr + 2 + 2 ≤ m.size = omega (arith, entry_within) in
      rw (
        slice_at m (vq.used_addr + 2) 2 refl idx_within,
        some,
        slice_at m (used_entry m vq) 8 refl entry_within,
        slice_at filled (vq.used_addr + 2) 2 filled_size idx_within,
      )

  -- `Push` into a ring that lies in the memory always succeeds: the entry at the slot of the old
  -- index holds the head and the length, the index has grown by one, modulo 2^16, and every other
  -- byte of the guest's memory is as before.
  pub push_lem :
      head < 0x10000
      → written < 0x100000000
      → (x : ℕ) → (x < vq.used_addr + 2) ⊎ (vq.used_addr + 3 < x)
      → (x < used_entry m vq) ⊎ (used_entry m vq + 7 < x)
      → (n : Memory) × (push m vq head written ≡ done n)
        × (n.size ≡ m.size)
        × (u16_at n (vq.used_addr + 2) ≡ u16 (u16_at m (vq.used_addr + 2) + 1))
        × (u32_at n (used_entry m vq) ≡ head)
        × (u32_at n (used_entry m vq + 4) ≡ written)
        × (n.byte x ≡ m.byte x)
  unfolding put_u16_at put_u32_at
  push_lem h w x a b = (
    pushed,
    push-pushed,
    refl,
    u16_at-put_u16_at filled (vq.used_addr + 2) (u16 (idx + 1)) (omega arith),
    u32_at_agree pushed (put_u32_at m (used_entry m vq) head) (used_entry m vq) (λ x low high.
          byte-put_u16_at filled (vq.used_addr + 2) (u16 (idx + 1)) x (inr (omega arith))
          ∙ byte-put_u32_at (put_u32_at m (used_entry m vq) head) (used_entry m vq + 4) written x
              (inl (omega arith)))
        ∙ u32_at-put_u32_at m (used_entry m vq) head (omega arith),
    u32_at_agree pushed filled (used_entry m vq + 4) (λ x low high.
          byte-put_u16_at filled (vq.used_addr + 2) (u16 (idx + 1)) x (inr (omega arith)))
        ∙ u32_at-put_u32_at (put_u32_at m (used_entry m vq) head) (used_entry m vq + 4) written w,
    byte-put_u16_at filled (vq.used_addr + 2) (u16 (idx + 1)) x (omega arith)
        ∙ byte-put_u32_at (put_u32_at m (used_entry m vq) head) (used_entry m vq + 4) written x
            (omega arith)
        ∙ byte-put_u32_at m (used_entry m vq) head x (omega arith),
  )

-- How many requests the driver has made available that were not taken yet, modulo 2^16.
abbrev pub pending : ℕ → VirtQueue → ℕ
pending avail_idx vq = u16 (avail_idx + 0x10000 - vq.last_avail_idx)

-- The entry of the available ring at the place of the next request.
abbrev pub avail_entry : VirtQueue → ℕ
avail_entry vq = u64 (vq.avail_addr + 4 + vq.last_avail_idx % vq.size * 2)

-- The request whose head the driver has put into the next entry of the available ring.
abbrev pub IsNext : Memory → VirtQueue → Chain → Type 0
IsNext m vq c = read_chain m vq (u16_at m (avail_entry vq)) ≡ done c

none-some {ℓ} : {A : Type ℓ} {a : A} → none ≢ some a
none-some h = cc

ring_slot-done : (vq : VirtQueue) (i slot : ℕ) → ring_slot vq i ≡ done slot → slot ≡ i % vq.size
unfolding ring_slot
ring_slot-done vq i slot h = elim (Bool-cases (vq.size == 0)) [
  | inl e ↦ absurd (not_crashed (rw e at h))
  | inr e ↦ sym (done-injective (rw e at h))
]

same_idx :
    (m : Memory) (vq : VirtQueue) (avail_idx : ℕ)
    → read_avail_idx m vq ≡ done avail_idx
    → (avail_idx == vq.last_avail_idx) ≡ true
    → next_request m vq ≡ done none
unfolding next_request
same_idx m vq avail_idx e s = rw (e, s)

other_idx :
    (m : Memory) (vq : VirtQueue) (avail_idx : ℕ)
    → read_avail_idx m vq ≡ done avail_idx
    → (avail_idx == vq.last_avail_idx) ≡ false
    → (o : Option Chain) → next_request m vq ≡ done o
    → (c : Chain) × (o ≡ some c) × IsNext m vq c
unfolding next_request
other_idx m vq avail_idx e s o h =
    let (slot, at_slot, h1) = >>=_returned (ring_slot vq vq.last_avail_idx) _ (rw (e, s) at h) in
    let (entry, at_entry, h2) =
      >>=_returned (slice m (u64 (vq.avail_addr + 4 + slot * 2)) 2) _ h1 in
    let (c, read_c, h3) = >>=_returned (read_chain m vq (u16_at m entry.start)) _ h2 in
    let place : entry.start ≡ avail_entry vq =
      ap (λ v. v.start) (slice-view m (u64 (vq.avail_addr + 4 + slot * 2)) 2 entry at_entry)
      ∙ ap (λ i. u64 (vq.avail_addr + 4 + i * 2))
          (ring_slot-done vq vq.last_avail_idx slot at_slot) in
    (c, sym (done-injective h3), rw (← place) read_c)

request_cases :
    (o : Outcome (Option Chain))
    → (o ≡ done none) ⊎ ((c : Chain) × (o ≡ done (some c))) ⊎ ((o ≡ failed) ⊎ (o ≡ crashed))
request_cases (done none) = inl refl
request_cases (done (some c)) = inr (inl (c, refl))
request_cases failed = inr (inr (inl refl))
request_cases crashed = inr (inr (inr refl))

-- `Pop` takes nothing exactly when nothing is pending; otherwise it takes one pending request, which
-- is the chain at the head in the next entry of the available ring, or it fails and leaves the queue
-- as it was.
pub pop-pending :
    (m : Memory) (vq : VirtQueue) (avail_idx : ℕ)
    → read_avail_idx m vq ≡ done avail_idx
    → avail_idx < 0x10000
    → vq.last_avail_idx < 0x10000
    → let (result, vq') = pop m vq in
      ((result ≡ done none) × (pending avail_idx vq ≡ 0) × (vq' ≡ vq))
      ⊎ ((c : Chain) × (result ≡ done (some c))
          × IsNext m vq c
          × (pending avail_idx vq' + 1 ≡ pending avail_idx vq))
      ⊎ (((result ≡ failed) ⊎ (result ≡ crashed)) × (pending avail_idx vq ≢ 0) × (vq' ≡ vq))
unfolding pop
pop-pending m vq avail_idx e a l = elim (Bool-cases (avail_idx == vq.last_avail_idx)) [
  | inl s ↦
      let nothing = same_idx m vq avail_idx e s in
      inl (nothing, ground arith, ap (λ o. advance o vq) nothing)
  | inr s ↦ elim (request_cases (next_request m vq)) [
    | inl h ↦
        let (c, some_c, next) = other_idx m vq avail_idx e s none h in absurd (none-some some_c)
    | inr (inl (c, h)) ↦
        let (c', same, next) = other_idx m vq avail_idx e s (some c) h in
        inr (
          inl
            (c, h, subst (IsNext m vq) (sym (some-injective c c' same)) next, rw h (ground arith)))
    | inr (inr (inl h)) ↦ inr (inr (inl h, ground arith, ap (λ o. advance o vq) h))
    | inr (inr (inr h)) ↦ inr (inr (inr h, ground arith, ap (λ o. advance o vq) h))
  ]
]

-- A queue whose size was never set makes `Pop` divide by zero as soon as the driver announces a
-- request, whatever else is in the guest's memory.
pub pop_zero_size :
    (m : Memory) (vq : VirtQueue) (avail_idx : ℕ)
    → vq.size ≡ 0
    → read_avail_idx m vq ≡ done avail_idx
    → avail_idx ≢ vq.last_avail_idx
    → (pop m vq).0 ≡ crashed
unfolding pop next_request ring_slot
pop_zero_size m vq avail_idx z e ne =
    let s : (avail_idx == vq.last_avail_idx) ≡ false = ground arith in
    let t : (vq.size == 0) ≡ true = ground arith in rw (e, s, t)
