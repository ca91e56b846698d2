-- ===== src/Hypervisor/VirtQueue/Wrapped.antt =====
-- A descriptor whose range wraps around the end of the addresses.
use infrastructure.Prelude.{
  ℕ, ◌+◌, ◌*◌, ◌%◌, ◌≤◌, ◌<◌, ◌≡◌, ◌≢◌, false, ◌==◌, arith, suc, ap, List, [],
}
use infrastructure.Hypervisor.Word.{u64}
use infrastructure.Hypervisor.Memory.{done, crashed, ◌>>=◌, Memory, slice, u16_at, u32_at, u64_at}
use infrastructure.Hypervisor.Memory.Access.{slice_in_range, slice_wraps}
use infrastructure.Hypervisor.VirtQueue.{
  Segment, VirtQueue, read_avail_idx, ring_slot, read_descriptor, follow, read_chain, next_request,
  pop,
}

module _ (m : Memory) (vq : VirtQueue) where
  -- The head that the driver has put into the next entry of the available ring, and its descriptor.
  abbrev pub head : ℕ
  head = u16_at m (vq.avail_addr + 4 + vq.last_avail_idx % vq.size * 2)

  abbrev pub descriptor : ℕ
  descriptor = vq.desc_addr + head * 16

  -- The queue has entries, its available ring and that descriptor lie in the memory, and addresses
  -- in the memory have 64 bits.
  pub record IsReadable : Type 0 where
    pub some_entries : 0 < vq.size
    pub avail_fits : vq.avail_addr + 4 + vq.size * 2 ≤ m.size
    pub descriptor_fits : descriptor + 16 ≤ m.size
    pub no_wrap : m.size < 0x10000000000000000
    pub bytes : (x : ℕ) → m.byte x < 0x100

  -- The range of the descriptor goes beyond the last address and ends in the memory again.
  abbrev pub IsWrapped : Type 0
  IsWrapped =
      (0x10000000000000000 ≤ u64_at m descriptor + u32_at m (descriptor + 8))
      × (u64_at m descriptor + u32_at m (descriptor + 8) ≤ 0x10000000000000000 + m.size)

  slice_at :
      IsReadable
      → (a count : ℕ) → a + count ≤ m.size
      → slice m (u64 a) count ≡ done (record { start = a; count = count })
  slice_at h a count fits =
      let z : u64 a ≡ a = omega (arith, h.no_wrap) in
      let within = slice_in_range m a count (omega (arith, h.no_wrap)) in
      rw z (ground (arith, within))

  u32_small : IsReadable → (a : ℕ) → u32_at m a < 0x100000000
  u32_small h a = omega (arith, h.bytes a, h.bytes (a + 1), h.bytes (a + 2), h.bytes (a + 2 + 1))

  u64_small : IsReadable → (a : ℕ) → u64_at m a < 0x10000000000000000
  u64_small h a = omega (arith, u32_small h a, u32_small h (a + 4))

  follow-crashed :
      (rounds : ℕ) (before : List Segment)
      → IsReadable
      → IsWrapped
      → follow m vq (suc rounds) head before ≡ crashed
  unfolding follow read_descriptor
  follow-crashed rounds before h w = rw (
    slice_at h descriptor 16 h.descriptor_fits,
    slice_wraps m (u64_at m descriptor) (u32_at m (descriptor + 8)) (u64_small h descriptor)
        (u32_small h (descriptor + 8)) w.0 w.1,
  )

  read_chain-crashed : IsReadable → IsWrapped → read_chain m vq head ≡ crashed
  unfolding read_chain
  read_chain-crashed h w =
      ap (λ o. o >>= λ segments. done (record { head_index = head; segments = segments }))
        (follow-crashed 1023 [] h w)

  -- A driver that announces a request whose first descriptor has a range that wraps around into the
  -- memory makes `Pop` panic, where the queue is otherwise in order.
  pub pop-wrapped :
      (avail_idx : ℕ)
      → read_avail_idx m vq ≡ done avail_idx
      → avail_idx ≢ vq.last_avail_idx
      → IsReadable
      → IsWrapped
      → (pop m vq).0 ≡ crashed
  unfolding pop next_request ring_slot
  pop-wrapped avail_idx e ne h w =
      let new : (avail_idx == vq.last_avail_idx) ≡ false = ground (arith, ne) in
      let some : (vq.size == 0) ≡ false = ground (arith, h.some_entries) in
      let slot : vq.last_avail_idx % vq.size < vq.size = grind (arith, h.some_entries) in
      rw (
        e,
        new,
        some,
        slice_at h (vq.avail_addr + 4 + vq.last_avail_idx % vq.size * 2) 2
            (omega (arith, slot, h.avail_fits)),
        read_chain-crashed h w,
      )
