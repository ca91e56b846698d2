-- ===== src/Hypervisor/Drain/Ends.antt =====
-- The loop ends, whatever the driver does with the rest of the memory, when answering a request leaves
-- the memory as it is.
use infrastructure.Prelude.{
  ℕ, zero, suc, ◌+◌, ◌*◌, ◌/◌, ◌%◌, ◌≤◌, ◌<◌, ◌≡◌, refl, sym, ap, ◌∙◌, ◌⊎◌, inl, inr, Bool, ◌||◌,
  Option, none, some, arith,
}
use infrastructure.Hypervisor.Word.{u16}
use infrastructure.Hypervisor.Memory.{
  Outcome, done, failed, crashed, Memory, u16_at, put_u16_at, put_u32_at,
}
use infrastructure.Hypervisor.Memory.Access.{u16_at-put_u16_at, byte-put_u16_at, byte-put_u32_at}
use infrastructure.Hypervisor.VirtQueue.{
  Chain, VirtQueue, read_avail_idx, next_request, advance, pop, push,
}
use infrastructure.Hypervisor.VirtQueue.Rings.{
  HasUsedRing, used_entry, pushed, filled, idx, push-pushed, slice_at, pending, pop-pending,
}
use infrastructure.Hypervisor.Drain.{Reply, drained, pop_failed, panicked, Drained, drain}

-- The rings lie in the memory and do not meet, and the driver has announced requests up to `a`.
pub record IsAnnounced (a : ℕ) (m : Memory) (vq : VirtQueue) : Type 0 where
  pub ring : HasUsedRing m vq
  pub avail_fits : vq.avail_addr + 4 ≤ m.size
  pub apart :
      (vq.avail_addr + 4 ≤ vq.used_addr + 2) ⊎ (vq.used_addr + 4 + vq.size * 8 ≤ vq.avail_addr + 2)
  pub announced : u16_at m (vq.avail_addr + 2) ≡ a
  pub small : a < 0x10000
  pub taken : vq.last_avail_idx < 0x10000

read_announced :
    (a : ℕ) (m : Memory) (vq : VirtQueue) → IsAnnounced a m vq → read_avail_idx m vq ≡ done a
unfolding read_avail_idx
read_announced a m vq h =
    rw (slice_at m vq 0 0 h.ring m (vq.avail_addr + 2) 2 refl (omega (arith, h.avail_fits)))
      (ap done h.announced)

put_u16_at-bytes :
    (m : Memory) (at v : ℕ)
    → ((x : ℕ) → m.byte x < 0x100)
    → (x : ℕ) → (put_u16_at m at v).byte x < 0x100
unfolding put_u16_at
put_u16_at-bytes m at v h x = ground (arith, h x)

put_u32_at-bytes :
    (m : Memory) (at v : ℕ)
    → ((x : ℕ) → m.byte x < 0x100)
    → (x : ℕ) → (put_u32_at m at v).byte x < 0x100
unfolding put_u32_at
put_u32_at-bytes m at v h x =
    put_u16_at-bytes (put_u16_at m at (v % 0x10000)) (at + 2) (v / 0x10000)
      (put_u16_at-bytes m at (v % 0x10000) h) x

-- A push changes the used ring only.
pushed-byte :
    (m : Memory) (vq : VirtQueue) (head written x : ℕ) (r : HasUsedRing m vq)
    → (x < vq.used_addr + 2) ⊎ (vq.used_addr + 4 + vq.size * 8 ≤ x)
    → (pushed m vq head written r).byte x ≡ m.byte x
pushed-byte m vq head written x r h =
    let slot : u16_at m (vq.used_addr + 2) % vq.size < vq.size = grind (arith, r.some_entries) in
    let entry = used_entry m vq in
    let high : entry + 8 ≤ vq.used_addr + 4 + vq.size * 8 = omega (arith, slot) in
    byte-put_u16_at (filled m vq head written r) (vq.used_addr + 2)
      (u16 (idx m vq head written r + 1)) x (ground (arith, h, r.some_entries))
    ∙ byte-put_u32_at (put_u32_at m entry head) (entry + 4) written x (ground (arith, h, high))
    ∙ byte-put_u32_at m entry head x (ground (arith, h, high))

pushed-size :
    (m : Memory) (vq : VirtQueue) (head written : ℕ) (r : HasUsedRing m vq)
    → (pushed m vq head written r).size ≡ m.size
unfolding put_u16_at put_u32_at
pushed-size m vq head written r = refl

pushed-bytes :
    (m : Memory) (vq : VirtQueue) (head written : ℕ) (r : HasUsedRing m vq) (x : ℕ)
    → (pushed m vq head written r).byte x < 0x100
pushed-bytes m vq head written r =
    let entry = used_entry m vq in
    put_u16_at-bytes (filled m vq head written r) (vq.used_addr + 2)
      (u16 (idx m vq head written r + 1))
      (put_u32_at-bytes (put_u32_at m entry head) (entry + 4) written
        (put_u32_at-bytes m entry head r.bytes))

-- A push leaves what the driver has announced, and counts on the used index.
push_announced :
    (a : ℕ) (m : Memory) (vq : VirtQueue) (head written : ℕ)
    → IsAnnounced a m vq
    → (n : Memory) × (push m vq head written ≡ done n)
      × IsAnnounced a n vq
      × (u16_at n (vq.used_addr + 2) ≡ u16 (u16_at m (vq.used_addr + 2) + 1))
push_announced a m vq head written h =
    let r = h.ring in
    let n : Memory = pushed m vq head written r in
    let at : ℕ = vq.avail_addr + 2 in
    let size : n.size ≡ m.size = pushed-size m vq head written r in
    let low = pushed-byte m vq head written at r (ground (arith, h.apart)) in
    let high = pushed-byte m vq head written (at + 1) r (ground (arith, h.apart)) in
    (
      n,
      push-pushed m vq head written r,
      record {
        ring = record {
          some_entries = r.some_entries;
          fits = rw size r.fits;
          no_wrap = rw size r.no_wrap;
          bytes = pushed-bytes m vq head written r;
        };
        avail_fits = rw size h.avail_fits;
        apart = h.apart;
        announced = omega (arith, low, high, h.announced);
        small = h.small;
        taken = h.taken;
      },
      u16_at-put_u16_at (filled m vq head written r) (vq.used_addr + 2)
          (u16 (idx m vq head written r + 1)) (omega arith),
    )

-- The queue after a request was taken from it.
advance-IsAnnounced :
    (a : ℕ) (m : Memory) (vq : VirtQueue) (o : Outcome (Option Chain))
    → IsAnnounced a m vq
    → IsAnnounced a m (advance o vq)
advance-IsAnnounced a m vq (done (some c)) h = record {
  ring = record {
    some_entries = h.ring.some_entries;
    fits = h.ring.fits;
    no_wrap = h.ring.no_wrap;
    bytes = h.ring.bytes;
  };
  avail_fits = h.avail_fits;
  apart = h.apart;
  announced = h.announced;
  small = h.small;
  taken = omega arith;
}
advance-IsAnnounced a m vq (done none) h = h
advance-IsAnnounced a m vq failed h = h
advance-IsAnnounced a m vq crashed h = h

used_addr-advance :
    (vq : VirtQueue) (o : Outcome (Option Chain)) → (advance o vq).used_addr ≡ vq.used_addr
used_addr-advance vq (done (some c)) = refl
used_addr-advance vq (done none) = refl
used_addr-advance vq failed = refl
used_addr-advance vq crashed = refl

pop-IsAnnounced :
    (a : ℕ) (m : Memory) (vq : VirtQueue) → IsAnnounced a m vq → IsAnnounced a m (pop m vq).1
unfolding pop
pop-IsAnnounced a m vq h = advance-IsAnnounced a m vq (next_request m vq) h

used_addr-pop : (m : Memory) (vq : VirtQueue) → (pop m vq).1.used_addr ≡ vq.used_addr
unfolding pop
used_addr-pop m vq = used_addr-advance vq (next_request m vq)

module _ {S : Type 0} (serve : Memory → S → Chain → Reply S) (on_push : Bool)
    (keeps : (m : Memory) (σ : S) (c : Chain) → (serve m σ c).memory ≡ m) where
  -- How the loop ends: with every announced request taken and answered in the used ring, or at a
  -- request that cannot be read.
  abbrev pub Ends : ℕ → Memory → VirtQueue → Drained S → Type 0
  Ends a m vq d =
      ((d.stop ≡ drained)
        × (d.vq.last_avail_idx ≡ a)
        × (u16_at d.memory (vq.used_addr + 2) ≡ u16 (u16_at m (vq.used_addr + 2) + pending a vq)))
      ⊎ (d.stop ≡ pop_failed)
      ⊎ (d.stop ≡ panicked)

  pop-Ends :
      (a : ℕ) (m n : Memory) (vq vq' : VirtQueue) (d : Drained S)
      → vq'.used_addr ≡ vq.used_addr
      → pending a vq' + 1 ≡ pending a vq
      → u16_at n (vq'.used_addr + 2) ≡ u16 (u16_at m (vq.used_addr + 2) + 1)
      → Ends a n vq' d
      → Ends a m vq d
  pop-Ends a m n vq vq' d same less counted (inl (s, t, u)) =
      let total : u16_at d.memory (vq'.used_addr + 2)
          ≡ u16 (u16_at m (vq.used_addr + 2) + pending a vq) =
        u ∙ omega (arith, less, counted) in
      inl (s, t, ap (λ at. u16_at d.memory (at + 2)) (sym same) ∙ total)
  pop-Ends a m n vq vq' d same less counted (inr e) = inr e

  -- More rounds than there are pending requests are enough.
  pub drain-Ends :
      (fuel : ℕ) (a : ℕ) (m : Memory) (σ : S) (vq : VirtQueue) (told : Bool)
      → IsAnnounced a m vq
      → pending a vq < fuel
      → Ends a m vq (drain serve on_push fuel m σ vq told)
  unfolding drain
  drain-Ends zero a m σ vq told h lt = absurd (omega arith)
  drain-Ends (suc fuel) a m σ vq told h lt =
      elim (pop-pending m vq a (read_announced a m vq h) h.small h.taken) [
        | inl (none_left, zero_left, same) ↦ rw none_left (
            inl (
              refl,
              ground (arith, zero_left, h.small, h.taken),
              omega (
                arith,
                zero_left,
                h.ring.bytes (vq.used_addr + 2),
                h.ring.bytes (vq.used_addr + 2 + 1),
              ),
            ))
        | inr (inl (c, taken, next, less)) ↦
            let vq' : VirtQueue = (pop m vq).1 in
            let r : Reply S = serve m σ c in
            let (n, done_n, h', counted) =
              push_announced a m vq' c.head_index r.written (pop-IsAnnounced a m vq h) in
            let same = used_addr-pop m vq in
            let counted' : u16_at n (vq'.used_addr + 2) ≡ u16 (u16_at m (vq.used_addr + 2) + 1) =
              counted ∙ ap (λ at. u16 (u16_at m (at + 2) + 1)) same in
            let rest =
              drain-Ends fuel a n r.state vq' (told || r.told || on_push) h'
                (omega (arith, less)) in
            rw (taken, keeps m σ c, done_n)
              (pop-Ends a m n vq vq'
                (drain serve on_push fuel n r.state vq' (told || r.told || on_push)) same less
                counted' rest)
        | inr (inr (inl why, left, same)) ↦ rw why (inr (inl refl))
        | inr (inr (inr why, left, same)) ↦ rw why (inr (inr refl))
      ]
