-- ===== src/Hypervisor/VirtQueue/Unsized.antt =====
-- A queue that the driver makes ready before it sets a size.
use infrastructure.Prelude.{
  ℕ, zero, suc, ◌<◌, ◌≡◌, ◌≢◌, refl, ap, true, List, [], ◌∷◌, some, arith, All, get_elem?,
  replicate,
}
use infrastructure.Hypervisor.Word.{bit, put_low, put_high}
use infrastructure.Hypervisor.Transport.{
  Queue, no_queue, Transport, new_transport, write, write_register, decode, queue,
}
use infrastructure.Hypervisor.Transport.Queues.{write_all, word, set_rings}
use infrastructure.Hypervisor.Transport.Registers.{write-Programs, set_rings-Programs}
use infrastructure.Hypervisor.Memory.{Memory, done, crashed}
use infrastructure.Hypervisor.VirtQueue.{new_virt_queue, read_avail_idx, pop}
use infrastructure.Hypervisor.VirtQueue.Rings.{pop_zero_size}

get_elem?-replicate : (n i : ℕ) (q : Queue) → i < n → get_elem? (replicate n q) i ≡ some q
get_elem?-replicate zero i q h = elim h [ ]
get_elem?-replicate (suc n) zero q h = refl
get_elem?-replicate (suc n) (suc i) q h = get_elem?-replicate n i q (omega arith)

queue_at : (t : Transport) (i : ℕ) (q : Queue) → get_elem? t.queues i ≡ some q → queue t i ≡ q
unfolding queue
queue_at t i q e = ground (arith, e)

module _ (device_id features n max : ℕ) (config : List ℕ)
    (i desc_lo desc_hi avail_lo avail_hi used_lo used_hi : ℕ) where
  -- The rings of queue `i` of a new device, then its ready bit, and no size.
  abbrev pub unsized : Transport
  unsized =
      write
        (write_all (new_transport device_id features n max config)
          (set_rings i desc_lo desc_hi avail_lo avail_hi used_lo used_hi))
        0x044 (word 1)

  pub unsized-queue :
      i < n
      → i < 0x100000000
      → All
          (λ v. v < 0x100000000)
          (desc_lo ∷ desc_hi ∷ avail_lo ∷ avail_hi ∷ used_lo ∷ used_hi ∷ [])
      → queue unsized i ≡ record {
        size = 0;
        ready = true;
        desc = put_high (put_low 0 desc_lo) desc_hi;
        avail = put_high (put_low 0 avail_lo) avail_hi;
        used = put_high (put_low 0 used_lo) used_hi;
      }
  unfolding write_register decode new_transport
  unsized-queue h b w =
      let t = new_transport device_id features n max config in
      let t' = write_all t (set_rings i desc_lo desc_hi avail_lo avail_hi used_lo used_hi) in
      let rings =
        set_rings-Programs t i no_queue desc_lo desc_hi avail_lo avail_hi used_lo used_hi b w
          (get_elem?-replicate n i no_queue h) in
      let ready =
        write-Programs t t' i _ 0x044 1 (λ q. record q { ready = bit 0 1 }) (omega arith)
          (omega arith) refl rings in
      queue_at unsized i _ (ready.0.1)

  -- A driver that hands over the rings of a queue and makes it ready, but never writes its size,
  -- has a ready queue of size 0, and the first request that it announces there makes `Pop` divide
  -- by zero.
  pub pop-unsized :
      i < n
      → i < 0x100000000
      → All
          (λ v. v < 0x100000000)
          (desc_lo ∷ desc_hi ∷ avail_lo ∷ avail_hi ∷ used_lo ∷ used_hi ∷ [])
      → (m : Memory) (avail_idx : ℕ)
      → read_avail_idx m (new_virt_queue (queue unsized i)) ≡ done avail_idx
      → avail_idx ≢ 0
      → ((queue unsized i).ready ≡ true) × ((pop m (new_virt_queue (queue unsized i))).0 ≡ crashed)
  unfolding new_virt_queue
  pop-unsized h b w m avail_idx e ne = (
    ap (λ q. q.ready) (unsized-queue h b w),
    pop_zero_size m (new_virt_queue (queue unsized i)) avail_idx
        (ap (λ q. (new_virt_queue q).size) (unsized-queue h b w)) e ne,
  )
