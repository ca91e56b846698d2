-- ===== src/Hypervisor/Transport/Queues.antt =====
-- What a guest can do to the queues of a transport, through any sequence of register writes.
use infrastructure.Prelude.{
  ℕ, ◌≤◌, ◌≡◌, refl, ◌∙◌, inl, inr, List, [], ◌∷◌, arith, All, All-set, All-replicate,
  All-get_elem?, length, length-set, length-replicate, Option-cases, Bool-cases, leb, ◌==◌,
}
use infrastructure.Hypervisor.Word.{le_u32, put_u32}
use infrastructure.Hypervisor.Transport.{
  Queue, no_queue, Transport, reset, new_transport, selected_queue, Register, decode, with_selected,
  write_register, write, device_features_sel, driver_features_sel, driver_features, queue_sel,
  queue_num, interrupt_ack, status, other,
}

-- A guest's writes, each an offset and its bytes, in order.
unfoldable pub write_all : Transport → List (ℕ × List ℕ) → Transport
write_all t [] = t
write_all t ((offset, buffer) ∷ ws) = write_all (write t offset buffer) ws

-- What construction fixes: everything but the status, the selectors, the driver's features and the
-- queues, which stay within the number and the size announced to the driver.
pub record Fits (n max : ℕ) (num_queues queue_max_size : ℕ) (queues : List Queue) : Type 0 where
  pub same_number : num_queues ≡ n
  pub same_max : queue_max_size ≡ max
  pub number : length queues ≡ n
  pub sizes : All (λ q. q.size ≤ max) queues

abbrev pub IsWithin : ℕ → ℕ → Transport → Type 0
IsWithin n max t = Fits n max t.num_queues t.queue_max_size t.queues

module _ {n max : ℕ} where
  reset-IsWithin : (t : Transport) → IsWithin n max t → IsWithin n max (reset t)
  unfolding reset
  reset-IsWithin t w = record {
    same_number = w.same_number;
    same_max = w.same_max;
    number = length-replicate t.num_queues no_queue ∙ w.same_number;
    sizes = All-replicate (λ q. q.size ≤ max) t.num_queues no_queue (omega arith);
  }

  with_selected-IsWithin :
      (t : Transport) (change : Queue → Queue)
      → ((q : Queue) → q.size ≤ max → (change q).size ≤ max)
      → IsWithin n max t
      → IsWithin n max (with_selected t change)
  unfolding with_selected
  with_selected-IsWithin t change h w = elim (Option-cases (selected_queue t)) [
    | inl e ↦ rw (e, with_selected) w
    | inr (q, e) ↦
        rw (e, with_selected)
          (record {
            same_number = w.same_number;
            same_max = w.same_max;
            number = length-set t.queues t.queue_sel (change q) ∙ w.number;
            sizes =
                All-set (λ r. r.size ≤ max) t.queues t.queue_sel (change q)
                  (h q (All-get_elem? (λ r. r.size ≤ max) t.queues t.queue_sel q w.sizes e))
                  w.sizes;
          })
  ]

  write_register-IsWithin :
      (r : Register) (t : Transport) (v : ℕ)
      → IsWithin n max t
      → IsWithin n max (write_register r t v)
  unfolding write_register
  write_register-IsWithin device_features_sel t v w = w
  write_register-IsWithin driver_features_sel t v w = w
  write_register-IsWithin driver_features t v w = w
  write_register-IsWithin queue_sel t v w = w
  write_register-IsWithin interrupt_ack t v w = w
  write_register-IsWithin other t v w = w
  write_register-IsWithin queue_num t v w =
      with_selected-IsWithin t _ (λ q h. ground (arith, w.same_max)) w
  write_register-IsWithin status t v w = elim (Bool-cases (v == 0)) [
    | inl e ↦ rw e (reset-IsWithin t w)
    | inr e ↦ rw e w
  ]
  write_register-IsWithin _ t v w = with_selected-IsWithin t _ (λ q h. h) w

  write-IsWithin :
      (t : Transport) (offset : ℕ) (buffer : List ℕ)
      → IsWithin n max t
      → IsWithin n max (write t offset buffer)
  unfolding write
  write-IsWithin t offset (a ∷ b ∷ c ∷ d ∷ []) w = elim (Bool-cases (leb 0x100 offset)) [
    | inl e ↦ rw e w
    | inr e ↦ rw e (write_register-IsWithin (decode offset) t (le_u32 a b c d) w)
  ]
  write-IsWithin t offset buffer w = w

  write_all-IsWithin :
      (ws : List (ℕ × List ℕ)) (t : Transport) → IsWithin n max t → IsWithin n max (write_all t ws)
  unfolding write_all
  write_all-IsWithin [] t w = w
  write_all-IsWithin ((offset, buffer) ∷ ws) t w =
      write_all-IsWithin ws (write t offset buffer) (write-IsWithin t offset buffer w)

-- Whatever a guest writes to a new device, there are as many queues as the device announced, and
-- none is larger than the maximum that it announced.
pub write_all-new_transport :
    (device_id features n max : ℕ) (config : List ℕ) (ws : List (ℕ × List ℕ))
    → IsWithin n max (write_all (new_transport device_id features n max config) ws)
unfolding new_transport
write_all-new_transport device_id features n max config ws = write_all-IsWithin ws _ (record {
  same_number = refl;
  same_max = refl;
  number = length-replicate n no_queue;
  sizes = All-replicate (λ q. q.size ≤ max) n no_queue (omega arith);
})

-- The four bytes of a 32-bit value.
abbrev pub word : ℕ → List ℕ
word v = put_u32 v

-- How a driver hands over the addresses of a queue's three rings, each in two halves.
abbrev pub set_rings : ℕ → ℕ → ℕ → ℕ → ℕ → ℕ → ℕ → List (ℕ × List ℕ)
set_rings i desc_lo desc_hi avail_lo avail_hi used_lo used_hi =
    (0x030, word i)
    ∷ (0x080, word desc_lo)
    ∷ (0x084, word desc_hi)
    ∷ (0x090, word avail_lo)
    ∷ (0x094, word avail_hi)
    ∷ (0x0a0, word used_lo)
    ∷ (0x0a4, word used_hi)
    ∷ []
