-- ===== src/Hypervisor/Transport/Registers.antt =====
-- What the driver writes to the registers of a queue arrives in that queue and nowhere else.
use infrastructure.Prelude.{
  All, subst, ℕ, zero, suc, ◌+◌, ◌*◌, ◌<◌, ◌≡◌, refl, sym, ap, ◌∙◌, ◌≢◌, inl, inr, List, [], ◌∷◌,
  some, arith, length, get_elem?, get_elem?-set_self, get_elem?-set_ne, Option-cases,
}
use infrastructure.Hypervisor.Word.{put_low, put_high, put_u32, le_u32-put_u32}
use infrastructure.Hypervisor.Transport.{
  Queue, Transport, selected_queue, decode, with_selected, write_register, write, queue,
}
use infrastructure.Hypervisor.Transport.Queues.{write_all, word, set_rings}

-- Queue `i` is selected, and is `q`.
abbrev pub Selects : Transport → ℕ → Queue → Type 0
Selects t i q = (t.queue_sel ≡ i) × (get_elem? t.queues i ≡ some q)

get_elem?-lt : (qs : List Queue) (i : ℕ) (q : Queue) → get_elem? qs i ≡ some q → i < length qs
get_elem?-lt [] i q e = cc
get_elem?-lt (r ∷ qs) zero q e = omega arith
get_elem?-lt (r ∷ qs) (suc i) q e = omega (arith, get_elem?-lt qs i q e)

write-word :
    (t : Transport) (offset v : ℕ)
    → v < 0x100000000
    → offset < 0x100
    → write t offset (word v) ≡ write_register (decode offset) t v
unfolding write put_u32
write-word t offset v h k = ground (arith, le_u32-put_u32 v h)

with_selected-Selects :
    (t : Transport) (i : ℕ) (q : Queue) (change : Queue → Queue)
    → Selects t i q
    → Selects (with_selected t change) i (change q)
unfolding with_selected
with_selected-Selects t i q change (sel, e) =
    let e' : selected_queue t ≡ some q = ap (get_elem? t.queues) sel ∙ e in
    rw (e', with_selected)
      (sel, rw sel (get_elem?-set_self t.queues i (change q) (get_elem?-lt t.queues i q e)))

with_selected_ne :
    (t : Transport) (j : ℕ) (change : Queue → Queue)
    → t.queue_sel ≢ j
    → get_elem? (with_selected t change).queues j ≡ get_elem? t.queues j
unfolding with_selected
with_selected_ne t j change h = elim (Option-cases (selected_queue t)) [
  | inl e ↦ rw (e, with_selected) refl
  | inr (q, e) ↦ rw (e, with_selected) (get_elem?-set_ne t.queues t.queue_sel j (change q) h)
]

-- Queue `i` is selected and is `q`, and every other queue is as in `before`.
abbrev pub Programs : Transport → Transport → ℕ → Queue → Type 0
Programs before t i q =
    Selects t i q × ((j : ℕ) → i ≢ j → get_elem? t.queues j ≡ get_elem? before.queues j)

-- A write to a register of the selected queue.
pub write-Programs :
    (before t : Transport) (i : ℕ) (q : Queue) (offset v : ℕ) (change : Queue → Queue)
    → v < 0x100000000
    → offset < 0x100
    → write_register (decode offset) t v ≡ with_selected t change
    → Programs before t i q
    → Programs before (write t offset (word v)) i (change q)
write-Programs before t i q offset v change h k e (s, others) =
    subst (λ u. Programs before u i (change q)) (sym (write-word t offset v h k ∙ e))
      (
        with_selected-Selects t i q change s,
        λ j ne. with_selected_ne t j change (λ c. ne (sym (s.0) ∙ c)) ∙ others j ne,
      )

select-Programs :
    (t : Transport) (i : ℕ) (q : Queue)
    → i < 0x100000000
    → get_elem? t.queues i ≡ some q
    → Programs t (write t 0x030 (word i)) i q
unfolding write_register decode
select-Programs t i q h e =
    subst (λ u. Programs t u i q) (sym (write-word t 0x030 i h (omega arith)))
      ((refl, e), λ j ne. refl)

-- Where the six halves of the three ring addresses go.
pub set_rings-Programs :
    (t : Transport) (i : ℕ) (q : Queue) (desc_lo desc_hi avail_lo avail_hi used_lo used_hi : ℕ)
    → i < 0x100000000
    → All (λ v. v < 0x100000000) (desc_lo ∷ desc_hi ∷ avail_lo ∷ avail_hi ∷ used_lo ∷ used_hi ∷ [])
    → get_elem? t.queues i ≡ some q
    → Programs t
        (write_all t (set_rings i desc_lo desc_hi avail_lo avail_hi used_lo used_hi))
        i
        (record q {
          desc = put_high (put_low q.desc desc_lo) desc_hi;
          avail = put_high (put_low q.avail avail_lo) avail_hi;
          used = put_high (put_low q.used used_lo) used_hi;
        })
unfolding write_all write_register decode
set_rings-Programs t i q desc_lo desc_hi avail_lo avail_hi used_lo used_hi h w e =
    let t0 = write t 0x030 (word i) in
    let t1 = write t0 0x080 (word desc_lo) in
    let t2 = write t1 0x084 (word desc_hi) in
    let t3 = write t2 0x090 (word avail_lo) in
    let t4 = write t3 0x094 (word avail_hi) in
    let t5 = write t4 0x0a0 (word used_lo) in
    let p0 = select-Programs t i q h e in
    let p1 = write-Programs t t0 i q 0x080 desc_lo _ (w.0) (omega arith) refl p0 in
    let p2 = write-Programs t t1 i _ 0x084 desc_hi _ (w.1.0) (omega arith) refl p1 in
    let p3 = write-Programs t t2 i _ 0x090 avail_lo _ (w.1.1.0) (omega arith) refl p2 in
    let p4 = write-Programs t t3 i _ 0x094 avail_hi _ (w.1.1.1.0) (omega arith) refl p3 in
    let p5 = write-Programs t t4 i _ 0x0a0 used_lo _ (w.1.1.1.1.0) (omega arith) refl p4 in
    write-Programs t t5 i _ 0x0a4 used_hi _ (w.1.1.1.1.1.0) (omega arith) refl p5

-- A driver that selects a queue and writes the halves of its three ring addresses gives that queue
-- these addresses, leaves its size and readiness, and touches no other queue.
pub set_rings_lem :
    (t : Transport) (i : ℕ) (q : Queue) (desc_lo desc_hi avail_lo avail_hi used_lo used_hi : ℕ)
    → i < 0x100000000
    → All (λ v. v < 0x100000000) (desc_lo ∷ desc_hi ∷ avail_lo ∷ avail_hi ∷ used_lo ∷ used_hi ∷ [])
    → get_elem? t.queues i ≡ some q
    → (j : ℕ) → i ≢ j
    → let u = write_all t (set_rings i desc_lo desc_hi avail_lo avail_hi used_lo used_hi) in
      (queue u i ≡ record q {
        desc = desc_lo + desc_hi * 0x100000000;
        avail = avail_lo + avail_hi * 0x100000000;
        used = used_lo + used_hi * 0x100000000;
      })
      × (queue u j ≡ queue t j)
unfolding queue
set_rings_lem t i q desc_lo desc_hi avail_lo avail_hi used_lo used_hi h w e j ne =
    let (s, others) =
      set_rings-Programs t i q desc_lo desc_hi avail_lo avail_hi used_lo used_hi h w e in
    (ground (arith, s.1), ground (arith, others j ne))
