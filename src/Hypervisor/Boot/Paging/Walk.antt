-- ===== src/Hypervisor/Boot/Paging/Walk.antt =====
-- How the processor walks the page tables, and where that leads.
use infrastructure.Prelude.{
  ℕ, zero, suc, ◌+◌, ◌*◌, ◌/◌, ◌%◌, ◌≤◌, ◌<◌, ◌≡◌, refl, ap, ◌∙◌, inl, inr, ◌⊎◌, Bool, true, false,
  not, ◌&&◌, Option, none, some, ltb, if◌then◌else◌, arith, Bool-cases,
}
use infrastructure.Hypervisor.Word.{bit}
use infrastructure.Hypervisor.Memory.{Memory, u64_at}
use infrastructure.Hypervisor.Boot.{pml4_addr, pdpt_addr, pd_addr}
use infrastructure.Hypervisor.Boot.Buffer.{
  make, put_u64_at, u64_at-put_u64_at, u64_at-put_u64_at_apart, u64_at_same,
}
use infrastructure.Hypervisor.Boot.Paging.{
  page_size, two_mib, one_gib, fill, table_entry, huge_entry, pml4, pdpt, pd,
}

-- The entry of a table for an index; the frame that it holds, bits 12 to 51; and whether a write may
-- go through it.
abbrev pub entry : Memory → ℕ → ℕ → ℕ
entry m table index = u64_at m (table + index % 512 * 8)

abbrev pub frame : ℕ → ℕ
frame e = e / 0x1000 % 0x10000000000 * 0x1000

abbrev pub is_usable : ℕ → Bool
is_usable e = bit 0 e && bit 1 e

-- The processor's walk for a write to the virtual address `v`: four levels, with pages of 1 GiB, 2 MiB
-- and 4 KiB; `none` is a page fault.
unfoldable pub walk_pt : Memory → ℕ → ℕ → Option ℕ
walk_pt m table v =
    let e = entry m table (v / 0x1000) in if is_usable e then some (frame e + v % 0x1000) else none

unfoldable pub walk_pd : Memory → ℕ → ℕ → Option ℕ
unfolding walk_pt
walk_pd m table v =
    let e = entry m table (v / two_mib) in
    if not (is_usable e)
    then none
    else if bit 7 e
    then some (frame e / two_mib * two_mib + v % two_mib)
    else walk_pt m (frame e) v

unfoldable pub walk_pdpt : Memory → ℕ → ℕ → Option ℕ
unfolding walk_pd
walk_pdpt m table v =
    let e = entry m table (v / one_gib) in
    if not (is_usable e)
    then none
    else if bit 7 e
    then some (frame e / one_gib * one_gib + v % one_gib)
    else walk_pd m (frame e) v

unfoldable pub walk : Memory → ℕ → ℕ → Option ℕ
unfolding walk_pdpt
walk m table v =
    let e = entry m table (v / (512 * one_gib)) in
    if is_usable e then walk_pdpt m (frame e) v else none

-- The memory holds a slice at an address.
abbrev pub Holds : Memory → ℕ → Memory → Type 0
Holds m addr b = (k : ℕ) → k < b.size → m.byte (addr + k) ≡ b.byte k

-- What `fill` leaves at the indices out of its range and in it.
eq_or_lt : (i j : ℕ) → i ≤ j → (i ≡ j) ⊎ (i < j)
eq_or_lt i j h = ground arith

fill_before :
    (count from : ℕ) (f : ℕ → ℕ) (page : Memory) (j : ℕ)
    → j < from
    → u64_at (fill count from f page) (j * 8) ≡ u64_at page (j * 8)
unfolding fill
fill_before zero from f page j h = refl
fill_before (suc count) from f page j h =
    fill_before count (from + 1) f (put_u64_at page (from * 8) (f from)) j (omega arith)
    ∙ u64_at-put_u64_at_apart page (from * 8) (f from) (j * 8) (inl (omega arith))

fill_after :
    (count from : ℕ) (f : ℕ → ℕ) (page : Memory) (j : ℕ)
    → from + count ≤ j
    → u64_at (fill count from f page) (j * 8) ≡ u64_at page (j * 8)
unfolding fill
fill_after zero from f page j h = refl
fill_after (suc count) from f page j h =
    fill_after count (from + 1) f (put_u64_at page (from * 8) (f from)) j (omega arith)
    ∙ u64_at-put_u64_at_apart page (from * 8) (f from) (j * 8) (inr (omega arith))

fill_in :
    (count from : ℕ) (f : ℕ → ℕ) (page : Memory) (j : ℕ)
    → from ≤ j
    → j < from + count
    → f j < 0x10000000000000000
    → u64_at (fill count from f page) (j * 8) ≡ f j
unfolding fill
fill_in zero from f page j h lt b = absurd (omega arith)
fill_in (suc count) from f page j h lt b = elim (eq_or_lt from j h) [
  | inl e ↦
      fill_before count (from + 1) f (put_u64_at page (from * 8) (f from)) j (omega arith)
      ∙ rw e (u64_at-put_u64_at page (j * 8) (f j) b)
  | inr l ↦
      fill_in count (from + 1) f (put_u64_at page (from * 8) (f from)) j (omega arith) (omega arith)
        b
]

fill-size : (count from : ℕ) (f : ℕ → ℕ) (page : Memory) → (fill count from f page).size ≡ page.size
unfolding fill put_u64_at
fill-size zero from f page = refl
fill-size (suc count) from f page =
    fill-size count (from + 1) f (put_u64_at page (from * 8) (f from))

pub pml4-size : pml4.size ≡ page_size
unfolding pml4 put_u64_at
pml4-size = refl

pub pdpt-size : (n : ℕ) → (pdpt n).size ≡ page_size
unfolding pdpt
pdpt-size n = fill-size n 0 (λ i. table_entry (pd_addr + i * page_size)) (make page_size)

pub pd-size : (i : ℕ) → (pd i).size ≡ page_size
unfolding pd
pd-size i = fill-size 512 0 (λ j. huge_entry (i * one_gib + j * two_mib)) (make page_size)

-- An entry of a table that the memory holds.
entry_held :
    (m : Memory) (addr : ℕ) (b : Memory) (j : ℕ)
    → Holds m addr b
    → b.size ≡ page_size
    → j < 512
    → u64_at m (addr + j * 8) ≡ u64_at b (j * 8)
entry_held m addr b j h s lt =
    u64_at_same m b (addr + j * 8) (j * 8)
      (λ k x y l e f. ap m.byte (as_sum x y k e f) ∙ h y (omega (arith, s, f)))
  where
    as_sum : (x y k : ℕ) → x ≡ addr + j * 8 + k → y ≡ j * 8 + k → x ≡ addr + y
    as_sum x y k e f = omega arith

frame-table_entry : (a : ℕ) → a < 0x10000000000000 → a % 0x1000 ≡ 0 → frame (table_entry a) ≡ a
frame-table_entry a h m = omega arith

is_usable-table_entry : (a : ℕ) → a % 0x1000 ≡ 0 → is_usable (table_entry a) ≡ true
is_usable-table_entry a h = ground arith

-- One level of the walk through an entry that is known.
walk_step :
    (m : Memory) (table v a : ℕ)
    → entry m table (v / (512 * one_gib)) ≡ table_entry a
    → a < 0x10000000000000
    → a % 0x1000 ≡ 0
    → walk m table v ≡ walk_pdpt m a v
unfolding walk
walk_step m table v a e b al = rw (e, is_usable-table_entry a al, frame-table_entry a b al) refl

walk_pdpt_step :
    (m : Memory) (table v a : ℕ)
    → entry m table (v / one_gib) ≡ table_entry a
    → a < 0x10000000000000
    → a % 0x1000 ≡ 0
    → walk_pdpt m table v ≡ walk_pd m a v
unfolding walk_pdpt
walk_pdpt_step m table v a e b al =
    let small : bit 7 (table_entry a) ≡ false = ground arith in
    rw (e, is_usable-table_entry a al, small, frame-table_entry a b al) refl

walk_pd_step :
    (m : Memory) (table v a : ℕ)
    → entry m table (v / two_mib) ≡ huge_entry a
    → a < 0x10000000000000
    → a % two_mib ≡ 0
    → walk_pd m table v ≡ some (a + v % two_mib)
unfolding walk_pd
walk_pd_step m table v a e b al =
    let usable : is_usable (huge_entry a) ≡ true = ground arith in
    let huge : bit 7 (huge_entry a) ≡ true = ground arith in
    let base : frame (huge_entry a) / two_mib * two_mib ≡ a = omega arith in
    rw (e, usable, huge, base) refl

walk_pdpt_fault :
    (m : Memory) (table v : ℕ) → entry m table (v / one_gib) ≡ 0 → walk_pdpt m table v ≡ none
unfolding walk_pdpt
walk_pdpt_fault m table v e = rw e refl

-- The memory holds the tables for some GiB.
pub record IsMapped (m : Memory) (n : ℕ) : Type 0 where
  pub at_pml4 : Holds m pml4_addr pml4
  pub at_pdpt : Holds m pdpt_addr (pdpt n)
  pub at_pd : (i : ℕ) → i < n → Holds m (pd_addr + i * page_size) (pd i)

module _ (m : Memory) (n v : ℕ) (h : IsMapped m n) (few : n ≤ 21) where
  at_top : v < 512 * one_gib → entry m pml4_addr (v / (512 * one_gib)) ≡ table_entry pdpt_addr
  unfolding pml4 put_u64_at
  at_top lt =
      let e =
        entry_held m pml4_addr pml4 (v / (512 * one_gib) % 512) h.at_pml4 pml4-size (omega arith) in
      let zero : v / (512 * one_gib) % 512 ≡ 0 = omega arith in
      e ∙ rw zero (u64_at-put_u64_at (make page_size) 0 (table_entry pdpt_addr) (omega arith))

  at_gib :
      v < n * one_gib
      → entry m pdpt_addr (v / one_gib) ≡ table_entry (pd_addr + v / one_gib * page_size)
  unfolding pdpt
  at_gib lt =
      let small : v / one_gib % 512 ≡ v / one_gib = omega arith in
      entry_held m pdpt_addr (pdpt n) (v / one_gib % 512) h.at_pdpt (pdpt-size n) (omega arith)
      ∙ rw small (
          fill_in n 0 (λ i. table_entry (pd_addr + i * page_size)) (make page_size) (v / one_gib)
            (omega arith) (omega arith) (omega arith))

  past_gib : n * one_gib ≤ v → v < 512 * one_gib → entry m pdpt_addr (v / one_gib) ≡ 0
  unfolding pdpt
  past_gib le lt =
      let small : v / one_gib % 512 ≡ v / one_gib = omega arith in
      entry_held m pdpt_addr (pdpt n) (v / one_gib % 512) h.at_pdpt (pdpt-size n) (omega arith)
      ∙ rw small (
          fill_after n 0 (λ i. table_entry (pd_addr + i * page_size)) (make page_size) (v / one_gib)
            (omega arith))

  at_two_mib :
      v < n * one_gib
      → entry m (pd_addr + v / one_gib * page_size) (v / two_mib)
        ≡ huge_entry (v / one_gib * one_gib + v / two_mib % 512 * two_mib)
  unfolding pd
  at_two_mib lt =
      entry_held m (pd_addr + v / one_gib * page_size) (pd (v / one_gib)) (v / two_mib % 512)
        (h.at_pd (v / one_gib) (omega arith)) (pd-size (v / one_gib)) (omega arith)
      ∙ fill_in 512 0 (λ j. huge_entry (v / one_gib * one_gib + j * two_mib)) (make page_size)
          (v / two_mib % 512) (omega arith) (omega arith) (omega arith)

  -- Where the walk for an address below 512 GiB leads: to itself within the memory that is mapped,
  -- and to a page fault beyond.
  pub walk_lem :
      v < 512 * one_gib → walk m pml4_addr v ≡ (if ltb v (n * one_gib) then some v else none)
  walk_lem lt = elim (Bool-cases (ltb v (n * one_gib))) [
    | inl b ↦
        let inside : v < n * one_gib = ground arith in
        let base : ℕ = v / one_gib * one_gib + v / two_mib % 512 * two_mib in
        let same : base + v % two_mib ≡ v = omega arith in
        walk_step m pml4_addr v pdpt_addr (at_top lt) (omega arith) (omega arith)
        ∙ walk_pdpt_step m pdpt_addr v (pd_addr + v / one_gib * page_size) (at_gib inside)
            (omega arith) (omega arith)
        ∙ walk_pd_step m (pd_addr + v / one_gib * page_size) v base (at_two_mib inside)
            (omega arith) (omega arith)
        ∙ rw (b, same) refl
    | inr b ↦
        walk_step m pml4_addr v pdpt_addr (at_top lt) (omega arith) (omega arith)
        ∙ walk_pdpt_fault m pdpt_addr v (past_gib (ground arith) lt)
        ∙ rw b refl
  ]
