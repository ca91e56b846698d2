-- ===== src/Hypervisor/Boot/MpTable/Processors.antt =====
-- What a kernel reads in the table.
use mathlib.Core.Option.{some-injective}
use infrastructure.Prelude.{
  ℕ, zero, suc, ◌+◌, ◌-◌, ◌*◌, ◌%◌, ◌≤◌, ◌<◌, ◌≡◌, refl, ap, ◌∙◌, List, [], ◌∷◌, ◌++◌, ◌==◌,
  if◌then◌else◌, ◌&&◌, ltb, Bool-cases, inl, inr, ◌||◌, arith, length, set, take, drop, append-nil,
  length-append, length-set, ok, err-ok, ok-injective, Option, none, some, get_elem?,
}
use infrastructure.Hypervisor.Word.{u8, u16, put_u32}
use infrastructure.Hypervisor.Boot.Buffer.{nth}
use infrastructure.Hypervisor.Boot.{mp_table_addr, kernel_load_addr}
use infrastructure.Hypervisor.Boot.MpTable.{
  max_mp_cpus, mpc_cpus, mpc_others, mpc_entries, mpc_header, sum_from, checksum8, mpc_table,
  mpf_intel, build_mp_table,
}

-- The sum of some bytes.
unfoldable pub total : List ℕ → ℕ
total [] = 0
total (b ∷ bs) = b + total bs

total-append : (xs ys : List ℕ) → total (xs ++ ys) ≡ total xs + total ys
unfolding total
total-append [] ys = omega arith
total-append (x ∷ xs) ys = omega (arith, total-append xs ys)

sum_from_lem : (sum : ℕ) (bs : List ℕ) → sum < 0x100 → sum_from sum bs ≡ (sum + total bs) % 0x100
unfolding sum_from total
sum_from_lem sum [] h = omega arith
sum_from_lem sum (b ∷ bs) h = omega (arith, sum_from_lem (u8 (sum + b)) bs (omega arith))

total-set : (bs : List ℕ) (i v : ℕ) → get_elem? bs i ≡ some 0 → total (set bs i v) ≡ total bs + v
unfolding total
total-set [] i v h = cc
total-set (b ∷ bs) zero v h = let zero : b ≡ 0 = some-injective _ _ h in omega arith
total-set (b ∷ bs) (suc i) v h = omega (arith, total-set bs i v h)

-- Bytes with their checksum in a place that was zero add up to nothing.
checksum8_lem :
    (bs : List ℕ) (i : ℕ) → get_elem? bs i ≡ some 0 → total (set bs i (checksum8 bs)) % 0x100 ≡ 0
unfolding checksum8
checksum8_lem bs i h =
    omega (arith, total-set bs i (checksum8 bs) h, sum_from_lem 0 bs (omega arith))

-- A processor entry as a kernel reads it: its APIC ID, and its flags: 1 is enabled, 2 is the boot
-- processor.
pub record Processor : Type 0 where
  pub id : ℕ
  pub flags : ℕ

-- A kernel's pass over a number of entries: those of type 0 are processors and have 20 bytes, all
-- others have 8.
abbrev pub noted : ℕ → List ℕ → List Processor → List Processor
noted kind (id ∷ version ∷ flags ∷ rest) seen =
    if kind == 0 then record { id = id; flags = flags } ∷ seen else seen
noted kind bytes seen = seen

unfoldable pub scan : ℕ → List ℕ → List Processor
scan zero bytes = []
scan (suc count) [] = []
scan (suc count) (kind ∷ bytes) =
    let rest = scan count (drop (if kind == 0 then 19 else 7) bytes) in noted kind bytes rest

-- A kernel's reading of the table at its address: the pointer structure and the table that it points to
-- have to add up to nothing.
unfoldable pub read_mp_table : List ℕ → Option (List Processor)
unfolding total scan
read_mp_table bytes =
    let at = nth bytes 4 + nth bytes 5 * 0x100 + nth bytes 6 * 0x10000 + nth bytes 7 * 0x1000000 in
    let config = drop (at - mp_table_addr) bytes in
    let size = nth config 4 + nth config 5 * 0x100 in
    let count = nth config 34 + nth config 35 * 0x100 in
    if total (take 16 bytes) % 0x100 == 0
      && total (take size config) % 0x100 == 0
      && ltb mp_table_addr at
    then some (scan count (drop 44 config))
    else none

-- The processors of a machine, from an ID on.
unfoldable pub processors : ℕ → ℕ → List Processor
processors zero id = []
processors (suc count) id =
    record { id = id; flags = if id == 0 then 3 else 1 } ∷ processors count (id + 1)

length-mpc_cpus : (count id : ℕ) → length (mpc_cpus count id) ≡ count * 20
unfolding mpc_cpus put_u32
length-mpc_cpus zero id = omega arith
length-mpc_cpus (suc count) id = omega (arith, length-mpc_cpus count (id + 1))

scan-append :
    (count id more all : ℕ) (tail : List ℕ)
    → all ≡ count + more
    → id + count ≤ 0x100
    → scan all (mpc_cpus count id ++ tail) ≡ processors count id ++ scan more tail
unfolding scan mpc_cpus processors put_u32
scan-append zero id more all tail e h = ap (λ k. scan k tail) (omega (arith, e))
scan-append (suc count) id more all tail e h =
    let next : all ≡ suc (count + more) = omega (arith, e) in
    let small : u8 id ≡ id = omega (arith, h) in
    rw (next, scan-append count (id + 1) more (count + more) tail refl (omega (arith, h)), small)
      refl

take_all : (bs : List ℕ) (n : ℕ) → n ≡ length bs → take n bs ≡ bs
take_all [] zero h = refl
take_all [] (suc n) h = absurd (omega arith)
take_all (b ∷ bs) zero h = absurd (omega arith)
take_all (b ∷ bs) (suc n) h = ap (λ x. b ∷ x) (take_all bs n (omega arith))

others : (n : ℕ) → scan 4 (mpc_others n) ≡ []
unfolding scan mpc_others
others n = refl

scan-mpc_entries : (n : ℕ) → n ≤ 254 → scan (n + 4) (mpc_entries n) ≡ processors n 0
unfolding mpc_entries
scan-mpc_entries n h = scan-append n 0 4 (n + 4) (mpc_others n) refl (omega arith) ∙ rest
  where
    rest : processors n 0 ++ scan 4 (mpc_others n) ≡ processors n 0
    rest = ap (λ l. processors n 0 ++ l) (others n) ∙ append-nil (processors n 0)

length-mpc_entries : (n : ℕ) → length (mpc_entries n) ≡ n * 20 + 32
unfolding mpc_entries put_u32
length-mpc_entries n =
    length-append (mpc_cpus n 0) (mpc_others n) ∙ omega (arith, length-mpc_cpus n 0)

-- The configuration table as it is read: its size, the count of its entries, its bytes, its entries.
module _ (n : ℕ) (h : n ≤ 254) where
  size_lem : nth (mpc_table n) 4 + nth (mpc_table n) 5 * 0x100 ≡ length (mpc_table n)
  unfolding mpc_table
  size_lem = omega (arith, length-mpc_entries n)

  count_lem : nth (mpc_table n) 34 + nth (mpc_table n) 35 * 0x100 ≡ n + 4
  unfolding mpc_table
  count_lem = omega arith

  total-mpc_table : total (mpc_table n) % 0x100 ≡ 0
  unfolding mpc_table
  total-mpc_table =
      checksum8_lem (mpc_header (u16 (44 + length (mpc_entries n))) n ++ mpc_entries n) 7 refl

  drop_lem : drop 44 (mpc_table n) ≡ mpc_entries n
  unfolding mpc_table
  drop_lem = refl

  read-mpc_table : read_mp_table (mpf_intel ++ mpc_table n) ≡ some (processors n 0)
  unfolding read_mp_table mpf_intel
  read-mpc_table =
      let whole =
        take_all (mpc_table n) (nth (mpc_table n) 4 + nth (mpc_table n) 5 * 0x100) size_lem in
      rw (whole, total-mpc_table, count_lem, drop_lem, scan-mpc_entries n h) refl

length-mpc_table : (n : ℕ) → length (mpc_table n) ≡ n * 20 + 76
unfolding mpc_table mpc_header put_u32
length-mpc_table n =
    let bytes : List ℕ = mpc_header (u16 (44 + length (mpc_entries n))) n ++ mpc_entries n in
    length-set bytes 7 (checksum8 bytes) ∙ omega (arith, length-mpc_entries n)

length-mpf_intel : length mpf_intel ≡ 16
unfolding mpf_intel
length-mpf_intel = refl

-- For 1 to 254 processors there is a table, in which a kernel reads exactly the processors of the
-- machine, the first as the boot processor and each enabled, with both sums right; and the table ends
-- below the kernel.
pub build_mp_table-processors :
    (n : ℕ)
    → 1 ≤ n
    → n ≤ 254
    → (table : List ℕ) × (build_mp_table n ≡ ok table)
      × (read_mp_table table ≡ some (processors n 0))
      × (mp_table_addr + length table ≤ kernel_load_addr)
unfolding build_mp_table
build_mp_table-processors n some_cpu few =
    let size = length-append mpf_intel (mpc_table n) in
    (
      mpf_intel ++ mpc_table n,
      ground arith,
      read-mpc_table n few,
      omega (arith, size, length-mpf_intel, length-mpc_table n),
    )

-- A table ends below the kernel.
pub length-build_mp_table :
    (n : ℕ) (table : List ℕ)
    → build_mp_table n ≡ ok table
    → mp_table_addr + length table ≤ kernel_load_addr
unfolding build_mp_table
length-build_mp_table n table h = elim (Bool-cases (ltb n 1 || ltb max_mp_cpus n)) [
  | inl bad ↦ absurd (err-ok (rw bad at h))
  | inr good ↦ rw (← ok-injective (rw good at h)) (
      ground
        (arith, good, length-append mpf_intel (mpc_table n), length-mpf_intel, length-mpc_table n))
]
