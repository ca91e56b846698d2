-- ===== src/Hypervisor/Boot/Load/Tables.antt =====
-- The structures below the kernel: the page tables, the GDT, the MP table and the command line.
use mathlib.Core.List.Permᴰ.{Permᴰ}
use infrastructure.Prelude.{
  ℕ, ◌+◌, ◌*◌, ◌≤◌, ◌<◌, ◌≡◌, refl, sym, ap, ◌∙◌, subst, ◌⊎◌, inl, inr, List, ltb, ok, ok-injective,
  err-ok, arith, Bool-cases,
}
use infrastructure.Hypervisor.Word.{u64}
use infrastructure.Hypervisor.Memory.{Memory}
use infrastructure.Hypervisor.Boot.{
  pml4_addr, pdpt_addr, gdt_addr, mp_table_addr, cmdline_addr, kernel_load_addr, pd_addr,
}
use infrastructure.Hypervisor.Boot.Buffer.{copy, of_list}
use infrastructure.Hypervisor.Boot.Paging.{page_size, num_gb, pml4, pdpt, pd, build_page_tables}
use infrastructure.Hypervisor.Boot.Paging.Walk.{Holds, IsMapped, pml4-size, pdpt-size, pd-size}
use infrastructure.Hypervisor.Boot.Gdt.{build_gdt}
use infrastructure.Hypervisor.Boot.MpTable.{build_mp_table}
use infrastructure.Hypervisor.Boot.MpTable.Processors.{length-build_mp_table}
use infrastructure.Hypervisor.Boot.Placement.{build_cmdline}
use infrastructure.Hypervisor.Boot.Placement.Cmdline.{build_cmdline_lem}
use infrastructure.Hypervisor.Boot.Image.{Image}
use infrastructure.Hypervisor.Boot.Load.{write, write_pages, load_tables}
use infrastructure.Hypervisor.Boot.Load.Pages.{
  Apart, Result->>=_ok, copy-Holds, copy_stays, write_ok, write_pages-IsMapped, write_pages-size,
  tables,
}

-- A write that succeeded: what it holds, and what it keeps.
pub record Wrote (m : Memory) (a : ℕ) (b next : Memory) : Type 0 where
  pub there : Holds next a b
  pub kept : (c : ℕ) (d : Memory) → Apart a b.size c d.size → Holds m c d → Holds next c d
  pub same : next.size ≡ m.size
  pub within : u64 (a + b.size) ≤ m.size

pub write-Wrote : (m : Memory) (a : ℕ) (b next : Memory) → write m a b ≡ ok next → Wrote m a b next
unfolding copy
write-Wrote m a b next h =
    let (done, fits) = write_ok m a b next h in
    record {
      there = subst (λ n. Holds n a b) (sym done) (copy-Holds m a b);
      kept =
          λ c d apart held. subst (λ n. Holds n c d) (sym done) (copy_stays m a b c d apart held);
      same = ap (λ n. n.size) done;
      within = fits;
    }

build_gdt-size : build_gdt.size ≡ 24
unfolding build_gdt
build_gdt-size = refl

-- The structures that `load_tables` leaves.
pub record IsTabled (cmdline : Memory) (kernel_max mem_size num_cpus : ℕ) (m : Memory)
    : Type 0 where
  pub mapped : IsMapped m (num_gb mem_size)
  pub few : num_gb mem_size ≤ 21
  pub gdt : Holds m gdt_addr build_gdt
  pub mp : List ℕ
  pub mp_built : build_mp_table num_cpus ≡ ok mp
  pub mp_held : Holds m mp_table_addr (of_list mp)
  pub line : Memory
  pub line_built : build_cmdline cmdline kernel_max ≡ ok line
  pub line_held : Holds m cmdline_addr line

-- A range that meets none of them.
abbrev pub IsClear : ℕ → ℕ → Type 0
IsClear a size = (kernel_load_addr ≤ a) ⊎ ((gdt_addr + 24 ≤ a) × (a + size ≤ pml4_addr))

module _ (m : Memory) (a : ℕ) (b next : Memory) (w : Wrote m a b next) where
  Wrote-IsMapped :
      (n : ℕ)
      → n ≤ 21
      → (cmdline_addr ≤ a) ⊎ (a + b.size ≤ pml4_addr)
      → IsMapped m n
      → IsMapped next n
  Wrote-IsMapped n few clear h = record {
    at_pml4 = w.kept pml4_addr pml4 (ground (arith, pml4-size, clear)) h.at_pml4;
    at_pdpt = w.kept pdpt_addr (pdpt n) (ground (arith, pdpt-size n, clear)) h.at_pdpt;
    at_pd = λ i lt.
        w.kept (pd_addr + i * page_size) (pd i) (ground (arith, pd-size i, clear)) (h.at_pd i lt);
  }

  pub Wrote-IsTabled :
      (cmdline : Memory) (kernel_max mem_size num_cpus : ℕ)
      → cmdline.size < 0x100000000
      → IsClear a b.size
      → IsTabled cmdline kernel_max mem_size num_cpus m
      → IsTabled cmdline kernel_max mem_size num_cpus next
  Wrote-IsTabled cmdline kernel_max mem_size num_cpus small clear t =
      let mp_fits = length-build_mp_table num_cpus t.mp t.mp_built in
      let line_fits = (build_cmdline_lem cmdline kernel_max t.line small t.line_built).2 in
      record {
        few = t.few;
        mp = t.mp;
        mp_built = t.mp_built;
        line = t.line;
        line_built = t.line_built;
        mapped = Wrote-IsMapped (num_gb mem_size) t.few (ground (arith, clear)) t.mapped;
        gdt = w.kept gdt_addr build_gdt (ground (arith, clear, build_gdt-size)) t.gdt;
        mp_held = w.kept mp_table_addr (of_list t.mp) (ground (arith, clear, mp_fits)) t.mp_held;
        line_held = w.kept cmdline_addr t.line (ground (arith, clear, line_fits)) t.line_held;
      }

build_page_tables_ok :
    (mem_size : ℕ) (pages : List (ℕ × Memory))
    → build_page_tables mem_size ≡ ok pages
    → (tables (num_gb mem_size) ≡ pages) × (num_gb mem_size ≤ 21)
unfolding build_page_tables
build_page_tables_ok mem_size pages h =
    elim (Bool-cases (ltb cmdline_addr (pd_addr + num_gb mem_size * page_size))) [
      | inl over ↦ absurd (err-ok (rw over at h))
      | inr fits ↦ (ok-injective (rw fits at h), ground (arith, fits))
    ]

-- The steps of `load_tables`, each with the memory that it leaves.
pub load_tables-IsTabled :
    (range : List (ℕ × Memory) → List (ℕ × Memory)) (img : Image) (cmdline : Memory)
    (mem_size num_cpus : ℕ) (m next : Memory)
    → ((ps : List (ℕ × Memory)) → Permᴰ ps (range ps))
    → cmdline.size < 0x100000000
    → load_tables range img cmdline mem_size num_cpus m ≡ ok next
    → IsTabled cmdline img.cmdline_size mem_size num_cpus next × (next.size ≡ m.size)
unfolding load_tables
load_tables-IsTabled range img cmdline mem_size num_cpus m next order small h =
    let (pages, e1, h1) = Result->>=_ok (build_page_tables mem_size) _ h in
    let (built, few) = build_page_tables_ok mem_size pages e1 in
    let (m1, e2, h2) = Result->>=_ok (write_pages m (range pages)) _ h1 in
    let (m2, e3, h3) = Result->>=_ok (write m1 gdt_addr build_gdt) _ h2 in
    let (mp, e4, h4) = Result->>=_ok (build_mp_table num_cpus) _ h3 in
    let (m3, e5, h5) = Result->>=_ok (write m2 mp_table_addr (of_list mp)) _ h4 in
    let (line, e6, h6) = Result->>=_ok (build_cmdline cmdline img.cmdline_size) _ h5 in
    let w3 = write-Wrote m1 gdt_addr build_gdt m2 e3 in
    let w5 = write-Wrote m2 mp_table_addr (of_list mp) m3 e5 in
    let w6 = write-Wrote m3 cmdline_addr line next h6 in
    let n : ℕ = num_gb mem_size in
    let mp_fits = length-build_mp_table num_cpus mp e4 in
    let line_fits = (build_cmdline_lem cmdline img.cmdline_size line small e6).2 in
    let gdt_fits = build_gdt-size in
    let paged =
      write_pages-IsMapped n (range pages) m m1
        (subst (λ ps. Permᴰ ps (range pages)) (sym built) (order pages)) e2 in
    let mapped2 = Wrote-IsMapped m1 gdt_addr build_gdt m2 w3 n few (inr (ground arith)) paged in
    let mapped3 =
      Wrote-IsMapped m2 mp_table_addr (of_list mp) m3 w5 n few (inl (ground arith)) mapped2 in
    let gdt3 = w5.kept gdt_addr build_gdt (ground arith) w3.there in
    (
      record {
        mapped = Wrote-IsMapped m3 cmdline_addr line next w6 n few (inl (ground arith)) mapped3;
        few = few;
        gdt = w6.kept gdt_addr build_gdt (ground arith) gdt3;
        mp = mp;
        mp_built = e4;
        mp_held = w6.kept mp_table_addr (of_list mp) (ground arith) w5.there;
        line = line;
        line_built = e6;
        line_held = w6.there;
      },
      w6.same ∙ w5.same ∙ w3.same ∙ write_pages-size (range pages) m m1 e2,
    )
