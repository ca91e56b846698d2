-- ===== src/Hypervisor/Boot/Paging.antt =====
-- internal/hypervisor/boot/pagetable.go: the page tables that map the guest's memory onto itself.
pub mod Walk
use infrastructure.Prelude.{
  ℕ, zero, suc, ◌+◌, ◌-◌, ◌*◌, ◌/◌, ◌%◌, List, [], ◌∷◌, ltb, ◌==◌, if◌then◌else◌, Result, ok, err,
  failure,
}
use infrastructure.Hypervisor.Word.{u64}
use infrastructure.Hypervisor.Memory.{Memory}
use infrastructure.Hypervisor.Boot.{pml4_addr, pdpt_addr, pd_addr, cmdline_addr}
use infrastructure.Hypervisor.Boot.Buffer.{make, put_u64_at}

abbrev pub page_size : ℕ
page_size = 0x1000

abbrev pub two_mib : ℕ
two_mib = 0x200000

abbrev pub one_gib : ℕ
one_gib = 0x40000000

unfoldable pub num_gb : ℕ → ℕ
num_gb mem_size = let n = u64 (mem_size + (one_gib - 1)) / one_gib in if n == 0 then 1 else n

-- for i := from; i < from + count; i++ { PutUint64(page[i*8:], entry(i)) }
unfoldable pub fill : ℕ → ℕ → (ℕ → ℕ) → Memory → Memory
fill zero from entry page = page
fill (suc count) from entry page =
    fill count (from + 1) entry (put_u64_at page (from * 8) (entry from))

-- addr | pteFlagPresent | pteFlagWrite, of an address that is a multiple of the page size.
abbrev pub table_entry : ℕ → ℕ
table_entry addr = addr + 3

-- addr | pteFlagPresent | pteFlagWrite | pdeFlagHuge
abbrev pub huge_entry : ℕ → ℕ
huge_entry addr = addr + 0x83

unfoldable pub pml4 : Memory
pml4 = put_u64_at (make page_size) 0 (table_entry pdpt_addr)

unfoldable pub pdpt : ℕ → Memory
unfolding fill
pdpt n = fill n 0 (λ i. table_entry (pd_addr + i * page_size)) (make page_size)

unfoldable pub pd : ℕ → Memory
unfolding fill
pd i = fill 512 0 (λ j. huge_entry (i * one_gib + j * two_mib)) (make page_size)

-- The page directories from `i` on.
unfoldable pub directories : ℕ → ℕ → List (ℕ × Memory)
unfolding pd
directories zero i = []
directories (suc n) i = (pd_addr + i * page_size, pd i) ∷ directories n (i + 1)

-- `BuildPageTables`: the pages by their addresses.
unfoldable pub build_page_tables : ℕ → Result (List (ℕ × Memory))
unfolding num_gb pml4 pdpt directories
build_page_tables mem_size =
    let n = num_gb mem_size in
    if ltb cmdline_addr (pd_addr + n * page_size)
    then err (failure "boot: memory needs more page-directory pages than fit below CmdlineAddr")
    else ok ((pml4_addr, pml4) ∷ (pdpt_addr, pdpt n) ∷ directories n 0)
