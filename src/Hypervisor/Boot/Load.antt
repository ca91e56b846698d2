-- ===== src/Hypervisor/Boot/Load.antt =====
-- internal/hypervisor/machine.go: `write` and `loadGuest`, which put into the guest's memory what the
-- boot protocol asks for. A Go map is ranged over in an order that is not known: `range` is any.
pub mod Pages
pub mod Tables
pub mod Guest
use infrastructure.Prelude.{
  ℕ, ◌+◌, List, [], ◌∷◌, ltb, ◌==◌, if◌then◌else◌, Result, ok, err, failure, ◌>>=◌,
}
use infrastructure.Hypervisor.Word.{u32, u64}
use infrastructure.Hypervisor.Memory.{Memory}
use infrastructure.Hypervisor.Boot.{
  gdt_addr, mp_table_addr, cmdline_addr, boot_params_addr, kernel_load_addr,
}
use infrastructure.Hypervisor.Boot.Buffer.{copy, of_list}
use infrastructure.Hypervisor.Boot.Paging.{build_page_tables}
use infrastructure.Hypervisor.Boot.Gdt.{build_gdt}
use infrastructure.Hypervisor.Boot.MpTable.{build_mp_table}
use infrastructure.Hypervisor.Boot.Placement.{build_cmdline, place_initrd, build_e820}
use infrastructure.Hypervisor.Boot.Image.{Image, build_boot_params}

unfoldable pub write : Memory → ℕ → Memory → Result Memory
unfolding copy
write m addr b =
    if ltb m.size (u64 (addr + b.size))
    then err (failure "hypervisor: write overruns guest memory")
    else ok (copy m addr b)

unfoldable pub write_pages : Memory → List (ℕ × Memory) → Result Memory
unfolding write
write_pages m [] = ok m
write_pages m (p ∷ ps) = do next ← write m (p.0) (p.1); write_pages next ps

-- The write of the initrd, if there is any.
abbrev pub write_initrd : Memory → ℕ → Memory → Result Memory
unfolding write
write_initrd m addr initrd = if initrd.size == 0 then ok m else write m addr initrd

-- The structures that stand below the kernel's address, up to the command line.
unfoldable pub load_tables :
    (List (ℕ × Memory) → List (ℕ × Memory)) → Image → Memory → ℕ → ℕ → Memory → Result Memory
unfolding write_pages write build_page_tables build_gdt build_mp_table build_cmdline
load_tables range img cmdline mem_size num_cpus m = do
  pages ← build_page_tables mem_size
  paged ← write_pages m (range pages)
  with_gdt ← write paged gdt_addr build_gdt
  mp_table ← build_mp_table num_cpus
  with_mp ← write with_gdt mp_table_addr (of_list mp_table)
  line ← build_cmdline cmdline img.cmdline_size
  write with_mp cmdline_addr line

-- `loadGuest`
unfoldable pub load_guest :
    (List (ℕ × Memory) → List (ℕ × Memory))
    → Image
    → Memory
    → Memory
    → ℕ
    → ℕ
    → Memory
    → Result Memory
unfolding load_tables write write_initrd place_initrd build_e820 build_boot_params
load_guest range img initrd cmdline mem_size num_cpus m = do
  tables ← load_tables range img cmdline mem_size num_cpus m
  initrd_addr ← place_initrd mem_size initrd.size img.initrd_addr_max
  with_initrd ← write_initrd tables initrd_addr initrd
  e820 ← build_e820 mem_size
  zp ← build_boot_params img (u32 cmdline_addr) (u32 initrd_addr) (u32 initrd.size) e820
  with_zp ← write with_initrd boot_params_addr zp
  write with_zp kernel_load_addr img.code
