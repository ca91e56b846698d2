-- ===== src/Hypervisor/Boot.antt =====
-- internal/hypervisor/boot/layout.go, and how machine.go writes into the guest's memory. A `[]byte` is
-- a `Memory`: its length, and its bytes by their index.
pub mod Buffer
pub mod Paging
pub mod MpTable
pub mod Placement
pub mod Gdt
pub mod Image
pub mod Load
mod Examples
use infrastructure.Prelude.{ℕ}

abbrev pub boot_params_addr : ℕ
boot_params_addr = 0x7000

abbrev pub cmdline_addr : ℕ
cmdline_addr = 0x20000

abbrev pub cmdline_max_size : ℕ
cmdline_max_size = 0x10000

abbrev pub pml4_addr : ℕ
pml4_addr = 0x9000

abbrev pub pdpt_addr : ℕ
pdpt_addr = 0xa000

abbrev pub pd_addr : ℕ
pd_addr = 0xb000

abbrev pub gdt_addr : ℕ
gdt_addr = 0x6000

abbrev pub mp_table_addr : ℕ
mp_table_addr = 0x9fc00

abbrev pub kernel_load_addr : ℕ
kernel_load_addr = 0x100000
