-- ===== src/Hypervisor/Boot/Placement.antt =====
-- internal/hypervisor/boot/cmdline.go and e820.go: the command line, where the initrd is placed, and
-- the map of the memory. A length is not negative.
pub mod Initrd
pub mod Cmdline
use infrastructure.Prelude.{
  ℕ, ◌+◌, ◌-◌, ◌*◌, ◌/◌, ◌%◌, Bool, List, [], ◌∷◌, ltb, leb, ◌==◌, if◌then◌else◌, Result, ok, err,
  failure,
}
use infrastructure.Hypervisor.Word.{u32, u64}
use infrastructure.Hypervisor.Memory.{Memory}
use infrastructure.Hypervisor.Boot.{cmdline_max_size, kernel_load_addr, mp_table_addr}
use infrastructure.Hypervisor.Boot.Buffer.{make, copy}

abbrev pub legacy_cmdline_max : ℕ
legacy_cmdline_max = 255

-- The length that a command line has to stay below.
unfoldable pub cmdline_limit : ℕ → ℕ
cmdline_limit kernel_max =
    let limit = if kernel_max == 0 then legacy_cmdline_max else kernel_max in
    if ltb limit cmdline_max_size then limit else cmdline_max_size

unfoldable pub build_cmdline : Memory → ℕ → Result Memory
unfolding cmdline_limit copy
build_cmdline s kernel_max =
    if leb (cmdline_limit kernel_max) (u32 s.size)
    then err (failure "boot: command line is too long")
    else ok (copy (make (s.size + 1)) 0 s)

abbrev pub legacy_initrd_addr_max : ℕ
legacy_initrd_addr_max = 0x37ffffff

-- The end that an initrd may have at most.
unfoldable pub ceiling : ℕ → ℕ → ℕ
ceiling mem_size max_addr =
    let last = if max_addr == 0 then legacy_initrd_addr_max else max_addr in
    if ltb (last + 1) mem_size then last + 1 else mem_size

unfoldable pub place_initrd : ℕ → ℕ → ℕ → Result ℕ
unfolding ceiling
place_initrd mem_size initrd_len max_addr =
    if initrd_len == 0
    then ok 0
    else let top = ceiling mem_size max_addr in
      let addr = (top - initrd_len) / 0x1000 * 0x1000 in
      if ltb top initrd_len
      then err (failure "boot: initrd does not fit")
      else if ltb addr kernel_load_addr
      then err (failure "boot: initrd does not fit")
      else ok addr

-- An entry of RAM; no other type is used.
pub record E820Entry : Type 0 where
  pub addr : ℕ
  pub size : ℕ

unfoldable pub build_e820 : ℕ → Result (List E820Entry)
build_e820 mem_size =
    if leb mem_size kernel_load_addr
    then err (failure "boot: memory is not enough to load a kernel")
    else ok (
        record { addr = 0; size = mp_table_addr }
        ∷ record { addr = kernel_load_addr; size = mem_size - kernel_load_addr }
        ∷ [])
