-- ===== src/Hypervisor/Boot/Image.antt =====
-- internal/hypervisor/boot/bzimage.go and zeropage.go: the kernel's image, and the boot parameters.
pub mod Params
pub mod Entries
use infrastructure.Prelude.{
  ℕ, zero, suc, ◌+◌, ◌-◌, ◌*◌, ◌/◌, ◌%◌, Bool, not, List, [], ◌∷◌, ltb, leb, ◌==◌, if◌then◌else◌,
  Result, ok, err, failure, length,
}
use infrastructure.Hypervisor.Word.{u8, bit}
use infrastructure.Hypervisor.Memory.{Memory, u16_at, u32_at, put_byte, put_u32_at}
use infrastructure.Hypervisor.Boot.Buffer.{make, sub, copy, put_u64_at}
use infrastructure.Hypervisor.Boot.Placement.{E820Entry}

abbrev pub header_start : ℕ
header_start = 0x1f1

abbrev pub header_end : ℕ
header_end = 0x290

abbrev pub header_magic : ℕ
header_magic = 0x53726448

pub record Image : Type 0 where
  pub header : Memory
  pub version : ℕ
  pub cmdline_size : ℕ
  pub initrd_addr_max : ℕ
  pub code : Memory

-- The size of the setup code, of which 0 sectors stand for 4.
abbrev pub setup_size : Memory → ℕ
setup_size file = let sects = file.byte 0x1f1 in ((if sects == 0 then 4 else sects) + 1) * 512

abbrev pub parsed : Memory → ℕ → Image
parsed file version = record {
  header = sub file header_start header_end;
  version = version;
  cmdline_size = if leb 0x0206 version then u32_at file 0x238 else 0;
  initrd_addr_max = if leb 0x0203 version then u32_at file 0x22c else 0;
  code = sub file (setup_size file) file.size;
}

unfoldable pub parse : Memory → Result Image
parse file =
    if ltb file.size header_end
    then err (failure "boot: bzImage too short")
    else if not (u16_at file 0x1fe == 0xaa55)
    then err (failure "boot: bad boot sector signature")
    else if not (u32_at file 0x202 == header_magic)
    then err (failure "boot: bad setup_header magic")
    else if leb file.size (setup_size file)
    then err (failure "boot: bzImage has no kernel code after the setup")
    else ok (parsed file (u16_at file 0x206))

-- `patchForDirectBoot`, on the bytes of the header: type_of_loader is 0xff, bit 6 of loadflags is set,
-- and the pointers are written.
unfoldable pub patch_for_direct_boot : Memory → ℕ → ℕ → ℕ → Memory
unfolding put_byte put_u32_at
patch_for_direct_boot header cmdline_at ramdisk_at ramdisk_size =
    let loader = put_byte header (0x210 - header_start) 0xff in
    let flags = loader.byte (0x211 - header_start) in
    let flagged =
      put_byte loader (0x211 - header_start) (if bit 6 flags then flags else flags + 0x40) in
    let with_cmdline = put_u32_at flagged (0x228 - header_start) cmdline_at in
    let with_ramdisk = put_u32_at with_cmdline (0x218 - header_start) ramdisk_at in
    put_u32_at with_ramdisk (0x21c - header_start) ramdisk_size

-- `E820Entry.marshal` at an offset, of an entry of RAM.
unfoldable pub marshal_entry : Memory → ℕ → E820Entry → Memory
unfolding put_u64_at put_u32_at
marshal_entry b at e = put_u32_at (put_u64_at (put_u64_at b at e.addr) (at + 8) e.size) (at + 16) 1

-- The loop over the entries, from the `i`th on.
unfoldable pub marshal_entries : Memory → ℕ → List E820Entry → Memory
unfolding marshal_entry
marshal_entries b i [] = b
marshal_entries b i (e ∷ es) = marshal_entries (marshal_entry b (0x2d0 + i * 20) e) (i + 1) es

-- The zero page of a header and a map of the memory.
unfoldable pub zero_page : Memory → List E820Entry → Memory
unfolding put_byte copy marshal_entries
zero_page header entries =
    marshal_entries (put_byte (copy (make 0x1000) header_start header) 0x1e8 (u8 (length entries)))
      0 entries

-- `BuildBootParams`; the image's own header stays as it is.
unfoldable pub build_boot_params : Image → ℕ → ℕ → ℕ → List E820Entry → Result Memory
unfolding patch_for_direct_boot zero_page
build_boot_params img cmdline_at ramdisk_at ramdisk_size entries =
    if length entries == 0
    then err (failure "boot: BuildBootParams: empty E820 map")
    else if ltb 128 (length entries)
    then err (failure "boot: BuildBootParams: too many E820 entries")
    else if not (img.header.size == header_end - header_start)
    then err (failure "boot: BuildBootParams: bad header")
    else ok
        (zero_page (patch_for_direct_boot img.header cmdline_at ramdisk_at ramdisk_size) entries)
