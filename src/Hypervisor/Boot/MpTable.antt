-- ===== src/Hypervisor/Boot/MpTable.antt =====
-- internal/hypervisor/boot/mptable.go: the table that tells the guest's kernel of its processors.
-- `binary.Write` of a struct is the bytes of its fields in order.
pub mod Processors
use infrastructure.Prelude.{
  ℕ, zero, suc, ◌+◌, ◌-◌, ◌/◌, ◌%◌, ◌||◌, List, [], ◌∷◌, ◌++◌, ltb, ◌==◌, if◌then◌else◌, Result, ok,
  err, failure, length, set, take, replicate,
}
use infrastructure.Hypervisor.Word.{u8, u16, put_u32}
use infrastructure.Hypervisor.Boot.{mp_table_addr}

abbrev pub max_mp_cpus : ℕ
max_mp_cpus = 254

abbrev pub mp_apic_version : ℕ
mp_apic_version = 0x14

abbrev pub put_u16 : ℕ → List ℕ
put_u16 v = v % 0x100 ∷ v / 0x100 % 0x100 ∷ []

-- mpcCPU; the boot processor is the one of ID 0.
unfoldable pub mpc_cpu : ℕ → List ℕ
unfolding put_u32
mpc_cpu id =
    0 ∷ u8 id ∷ mp_apic_version ∷ (if id == 0 then 3 else 1) ∷ put_u32 0x600
    ++ put_u32 0x201
    ++ replicate 8 0

unfoldable pub mpc_cpus : ℕ → ℕ → List ℕ
unfolding mpc_cpu
mpc_cpus zero id = []
mpc_cpus (suc count) id = mpc_cpu id ++ mpc_cpus count (id + 1)

-- mpcBus, of the type "ISA   "
abbrev pub mpc_bus : List ℕ
mpc_bus = 1 ∷ 0 ∷ 0x49 ∷ 0x53 ∷ 0x41 ∷ 0x20 ∷ 0x20 ∷ 0x20 ∷ []

unfoldable pub mpc_io_apic : ℕ → List ℕ
unfolding put_u32
mpc_io_apic id = 2 ∷ u8 id ∷ mp_apic_version ∷ 1 ∷ put_u32 0xfec00000

-- mpcLintsrc
abbrev pub mpc_lintsrc : ℕ → ℕ → List ℕ
mpc_lintsrc irq_type lint = 4 ∷ irq_type ∷ 0 ∷ 0 ∷ 0 ∷ 0 ∷ 0xff ∷ lint ∷ []

-- The entries after those of the processors.
unfoldable pub mpc_others : ℕ → List ℕ
unfolding mpc_io_apic
mpc_others num_cpus = mpc_bus ++ mpc_io_apic num_cpus ++ mpc_lintsrc 3 0 ++ mpc_lintsrc 1 1

unfoldable pub mpc_entries : ℕ → List ℕ
unfolding mpc_cpus mpc_others
mpc_entries num_cpus = mpc_cpus num_cpus 0 ++ mpc_others num_cpus

-- "PCMP", "GOA     ", "go-hypervisr"
abbrev pub pcmp : List ℕ
pcmp = 0x50 ∷ 0x43 ∷ 0x4d ∷ 0x50 ∷ []

abbrev pub oem : List ℕ
oem = 0x47 ∷ 0x4f ∷ 0x41 ∷ 0x20 ∷ 0x20 ∷ 0x20 ∷ 0x20 ∷ 0x20 ∷ []

abbrev pub product_id : List ℕ
product_id = 0x67 ∷ 0x6f ∷ 0x2d ∷ 0x68 ∷ 0x79 ∷ 0x70 ∷ 0x65 ∷ 0x72 ∷ 0x76 ∷ 0x69 ∷ 0x73 ∷ 0x72 ∷ []

-- mpcTableHeader, of 44 bytes.
unfoldable pub mpc_header : ℕ → ℕ → List ℕ
unfolding put_u32
mpc_header size num_cpus =
    pcmp
    ++ put_u16 size
    ++ (4 ∷ 0 ∷ oem)
    ++ product_id
    ++ put_u32 0
    ++ put_u16 0
    ++ put_u16 (u16 num_cpus + 1 + 1 + 2)
    ++ put_u32 0xfee00000
    ++ put_u32 0

-- The loop of `checksum8`, and -sum.
unfoldable pub sum_from : ℕ → List ℕ → ℕ
sum_from sum [] = sum
sum_from sum (b ∷ bs) = sum_from (u8 (sum + b)) bs

unfoldable pub checksum8 : List ℕ → ℕ
unfolding sum_from
checksum8 bs = u8 (0x100 - sum_from 0 bs)

-- The configuration table; the placeholder of its header is overwritten by the header.
unfoldable pub mpc_table : ℕ → List ℕ
unfolding mpc_entries mpc_header checksum8
mpc_table num_cpus =
    let entries = mpc_entries num_cpus in
    let bytes = mpc_header (u16 (44 + length entries)) num_cpus ++ entries in
    set bytes 7 (checksum8 bytes)

-- mpfIntel, with PhysPtr, of 16 bytes.
unfoldable pub mpf_intel : List ℕ
unfolding put_u32 checksum8
mpf_intel =
    let bytes =
      (0x5f ∷ 0x4d ∷ 0x50 ∷ 0x5f ∷ [])
      ++ put_u32 (mp_table_addr + 16)
      ++ (1 ∷ 4 ∷ 0 ∷ 0 ∷ 0 ∷ 0 ∷ 0 ∷ 0 ∷ []) in
    set bytes 10 (checksum8 bytes)

-- `BuildMPTable`, for a number of processors that is not negative.
unfoldable pub build_mp_table : ℕ → Result (List ℕ)
unfolding mpf_intel mpc_table
build_mp_table num_cpus =
    if ltb num_cpus 1 || ltb max_mp_cpus num_cpus
    then err (failure "boot: cpus must be between 1 and 254")
    else ok (mpf_intel ++ mpc_table num_cpus)
