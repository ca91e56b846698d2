-- ===== src/Hypervisor/Boot/Examples.antt =====
-- A machine of 2 MiB and two processors, with a small kernel.
use mathlib.Core.List.Permᴰ
use infrastructure.Prelude.{
  ℕ, ◌+◌, ◌*◌, ◌≤◌, ◌≡◌, ◌≢◌, refl, Bool, true, false, List, some, none, Result, ok, err, ltb,
  if◌then◌else◌, arith, length, ◌↔◌, [], ◌∷◌,
}
use infrastructure.Hypervisor.Memory.{Memory}
use infrastructure.Hypervisor.Boot.{pml4_addr, mp_table_addr, kernel_load_addr}
use infrastructure.Hypervisor.Boot.Buffer.{make}
use infrastructure.Hypervisor.Boot.Paging.{one_gib, num_gb, fill}
use infrastructure.Hypervisor.Boot.Paging.Walk.{walk, walk_lem}
use infrastructure.Hypervisor.Boot.MpTable.{build_mp_table}
use infrastructure.Hypervisor.Boot.MpTable.Processors.{
  read_mp_table, processors, build_mp_table-processors,
}
use infrastructure.Hypervisor.Boot.Placement.{E820Entry, place_initrd}
use infrastructure.Hypervisor.Boot.Placement.Initrd.{Fits, place_initrd_iff}
use infrastructure.Hypervisor.Boot.Image.{Image, build_boot_params}
use infrastructure.Hypervisor.Boot.Image.Entries.{read_map, read_map-build_boot_params}
use infrastructure.Hypervisor.Boot.Load.{load_guest}
use infrastructure.Hypervisor.Boot.Load.Guest.{IsBooted, load_guest-IsBooted}

abbrev small_image : Image
small_image = record {
  header = make 0x9f;
  version = 0x20f;
  cmdline_size = 2048;
  initrd_addr_max = 0;
  code = make 0x8000;
}

abbrev is_ok : {A : Type 0} → Result A → Bool
is_ok (ok a) = true
is_ok (err e) = false

succeeded : {A : Type 0} (r : Result A) → is_ok r ≡ true → (a : A) × (r ≡ ok a)
succeeded (ok a) h = (a, refl)
succeeded (err e) h = cc

abbrev loading : Result Memory
loading = load_guest (λ ps. ps) small_image (make 0x1234) (make 20) 0x200000 2 (make 0x200000)

loads : is_ok loading ≡ true
unfolding load_guest fill
loads = refl

load_guest_example :
    IsBooted small_image (make 0x1234) (make 20) 0x200000 2 (succeeded loading loads).0
load_guest_example =
    load_guest-IsBooted (λ ps. ps) small_image (make 0x1234) (make 20) 0x200000 2 (make 0x200000)
      (succeeded loading loads).0 Permᴰ.refl (omega arith) (omega arith) (omega arith)
      (succeeded loading loads).1

booted : IsBooted small_image (make 0x1234) (make 20) 0x200000 2 (succeeded loading loads).0
booted =
    load_guest-IsBooted (λ ps. ps) small_image (make 0x1234) (make 20) 0x200000 2 (make 0x200000)
      (succeeded loading loads).0 Permᴰ.refl (omega arith) (omega arith) (omega arith)
      (succeeded loading loads).1

walk_example :
    walk (succeeded loading loads).0 pml4_addr 0x1fffff
    ≡ (if ltb 0x1fffff (num_gb 0x200000 * one_gib) then some 0x1fffff else none)
walk_example =
    walk_lem (succeeded loading loads).0 (num_gb 0x200000) 0x1fffff booted.low.mapped booted.low.few
      (omega arith)

build_mp_table_example :
    (table : List ℕ) × (build_mp_table 3 ≡ ok table)
    × (read_mp_table table ≡ some (processors 3 0))
    × (mp_table_addr + length table ≤ kernel_load_addr)
build_mp_table_example = build_mp_table-processors 3 (omega arith) (omega arith)

some_bytes : ◌≢◌ {A = ℕ} 0x1234 0
some_bytes e = omega arith

place_initrd_iff_example :
    (place_initrd 0x200000 0x1234 0 ≡ ok 0x1fe000)
    ↔ (Fits 0x200000 0x1234 0 0x1fe000 × ((a : ℕ) → Fits 0x200000 0x1234 0 a → a ≤ 0x1fe000))
place_initrd_iff_example = place_initrd_iff 0x200000 0x1234 0 some_bytes 0x1fe000

-- The highest page that leaves room for the initrd.
highest : place_initrd 0x200000 0x1234 0 ≡ ok 0x1fe000
unfolding place_initrd
highest = refl

abbrev two_entries : List E820Entry
two_entries =
    record { addr = 0; size = mp_table_addr }
    ∷ record { addr = kernel_load_addr; size = 0x100000 }
    ∷ []

abbrev params : Result Memory
params = build_boot_params small_image 0x20000 0x1fe000 0x1234 two_entries

builds : is_ok params ≡ true
unfolding build_boot_params
builds = refl

build_boot_params_example : read_map (succeeded params builds).0 ≡ two_entries
build_boot_params_example =
    read_map-build_boot_params small_image 0x20000 0x1fe000 0x1234 two_entries
      (succeeded params builds).0 ((omega arith, omega arith), ((omega arith, omega arith), tt))
      (succeeded params builds).1
