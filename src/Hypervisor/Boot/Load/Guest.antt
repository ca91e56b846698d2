-- ===== src/Hypervisor/Boot/Load/Guest.antt =====
-- What the guest finds in its memory when `loadGuest` has succeeded.
use mathlib.Core.List.Permᴰ.{Permᴰ}
use infrastructure.Prelude.{
  ℕ, ◌+◌, ◌*◌, ◌≤◌, ◌<◌, ◌≡◌, ◌≢◌, refl, sym, ap, ◌∙◌, subst, inl, inr, true, List, some, ltb, ◌==◌,
  ok, ok-injective, arith, Bool-cases,
}
use infrastructure.Hypervisor.Word.{u32}
use infrastructure.Hypervisor.Memory.{Memory}
use infrastructure.Hypervisor.Boot.{pml4_addr, cmdline_addr, boot_params_addr, kernel_load_addr}
use infrastructure.Hypervisor.Boot.Paging.{one_gib, num_gb}
use infrastructure.Hypervisor.Boot.Paging.Walk.{Holds, IsMapped, walk, walk_lem}
use infrastructure.Hypervisor.Boot.Placement.{place_initrd, build_e820, E820Entry}
use infrastructure.Hypervisor.Boot.Placement.Initrd.{place_initrd_iff}
use infrastructure.Hypervisor.Boot.Image.{Image, build_boot_params}
use infrastructure.Hypervisor.Boot.Image.Params.{size-build_boot_params}
use infrastructure.Hypervisor.Boot.Load.{write, write_initrd, load_tables, load_guest}
use infrastructure.Hypervisor.Boot.Load.Pages.{Result->>=_ok}
use infrastructure.Hypervisor.Boot.Load.Tables.{
  IsTabled, Wrote-IsTabled, write-Wrote, load_tables-IsTabled,
}

num_gb-covers :
    (mem_size : ℕ) → mem_size < 0x8000000000000000 → mem_size ≤ num_gb mem_size * one_gib
unfolding num_gb
num_gb-covers mem_size h = ground arith

walk_covered :
    (m : Memory) (mem_size : ℕ)
    → IsMapped m (num_gb mem_size)
    → num_gb mem_size ≤ 21
    → mem_size < 0x8000000000000000
    → (v : ℕ) → v < mem_size
    → walk m pml4_addr v ≡ some v
walk_covered m mem_size mapped few fits v lt =
    let covers = num_gb-covers mem_size fits in
    let inside : ltb v (num_gb mem_size * one_gib) ≡ true = ground arith in
    walk_lem m (num_gb mem_size) v mapped few (omega arith) ∙ rw inside refl

-- An initrd, if there is any, is placed above the kernel's address.
initrd_above :
    (mem_size max_addr addr : ℕ) (initrd : Memory)
    → place_initrd mem_size initrd.size max_addr ≡ ok addr
    → initrd.size ≢ 0
    → kernel_load_addr ≤ addr
initrd_above mem_size max_addr addr initrd h ne =
    ((place_initrd_iff mem_size initrd.size max_addr ne addr).0 h).0.above

-- A machine's memory from which its kernel can be entered.
pub record IsBooted (img : Image) (initrd cmdline : Memory) (mem_size num_cpus : ℕ) (m : Memory)
    : Type 0 where
  pub low : IsTabled cmdline img.cmdline_size mem_size num_cpus m
  pub identity : (v : ℕ) → v < mem_size → walk m pml4_addr v ≡ some v
  pub initrd_addr : ℕ
  pub placed : place_initrd mem_size initrd.size img.initrd_addr_max ≡ ok initrd_addr
  pub e820 : List E820Entry
  pub mapped : build_e820 mem_size ≡ ok e820
  pub zp : Memory
  pub zp_built :
      build_boot_params img (u32 cmdline_addr) (u32 initrd_addr) (u32 initrd.size) e820 ≡ ok zp
  pub zp_held : Holds m boot_params_addr zp
  pub kernel_held : Holds m kernel_load_addr img.code
  pub kernel_within : kernel_load_addr + img.code.size ≤ m.size
  pub initrd_held : kernel_load_addr + img.code.size ≤ initrd_addr → Holds m initrd_addr initrd

-- The write of an initrd, or of none.
write_initrd_lem :
    (m : Memory) (mem_size max_addr num_cpus kernel_max addr : ℕ) (initrd cmdline next : Memory)
    → cmdline.size < 0x100000000
    → place_initrd mem_size initrd.size max_addr ≡ ok addr
    → write_initrd m addr initrd ≡ ok next
    → IsTabled cmdline kernel_max mem_size num_cpus m
    → IsTabled cmdline kernel_max mem_size num_cpus next
      × Holds next addr initrd
      × (next.size ≡ m.size)
unfolding write_initrd
write_initrd_lem m mem_size max_addr num_cpus kernel_max addr initrd cmdline next small placed h t =
    elim (Bool-cases (initrd.size == 0)) [
      | inl e ↦
          let same : m ≡ next = ok-injective (rw e at h) in
          (
            subst (IsTabled cmdline kernel_max mem_size num_cpus) same t,
            (λ k lt. absurd (ground (arith, e))),
            ap (λ m. m.size) (sym same),
          )
      | inr e ↦
          let w = write-Wrote m addr initrd next (rw e at h) in
          let above = initrd_above mem_size max_addr addr initrd placed (ground (arith, e)) in
          (
            Wrote-IsTabled m addr initrd next w cmdline kernel_max mem_size num_cpus small
                (inl above) t,
            w.there,
            w.same,
          )
    ]

-- When `loadGuest` succeeds, the guest's memory holds the GDT, the MP table, the command line, the boot
-- parameters and the kernel, whichever order the pages are written in; the page tables map every
-- address of the memory to itself; and the initrd is whole if the kernel ends below it. The command
-- line and the kernel have lengths that do not overflow.
pub load_guest-IsBooted :
    (range : List (ℕ × Memory) → List (ℕ × Memory)) (img : Image) (initrd cmdline : Memory)
    (mem_size num_cpus : ℕ) (m next : Memory)
    → ((ps : List (ℕ × Memory)) → Permᴰ ps (range ps))
    → cmdline.size < 0x100000000
    → img.code.size < 0x8000000000000000
    → mem_size < 0x8000000000000000
    → load_guest range img initrd cmdline mem_size num_cpus m ≡ ok next
    → IsBooted img initrd cmdline mem_size num_cpus next
unfolding load_guest
load_guest-IsBooted range img initrd cmdline mem_size num_cpus m next order small code_fits mem_fits
      h =
    let k : ℕ = img.cmdline_size in
    let (m1, e1, h1) = Result->>=_ok (load_tables range img cmdline mem_size num_cpus m) _ h in
    let (addr, e2, h2) =
      Result->>=_ok (place_initrd mem_size initrd.size img.initrd_addr_max) _ h1 in
    let (m2, e3, h3) = Result->>=_ok (write_initrd m1 addr initrd) _ h2 in
    let (e820, e4, h4) = Result->>=_ok (build_e820 mem_size) _ h3 in
    let (zp, e5, h5) =
      Result->>=_ok (build_boot_params img (u32 cmdline_addr) (u32 addr) (u32 initrd.size) e820) _
        h4 in
    let (m3, e6, h6) = Result->>=_ok (write m2 boot_params_addr zp) _ h5 in
    let (t1, same1) =
      load_tables-IsTabled range img cmdline mem_size num_cpus m m1 order small e1 in
    let (t2, held2, same2) =
      write_initrd_lem m1 mem_size img.initrd_addr_max num_cpus k addr initrd cmdline m2 small e2 e3
        t1 in
    let w6 = write-Wrote m2 boot_params_addr zp m3 e6 in
    let w7 = write-Wrote m3 kernel_load_addr img.code next h6 in
    let zp_size =
      size-build_boot_params img (u32 cmdline_addr) (u32 addr) (u32 initrd.size) e820 zp e5 in
    let t3 =
      Wrote-IsTabled m2 boot_params_addr zp m3 w6 cmdline k mem_size num_cpus small
        (inr (omega arith, ground arith)) t2 in
    let t4 =
      Wrote-IsTabled m3 kernel_load_addr img.code next w7 cmdline k mem_size num_cpus small
        (inl (omega arith)) t3 in
    record {
      low = t4;
      identity = walk_covered next mem_size t4.mapped t4.few mem_fits;
      initrd_addr = addr;
      placed = e2;
      e820 = e820;
      mapped = e4;
      zp = zp;
      zp_built = e5;
      zp_held = w7.kept boot_params_addr zp (ground arith) w6.there;
      kernel_held = w7.there;
      kernel_within = ground (arith, w7.within, w7.same);
      initrd_held = λ ends.
          w7.kept addr initrd (inl ends)
            (w6.kept addr initrd (inl (omega (arith, ends, zp_size))) held2);
    }
