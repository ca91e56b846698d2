-- ===== src/Hypervisor/Boot/Placement/Initrd.antt =====
-- Where an initrd is placed.
use infrastructure.Prelude.{
  ℕ, ◌+◌, ◌-◌, ◌*◌, ◌/◌, ◌%◌, ◌≤◌, ◌≡◌, ◌≢◌, refl, false, ltb, ◌==◌, if◌then◌else◌, ok, err, err-ok,
  ok-injective, arith, Bool-cases, inl, inr, subst, ◌↔◌, ◌||◌, failure, ap,
}
use infrastructure.Hypervisor.Boot.{kernel_load_addr}
use infrastructure.Hypervisor.Boot.Placement.{ceiling, place_initrd}

-- An address at which an initrd fits: on a page, not below the kernel's address, within the memory,
-- and not beyond the last address that the kernel allows, 0x37ffffff where it names none.
pub record Fits (mem_size initrd_len max_addr addr : ℕ) : Type 0 where
  pub aligned : addr % 0x1000 ≡ 0
  pub above : kernel_load_addr ≤ addr
  pub within : addr + initrd_len ≤ mem_size
  pub named : max_addr ≢ 0 → addr + initrd_len ≤ max_addr + 1
  pub legacy : max_addr ≡ 0 → addr + initrd_len ≤ 0x38000000

Fits-ceiling :
    (mem_size initrd_len max_addr addr : ℕ)
    → Fits mem_size initrd_len max_addr addr
    → addr + initrd_len ≤ ceiling mem_size max_addr
unfolding ceiling
Fits-ceiling mem_size initrd_len max_addr addr f = elim (Bool-cases (max_addr == 0)) [
  | inl e ↦ rw e (ground (arith, f.legacy (ground (arith, e)), f.within))
  | inr e ↦ rw e (ground (arith, f.named (ground (arith, e)), f.within))
]

ceiling-bounds :
    (mem_size max_addr : ℕ)
    → (ceiling mem_size max_addr ≤ mem_size)
      × (max_addr ≢ 0 → ceiling mem_size max_addr ≤ max_addr + 1)
      × (max_addr ≡ 0 → ceiling mem_size max_addr ≤ 0x38000000)
unfolding ceiling
ceiling-bounds mem_size max_addr = (ground arith, λ e. ground arith, λ e. ground arith)

module _ (mem_size initrd_len max_addr : ℕ) (some_data : initrd_len ≢ 0) where
  top : ℕ
  top = ceiling mem_size max_addr

  -- The page that the source picks.
  pick_page : ℕ
  pick_page = (top - initrd_len) / 0x1000 * 0x1000

  place_initrd_lem : place_initrd mem_size initrd_len max_addr ≡ (
      if ltb top initrd_len || ltb pick_page kernel_load_addr
      then err (failure "boot: initrd does not fit")
      else ok pick_page)
  unfolding place_initrd top pick_page
  place_initrd_lem =
      let full : initrd_len == 0 ≡ false = ground (arith, some_data) in
      rw full (elim (Bool-cases (ltb (ceiling mem_size max_addr) initrd_len)) [
        | inl l ↦ rw l refl
        | inr l ↦ rw l refl
      ])

  pick_page-highest : (a : ℕ) → Fits mem_size initrd_len max_addr a → a ≤ pick_page
  unfolding pick_page top
  pick_page-highest a f = omega (arith, f.aligned, Fits-ceiling mem_size initrd_len max_addr a f)

  abbrev Best : ℕ → Type 0
  Best addr =
      Fits mem_size initrd_len max_addr addr
      × ((a : ℕ) → Fits mem_size initrd_len max_addr a → a ≤ addr)

  page-Fits :
      (ltb top initrd_len || ltb pick_page kernel_load_addr) ≡ false
      → Fits mem_size initrd_len max_addr pick_page
  unfolding pick_page top
  page-Fits h = record {
    aligned = omega arith;
    above = ground (arith, h);
    within = ground (arith, h, (ceiling-bounds mem_size max_addr).0);
    named = λ e. ground (arith, h, (ceiling-bounds mem_size max_addr).1 e);
    legacy = λ e. ground (arith, h, (ceiling-bounds mem_size max_addr).2 e);
  }

  -- An initrd that is not empty is placed at the highest address at which it fits, and refused when
  -- there is none.
  pub place_initrd_iff :
      (addr : ℕ)
      → (place_initrd mem_size initrd_len max_addr ≡ ok addr) ↔ (
          Fits mem_size initrd_len max_addr addr
          × ((a : ℕ) → Fits mem_size initrd_len max_addr a → a ≤ addr))
  unfolding pick_page top
  place_initrd_iff addr = elim (Bool-cases (ltb top initrd_len || ltb pick_page kernel_load_addr)) [
    | inl refused ↦
        rw (place_initrd_lem, refused)
          (
            λ e. absurd (err-ok e),
            λ best. absurd (
                ground (
                  arith,
                  refused,
                  best.0.above,
                  Fits-ceiling mem_size initrd_len max_addr addr best.0,
                  pick_page-highest addr best.0,
                )),
          )
    | inr fits ↦
        rw (place_initrd_lem, fits)
          (
            λ e. subst Best (ok-injective e) (page-Fits fits, pick_page-highest),
            λ best.
                ap ok
                  (omega (arith, pick_page-highest addr best.0, best.1 pick_page (page-Fits fits))),
          )
  ]
