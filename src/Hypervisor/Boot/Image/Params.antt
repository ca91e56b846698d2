-- ===== src/Hypervisor/Boot/Image/Params.antt =====
-- The size of the zero page.
use infrastructure.Prelude.{
  ℕ, ◌+◌, ◌-◌, ◌*◌, ◌≡◌, refl, List, [], ◌∷◌, ok, err-ok, ok-injective, not, ltb, ◌==◌, length,
  Bool-cases, inl, inr,
}
use infrastructure.Hypervisor.Word.{u8}
use infrastructure.Hypervisor.Memory.{Memory, put_byte}
use infrastructure.Hypervisor.Boot.Buffer.{make, copy}
use infrastructure.Hypervisor.Boot.Placement.{E820Entry}
use infrastructure.Hypervisor.Boot.Image.{
  marshal_entry, Image, header_start, header_end, marshal_entries, zero_page, patch_for_direct_boot,
  build_boot_params,
}

size-marshal_entries :
    (b : Memory) (i : ℕ) (es : List E820Entry) → (marshal_entries b i es).size ≡ b.size
unfolding marshal_entries
size-marshal_entries b i [] = refl
size-marshal_entries b i (e ∷ es) =
    size-marshal_entries (marshal_entry b (0x2d0 + i * 20) e) (i + 1) es

size-zero_page : (header : Memory) (es : List E820Entry) → (zero_page header es).size ≡ 0x1000
unfolding zero_page
size-zero_page header es =
    size-marshal_entries (put_byte (copy (make 0x1000) header_start header) 0x1e8 (u8 (length es)))
      0 es

pub size-build_boot_params :
    (img : Image) (c a s : ℕ) (es : List E820Entry) (zp : Memory)
    → build_boot_params img c a s es ≡ ok zp
    → zp.size ≡ 0x1000
unfolding build_boot_params
size-build_boot_params img c a s es zp h = elim (Bool-cases (length es == 0)) [
  | inl x ↦ absurd (err-ok (rw x at h))
  | inr x ↦ elim (Bool-cases (ltb 128 (length es))) [
    | inl y ↦ absurd (err-ok (rw (x, y) at h))
    | inr y ↦ elim (Bool-cases (not (img.header.size == header_end - header_start))) [
      | inl z ↦ absurd (err-ok (rw (x, y, z) at h))
      | inr z ↦
          rw (← ok-injective (rw (x, y, z) at h))
            (size-zero_page (patch_for_direct_boot img.header c a s) es)
    ]
  ]
]
