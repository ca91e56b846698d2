-- ===== src/Hypervisor/Boot/Image/Entries.antt =====
-- What a kernel reads of the memory map in the zero page.
use infrastructure.Prelude.{
  ℕ, zero, suc, ◌+◌, ◌*◌, ◌≤◌, ◌<◌, ◌≡◌, refl, ap, ◌∙◌, ◌⊎◌, inl, inr, List, [], ◌∷◌, All, length,
  arith, ◌==◌, if◌then◌else◌, Bool-cases, ok, err-ok, ok-injective, not, ltb, ◌-◌,
}
use infrastructure.Hypervisor.Word.{u8}
use infrastructure.Hypervisor.Memory.{Memory, u32_at, u64_at, put_byte, put_u32_at}
use infrastructure.Hypervisor.Memory.Access.{u32_at-put_u32_at, byte-put_u32_at}
use infrastructure.Hypervisor.Boot.Buffer.{
  make, copy, put_u64_at, byte-put_u64_at, u64_at-put_u64_at, u64_at_same, u32_at_same,
}
use infrastructure.Hypervisor.Boot.Placement.{E820Entry}
use infrastructure.Hypervisor.Boot.Image.{
  Image, header_start, header_end, marshal_entry, marshal_entries, zero_page, patch_for_direct_boot,
  build_boot_params,
}

-- An entry at an offset, of which only RAM is told from other types.
abbrev pub read_entry : Memory → ℕ → E820Entry
read_entry b at = record { addr = u64_at b at; size = u64_at b (at + 8) }

unfoldable pub read_entries : Memory → ℕ → ℕ → List E820Entry
read_entries b i zero = []
read_entries b i (suc n) =
    let rest = read_entries b (i + 1) n in
    if u32_at b (0x2d0 + i * 20 + 16) == 1 then read_entry b (0x2d0 + i * 20) ∷ rest else rest

-- A kernel takes as many entries as the count says.
unfoldable pub read_map : Memory → List E820Entry
unfolding read_entries
read_map zp = read_entries zp 0 (zp.byte 0x1e8)

abbrev pub IsWide : E820Entry → Type 0
IsWide e = (e.addr < 0x10000000000000000) × (e.size < 0x10000000000000000)

byte-marshal_entry :
    (b : Memory) (at : ℕ) (e : E820Entry) (x : ℕ)
    → (x < at) ⊎ (at + 20 ≤ x)
    → (marshal_entry b at e).byte x ≡ b.byte x
unfolding marshal_entry
byte-marshal_entry b at e x h =
    byte-put_u32_at (put_u64_at (put_u64_at b at e.addr) (at + 8) e.size) (at + 16) 1 x
      (ground (arith, h))
    ∙ byte-put_u64_at (put_u64_at b at e.addr) (at + 8) e.size x (ground (arith, h))
    ∙ byte-put_u64_at b at e.addr x (ground (arith, h))

byte-marshal_entries :
    (b : Memory) (i : ℕ) (es : List E820Entry) (x : ℕ)
    → x < 0x2d0 + i * 20
    → (marshal_entries b i es).byte x ≡ b.byte x
unfolding marshal_entries
byte-marshal_entries b i [] x h = refl
byte-marshal_entries b i (e ∷ es) x h =
    byte-marshal_entries (marshal_entry b (0x2d0 + i * 20) e) (i + 1) es x (omega arith)
    ∙ byte-marshal_entry b (0x2d0 + i * 20) e x (inl h)

read_entry-marshal_entry :
    (b : Memory) (at : ℕ) (e : E820Entry)
    → IsWide e
    → (u64_at (marshal_entry b at e) at ≡ e.addr)
      × (u64_at (marshal_entry b at e) (at + 8) ≡ e.size)
      × (u32_at (marshal_entry b at e) (at + 16) ≡ 1)
unfolding marshal_entry
read_entry-marshal_entry b at e w =
    let one : Memory = put_u64_at b at e.addr in
    let two : Memory = put_u64_at one (at + 8) e.size in
    let all : Memory = put_u32_at two (at + 16) 1 in
    (
      u64_at_same all one at at (λ k x y lt p q.
            byte-put_u32_at two (at + 16) 1 x (inl (omega arith))
            ∙ byte-put_u64_at one (at + 8) e.size x (inl (omega arith))
            ∙ ap one.byte (omega arith))
          ∙ u64_at-put_u64_at b at e.addr w.0,
      u64_at_same all two (at + 8) (at + 8) (λ k x y lt p q.
            byte-put_u32_at two (at + 16) 1 x (inl (omega arith)) ∙ ap two.byte (omega arith))
          ∙ u64_at-put_u64_at one (at + 8) e.size w.1,
      u32_at-put_u32_at two (at + 16) 1 (omega arith),
    )

read_entries-ram :
    (b : Memory) (i n addr size : ℕ)
    → u64_at b (0x2d0 + i * 20) ≡ addr
    → u64_at b (0x2d0 + i * 20 + 8) ≡ size
    → u32_at b (0x2d0 + i * 20 + 16) ≡ 1
    → read_entries b i (suc n) ≡ record { addr = addr; size = size } ∷ read_entries b (i + 1) n
unfolding read_entries
read_entries-ram b i n addr size a s t =
    let rest : List E820Entry = read_entries b (i + 1) n in
    let at : ℕ = 0x2d0 + i * 20 in
    ap (λ (k : ℕ). if k == 1 then read_entry b at ∷ rest else rest) t
    ∙ ap (λ (k : ℕ). record { addr = k; size = u64_at b (at + 8) } ∷ rest) a
    ∙ ap (λ (k : ℕ). record { addr = addr; size = k } ∷ rest) s

-- Entries that are written are read back, whatever follows them.
read_entries-marshal_entries :
    (b : Memory) (i : ℕ) (es : List E820Entry)
    → All IsWide es
    → read_entries (marshal_entries b i es) i (length es) ≡ es
unfolding read_entries marshal_entries
read_entries-marshal_entries b i [] w = refl
read_entries-marshal_entries b i (e ∷ es) w =
    let at : ℕ = 0x2d0 + i * 20 in
    let here : Memory = marshal_entry b at e in
    let all : Memory = marshal_entries here (i + 1) es in
    let (a, s, t) = read_entry-marshal_entry b at e w.0 in
    read_entries-ram all i (length es) e.addr e.size
      (u64_at_same all here at at (λ k x y lt p q.
          byte-marshal_entries here (i + 1) es x (omega arith) ∙ ap here.byte (omega arith))
        ∙ a)
      (u64_at_same all here (at + 8) (at + 8) (λ k x y lt p q.
          byte-marshal_entries here (i + 1) es x (omega arith) ∙ ap here.byte (omega arith))
        ∙ s)
      (u32_at_same all here (at + 16) (at + 16) (λ k x y lt p q.
          byte-marshal_entries here (i + 1) es x (omega arith) ∙ ap here.byte (omega arith))
        ∙ t)
    ∙ ap (λ (t : List E820Entry). e ∷ t) (read_entries-marshal_entries here (i + 1) es w.1)

count-zero_page :
    (header : Memory) (es : List E820Entry)
    → length es ≤ 128
    → (zero_page header es).byte 0x1e8 ≡ length es
unfolding zero_page put_byte
count-zero_page header es few =
    byte-marshal_entries (put_byte (copy (make 0x1000) header_start header) 0x1e8 (u8 (length es)))
      0 es 0x1e8 (omega arith)
    ∙ omega arith

read_map-zero_page :
    (header : Memory) (es : List E820Entry)
    → length es ≤ 128
    → All IsWide es
    → read_map (zero_page header es) ≡ es
unfolding read_map zero_page
read_map-zero_page header es few wide =
    ap (λ (n : ℕ). read_entries (zero_page header es) 0 n) (count-zero_page header es few)
    ∙ read_entries-marshal_entries
        (put_byte (copy (make 0x1000) header_start header) 0x1e8 (u8 (length es))) 0 es wide

-- A kernel that reads the entries of a zero page which BuildBootParams made, as many as its count
-- says, gets the map that was written, when each address and each size fits 64 bits.
pub read_map-build_boot_params :
    (img : Image) (c a s : ℕ) (es : List E820Entry) (zp : Memory)
    → All IsWide es
    → build_boot_params img c a s es ≡ ok zp
    → read_map zp ≡ es
unfolding build_boot_params
read_map-build_boot_params img c a s es zp wide h = elim (Bool-cases (length es == 0)) [
  | inl x ↦ absurd (err-ok (rw x at h))
  | inr x ↦ elim (Bool-cases (ltb 128 (length es))) [
    | inl y ↦ absurd (err-ok (rw (x, y) at h))
    | inr y ↦ elim (Bool-cases (not (img.header.size == header_end - header_start))) [
      | inl z ↦ absurd (err-ok (rw (x, y, z) at h))
      | inr z ↦
          rw (← ok-injective (rw (x, y, z) at h)) (
            read_map-zero_page (patch_for_direct_boot img.header c a s) es (ground (arith, y)) wide)
    ]
  ]
]
