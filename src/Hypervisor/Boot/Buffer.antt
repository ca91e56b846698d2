-- ===== src/Hypervisor/Boot/Buffer.antt =====
-- Byte slices of Go that are built, read and copied: `make`, `copy`, and 64-bit values.
use infrastructure.Prelude.{
  ℕ, zero, suc, ◌+◌, ◌-◌, ◌/◌, ◌%◌, ◌≤◌, ◌<◌, ◌≡◌, refl, ap, ◌∙◌, ◌⊎◌, inl, ◌&&◌, List, [], ◌∷◌,
  ltb, leb, if◌then◌else◌, arith, length,
}
use infrastructure.Hypervisor.Memory.{Memory, put_u32_at, u32_at, u64_at}
use infrastructure.Hypervisor.Memory.Access.{u32_at-put_u32_at, byte-put_u32_at}

-- make([]byte, size)
abbrev pub make : ℕ → Memory
make size = record { size = size; byte = λ x. 0 }

-- binary.LittleEndian.PutUint64
unfoldable pub put_u64_at : Memory → ℕ → ℕ → Memory
unfolding put_u32_at
put_u64_at m a v = put_u32_at (put_u32_at m a (v % 0x100000000)) (a + 4) (v / 0x100000000)

-- b[from:to]
abbrev pub sub : Memory → ℕ → ℕ → Memory
sub b from to = record { size = to - from; byte = λ x. b.byte (from + x) }

-- copy(b[at:], src), where it fits.
unfoldable pub copy : Memory → ℕ → Memory → Memory
copy b at src = record b {
  byte = λ x. if leb at x && ltb x (at + src.size) then src.byte (x - at) else b.byte x;
}

abbrev pub nth : List ℕ → ℕ → ℕ
nth [] i = 0
nth (b ∷ bs) zero = b
nth (b ∷ bs) (suc i) = nth bs i

-- The bytes of a buffer.
abbrev pub of_list : List ℕ → Memory
of_list bs = record { size = length bs; byte = nth bs }

-- Slices that agree on the bytes of a value hold the same value there.
abbrev pub Agree : ℕ → Memory → Memory → ℕ → ℕ → Type 0
Agree width m n a b = (k x y : ℕ) → k < width → x ≡ a + k → y ≡ b + k → m.byte x ≡ n.byte y

pub u32_at_same : (m n : Memory) (a b : ℕ) → Agree 4 m n a b → u32_at m a ≡ u32_at n b
u32_at_same m n a b h = omega (
  arith,
  h 0 a b (omega arith) (omega arith) (omega arith),
  h 1 (a + 1) (b + 1) (omega arith) refl refl,
  h 2 (a + 2) (b + 2) (omega arith) refl refl,
  h 3 (a + 2 + 1) (b + 2 + 1) (omega arith) (omega arith) (omega arith),
)

pub u64_at_same : (m n : Memory) (a b : ℕ) → Agree 8 m n a b → u64_at m a ≡ u64_at n b
u64_at_same m n a b h = omega (
  arith,
  u32_at_same m n a b (λ k x y lt. h k x y (omega arith)),
  u32_at_same m n (a + 4) (b + 4)
      (λ k x y lt e f. h (4 + k) x y (omega arith) (omega arith) (omega arith)),
)

pub byte-put_u64_at :
    (m : Memory) (a v x : ℕ) → (x < a) ⊎ (a + 7 < x) → (put_u64_at m a v).byte x ≡ m.byte x
unfolding put_u64_at
byte-put_u64_at m a v x h =
    byte-put_u32_at (put_u32_at m a (v % 0x100000000)) (a + 4) (v / 0x100000000) x
      (ground (arith, h))
    ∙ byte-put_u32_at m a (v % 0x100000000) x (ground (arith, h))

pub u64_at-put_u64_at :
    (m : Memory) (a v : ℕ) → v < 0x10000000000000000 → u64_at (put_u64_at m a v) a ≡ v
unfolding put_u64_at
u64_at-put_u64_at m a v h =
    let low : Memory = put_u32_at m a (v % 0x100000000) in
    let all : Memory = put_u32_at low (a + 4) (v / 0x100000000) in
    let kept = u32_at_same all low a a (λ k x y lt e f.
      byte-put_u32_at low (a + 4) (v / 0x100000000) x (inl (omega arith))
      ∙ ap low.byte (omega arith)) in
    let put_low = u32_at-put_u32_at m a (v % 0x100000000) (omega arith) in
    let put_high = u32_at-put_u32_at low (a + 4) (v / 0x100000000) (omega arith) in
    omega (arith, kept, put_low, put_high)

-- A 64-bit value elsewhere stays.
pub u64_at-put_u64_at_apart :
    (m : Memory) (a v b : ℕ) → (b + 8 ≤ a) ⊎ (a + 8 ≤ b) → u64_at (put_u64_at m a v) b ≡ u64_at m b
u64_at-put_u64_at_apart m a v b h =
    u64_at_same (put_u64_at m a v) m b b
      (λ k x y lt e f. byte-put_u64_at m a v x (ground (arith, h)) ∙ ap m.byte (omega arith))
