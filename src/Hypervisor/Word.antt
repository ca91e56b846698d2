-- ===== src/Hypervisor/Word.antt =====
-- Bits and halves of machine words. A word is a number below its modulus.
use infrastructure.Prelude.{ℕ, ◌+◌, ◌*◌, ◌/◌, ◌%◌, ◌^◌, ◌<◌, ◌≡◌, Bool, arith, List, [], ◌∷◌, ◌==◌}

-- x & (1 << k) != 0
abbrev pub bit : ℕ → ℕ → Bool
bit k x = x / 2 ^ k % 2 == 1

abbrev pub u8 : ℕ → ℕ
u8 x = x % 0x100

abbrev pub u16 : ℕ → ℕ
u16 x = x % 0x10000

abbrev pub u32 : ℕ → ℕ
u32 x = x % 0x100000000

abbrev pub u64 : ℕ → ℕ
u64 x = x % 0x10000000000000000

-- x & 0xffffffff00000000 | v, for a 64-bit x and a 32-bit v.
abbrev pub put_low : ℕ → ℕ → ℕ
put_low x v = x / 0x100000000 * 0x100000000 + v

-- x & 0x00000000ffffffff | v << 32, for a 64-bit x and a 32-bit v.
abbrev pub put_high : ℕ → ℕ → ℕ
put_high x v = x % 0x100000000 + v * 0x100000000

-- binary.LittleEndian.Uint32 of four bytes.
unfoldable pub le_u32 : ℕ → ℕ → ℕ → ℕ → ℕ
le_u32 a b c d = a + b * 0x100 + c * 0x10000 + d * 0x1000000

-- binary.LittleEndian.PutUint32.
unfoldable pub put_u32 : ℕ → List ℕ
put_u32 v = v % 0x100 ∷ v / 0x100 % 0x100 ∷ v / 0x10000 % 0x100 ∷ v / 0x1000000 % 0x100 ∷ []

pub put_low-put_high :
    (x lo hi : ℕ)
    → x < 0x10000000000000000
    → lo < 0x100000000
    → put_high (put_low x lo) hi ≡ lo + hi * 0x100000000
put_low-put_high x lo hi h k = omega arith

pub put_high-put_low : (x lo hi : ℕ) → put_low (put_high x hi) lo ≡ lo + hi * 0x100000000
put_high-put_low x lo hi = omega arith

pub le_u32-lt :
    (a b c d : ℕ) → a < 0x100 → b < 0x100 → c < 0x100 → d < 0x100 → le_u32 a b c d < 0x100000000
unfolding le_u32
le_u32-lt a b c d h i j k = omega arith

-- A 32-bit value survives its four little-endian bytes.
pub le_u32-put_u32 :
    (v : ℕ)
    → v < 0x100000000
    → le_u32 (v % 0x100) (v / 0x100 % 0x100) (v / 0x10000 % 0x100) (v / 0x1000000 % 0x100) ≡ v
unfolding le_u32
le_u32-put_u32 v h = omega arith
