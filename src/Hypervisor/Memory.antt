-- ===== src/Hypervisor/Memory.antt =====
-- internal/hypervisor/guestmemory.go: the guest's memory, as the devices see it.
-- A slice aliases the memory, so it is the range that it stands for; reads and writes through it are
-- reads and writes of the memory. Addresses are 64-bit, and their sums wrap around.
pub mod Access
use infrastructure.Prelude.{
  ℕ, ◌+◌, ◌*◌, ◌/◌, ◌%◌, ◌≤◌, Bool, List, [], ◌∷◌, ltb, ◌==◌, ◌≡◌, refl, if◌then◌else◌,
}
use infrastructure.Hypervisor.Word.{u64}

-- What a call does: it returns, it fails with an error, or it panics, which ends the process.
pub data Outcome {ℓ} (A : Type ℓ) : Type ℓ where
  done : A → Outcome A
  failed : Outcome A
  crashed : Outcome A

module _ {ℓ κ} {A : Type ℓ} {B : Type κ} where
  infixl 5 ◌>>=◌
  abbrev pub ◌>>=◌ : Outcome A → (A → Outcome B) → Outcome B
  crashed >>= rest = crashed
  failed >>= rest = failed
  done a >>= rest = rest a

-- A call that returned was made of steps that returned.
pub >>=_returned {ℓ κ} :
    {A : Type ℓ} {B : Type κ} (m : Outcome A) (rest : A → Outcome B) {b : B}
    → (m >>= rest) ≡ done b
    → (a : A) × (m ≡ done a) × (rest a ≡ done b)
>>=_returned crashed rest h = cc
>>=_returned failed rest h = cc
>>=_returned (done a) rest h = (a, refl, h)

pub record Memory : Type 0 where
  pub size : ℕ
  pub byte : ℕ → ℕ

-- A slice of the memory: where it starts and how long it is.
pub record View : Type 0 where
  pub start : ℕ
  pub count : ℕ

-- `Slice`: the bound is tested on the wrapped end; `m.mem[addr : end]` panics where the end lies
-- before the start. A length is not negative here.
unfoldable pub slice : Memory → ℕ → ℕ → Outcome View
slice m addr count =
    let stop = u64 (addr + count) in
    if ltb m.size stop
    then failed
    else if ltb stop addr
    then crashed
    else done (record { start = addr; count = count })

-- Little-endian values at an address.
abbrev pub u16_at : Memory → ℕ → ℕ
u16_at m a = m.byte a + m.byte (a + 1) * 0x100

abbrev pub u32_at : Memory → ℕ → ℕ
u32_at m a = u16_at m a + u16_at m (a + 2) * 0x10000

abbrev pub u64_at : Memory → ℕ → ℕ
u64_at m a = u32_at m a + u32_at m (a + 4) * 0x100000000

-- One byte written, and a 16-bit and a 32-bit value, low byte first.
unfoldable pub put_byte : Memory → ℕ → ℕ → Memory
put_byte m a v = record m { byte = λ x. if x == a then v else m.byte x }

unfoldable pub put_u16_at : Memory → ℕ → ℕ → Memory
unfolding put_byte
put_u16_at m a v = put_byte (put_byte m a (v % 0x100)) (a + 1) (v / 0x100 % 0x100)

unfoldable pub put_u32_at : Memory → ℕ → ℕ → Memory
unfolding put_u16_at
put_u32_at m a v = put_u16_at (put_u16_at m a (v % 0x10000)) (a + 2) (v / 0x10000)
