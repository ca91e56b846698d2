-- ===== src/Hypervisor/Memory/Access.antt =====
-- Which ranges of guest memory `Slice` hands out.
use infrastructure.Prelude.{
  ℕ, ◌+◌, ◌≤◌, ◌<◌, ◌≡◌, ◌⊎◌, arith, if◌then◌else◌, leb, ◌≢◌, ap, sym, inl, inr, ltb, Bool-cases,
}
use infrastructure.Hypervisor.Word.{u64}
use infrastructure.Hypervisor.Memory.{
  done, failed, crashed, Memory, View, slice, put_u16_at, put_u32_at, u16_at, u32_at,
}

module _ (m : Memory) (addr count : ℕ) where
  -- Without a wrap-around of the end, `Slice` hands out the range exactly when it lies within the
  -- memory, and otherwise fails with an error.
  pub slice_in_range :
      addr + count < 0x10000000000000000
      → slice m addr count ≡ (
          if leb (addr + count) m.size
          then done (record { start = addr; count = count })
          else failed)
  unfolding slice
  slice_in_range h = ground arith

  -- A range whose end wraps around into the memory passes the bounds test and panics: a guest that
  -- puts such an address and length into a descriptor ends the hypervisor.
  pub slice_wraps :
      addr < 0x10000000000000000
      → count < 0x100000000
      → 0x10000000000000000 ≤ addr + count
      → addr + count ≤ 0x10000000000000000 + m.size
      → slice m addr count ≡ crashed
  unfolding slice
  slice_wraps a c w r = ground arith

-- A 16-bit value written is read back, and every other byte stays.
pub u16_at-put_u16_at : (m : Memory) (a v : ℕ) → v < 0x10000 → u16_at (put_u16_at m a v) a ≡ v
unfolding put_u16_at
u16_at-put_u16_at m a v h = ground arith

pub byte-put_u16_at :
    (m : Memory) (a v x : ℕ) → (x < a) ⊎ (a + 1 < x) → (put_u16_at m a v).byte x ≡ m.byte x
unfolding put_u16_at
byte-put_u16_at m a v x h = ground arith

pub u32_at-put_u32_at : (m : Memory) (a v : ℕ) → v < 0x100000000 → u32_at (put_u32_at m a v) a ≡ v
unfolding put_u32_at
u32_at-put_u32_at m a v h = ground arith

pub byte-put_u32_at :
    (m : Memory) (a v x : ℕ) → (x < a) ⊎ (a + 3 < x) → (put_u32_at m a v).byte x ≡ m.byte x
unfolding put_u32_at
byte-put_u32_at m a v x h = ground arith

pub not_crashed {ℓ} : {A : Type ℓ} {a : A} → crashed ≢ done a
not_crashed h = cc

not_failed {ℓ} : {A : Type ℓ} {a : A} → failed ≢ done a
not_failed h = cc

pub done-injective {ℓ} : {A : Type ℓ} {a b : A} → done a ≡ done b → a ≡ b
done-injective {a = a} h = ap (λ r. elim r [ done x ↦ x | failed ↦ a | crashed ↦ a ]) h

-- A slice that is given out is the range that was asked for.
pub slice-view :
    (m : Memory) (a n : ℕ) (v : View) → slice m a n ≡ done v → v ≡ record { start = a; count = n }
unfolding slice
slice-view m a n v h = elim (Bool-cases (ltb m.size (u64 (a + n)))) [
  | inl e ↦ absurd (not_failed (rw e at h))
  | inr e ↦ elim (Bool-cases (ltb (u64 (a + n)) a)) [
    | inl g ↦ absurd (not_crashed (rw (e, g) at h))
    | inr g ↦ sym (done-injective (rw (e, g) at h))
  ]
]
