-- ===== src/Hypervisor/Uart/Console.antt =====
-- What the console shows, and what the guest reads back.
use infrastructure.Prelude.{
  ℕ, ◌+◌, ◌*◌, ◌<◌, ◌≡◌, refl, sym, ◌∙◌, Bool, List, [], ◌∷◌, ◌++◌, append_assoc, append-nil, arith,
  All, ◌==◌, if◌then◌else◌,
}
use mathlib.Core.Path.{ap₂}
use infrastructure.Hypervisor.Word.{bit}
use infrastructure.Hypervisor.Uart.{Uart, new, dlab, write, read, write_all}

-- What one write sends to the console, where `latch` is the divisor latch bit.
shown : Bool → ℕ → ℕ → List ℕ
shown latch off val = if off == 0 then (if latch then [] else val ∷ []) else []

-- The divisor latch bit after one write.
latched : Bool → ℕ → ℕ → Bool
latched latch off val = if off == 3 then bit 7 val else latch

-- The bytes that writes send to the console: the data writes made while the bit is clear, in order.
pub sent : Bool → List (ℕ × ℕ) → List ℕ
unfolding shown latched
sent latch [] = []
sent latch ((off, val) ∷ ws) = shown latch off val ++ sent (latched latch off val) ws

write_out : (u : Uart) (off val : ℕ) → (write u off val).0.out ≡ u.out ++ shown (dlab u) off val
unfolding write shown
write_out u off val = ground (arith, append-nil u.out)

write-dlab : (u : Uart) (off val : ℕ) → dlab (write u off val).0 ≡ latched (dlab u) off val
unfolding write latched
write-dlab u off val = ground arith

-- However a guest writes to the registers, the console shows the bytes that it wrote to the data
-- register while the divisor latch bit was clear, in that order, behind what it showed before.
pub write_all_out :
    (u : Uart) (ws : List (ℕ × ℕ)) → (write_all u ws).out ≡ u.out ++ sent (dlab u) ws
unfolding write_all sent
write_all_out u [] = sym (append-nil u.out)
write_all_out u ((off, val) ∷ ws) =
    write_all_out (write u off val).0 ws
    ∙ ap₂ (λ xs b. xs ++ sent b ws) (write_out u off val) (write-dlab u off val)
    ∙ append_assoc u.out (shown (dlab u) off val) (sent (latched (dlab u) off val) ws)

-- Every register holds a value of its width.
pub record IsByteWide (u : Uart) : Type 0 where
  pub ier_width : u.ier < 0x10
  pub lcr_width : u.lcr < 0x100
  pub mcr_width : u.mcr < 0x100
  pub scratch_width : u.scratch < 0x100
  pub latch_width : u.divisor_latch < 0x10000

write-IsByteWide :
    (u : Uart) (off val : ℕ) → val < 0x100 → IsByteWide u → IsByteWide (write u off val).0
unfolding write
write-IsByteWide u off val h w = ground arith

write_all-IsByteWide :
    (u : Uart) (ws : List (ℕ × ℕ))
    → All (λ w. w.1 < 0x100) ws
    → IsByteWide u
    → IsByteWide (write_all u ws)
unfolding write_all
write_all-IsByteWide u [] h w = w
write_all-IsByteWide u ((off, val) ∷ ws) h w =
    write_all-IsByteWide (write u off val).0 ws h.1 (write-IsByteWide u off val h.0 w)

read-lt : (u : Uart) (off : ℕ) → IsByteWide u → read u off < 0x100
unfolding read
read-lt u off w = ground arith

new-IsByteWide : IsByteWide new
unfolding new
new-IsByteWide = ground arith

-- After any writes of bytes to a new device every register stays within its width, and what a
-- guest reads at any offset is a byte.
pub read-write_all :
    (ws : List (ℕ × ℕ)) (off : ℕ)
    → All (λ w. w.1 < 0x100) ws
    → IsByteWide (write_all new ws) × (read (write_all new ws) off < 0x100)
read-write_all ws off h =
    let wide = write_all-IsByteWide new ws h new-IsByteWide in
    (wide, read-lt (write_all new ws) off wide)

abbrev pub set_divisor : ℕ → ℕ → List (ℕ × ℕ)
set_divisor lo hi = (3, 0x80) ∷ (0, lo) ∷ (1, hi) ∷ []

-- Behind a set divisor latch bit, offsets 0 and 1 hold the two halves of the divisor: what is
-- written there is read back, nothing goes to the console, and the interrupt enables stay.
pub divisor_roundtrip :
    (u : Uart) (lo hi : ℕ)
    → lo < 0x100
    → hi < 0x100
    → let v = write_all u (set_divisor lo hi) in
      (read v 0 ≡ lo)
      × (read v 1 ≡ hi)
      × (v.divisor_latch ≡ lo + hi * 0x100)
      × (v.out ≡ u.out)
      × (v.ier ≡ u.ier)
unfolding write_all write read
divisor_roundtrip u lo hi h k = (omega arith, omega arith, omega arith, refl, refl)
