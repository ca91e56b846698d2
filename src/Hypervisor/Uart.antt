-- ===== src/Hypervisor/Uart.antt =====
-- internal/hypervisor/uart/uart.go: the 16550A of the guest's console.
-- `out` is what was written to the console, oldest first; errors of that write are dropped there.
-- The registers are bytes and the divisor latch has 16 bits. The mutex makes each access one step.
pub mod Console
use infrastructure.Prelude.{
  ℕ, ◌+◌, ◌*◌, ◌/◌, ◌%◌, Bool, true, false, List, [], ◌∷◌, ◌++◌, ◌==◌, ◌||◌, if◌then◌else◌,
}
use infrastructure.Hypervisor.Word.{bit}

pub record Uart : Type 0 where
  pub out : List ℕ
  pub ier : ℕ
  pub lcr : ℕ
  pub mcr : ℕ
  pub scratch : ℕ
  pub divisor_latch : ℕ

unfoldable pub new : Uart
new = record { out = []; ier = 0; lcr = 0; mcr = 0; scratch = 0; divisor_latch = 0 }

-- u.lcr & lcrDLAB != 0
abbrev pub dlab : Uart → Bool
dlab u = bit 7 u.lcr

-- A guest write, and whether the interrupt line is wanted.
unfoldable pub write : Uart → ℕ → ℕ → Uart × Bool
write u off val =
    if off == 0
    then (if dlab u
        then (record u { divisor_latch = u.divisor_latch / 0x100 * 0x100 + val }, false)
        else (record u { out = u.out ++ val ∷ [] }, bit 1 u.ier))
    else if off == 1
    then (if dlab u
        then (record u { divisor_latch = u.divisor_latch % 0x100 + val * 0x100 }, false)
        else (record u { ier = val % 0x10 }, false))
    else if off == 2
    then (u, false)
    else if off == 3
    then (record u { lcr = val }, false)
    else if off == 4
    then (record u { mcr = val }, false)
    else if off == 5 || off == 6
    then (u, false)
    else if off == 7
    then (record u { scratch = val }, false)
    else (u, false)

unfoldable pub read : Uart → ℕ → ℕ
read u off =
    if off == 0
    then (if dlab u then u.divisor_latch % 0x100 else 0)
    else if off == 1
    then (if dlab u then u.divisor_latch / 0x100 else u.ier)
    else if off == 2
    then 1
    else if off == 3
    then u.lcr
    else if off == 4
    then u.mcr
    else if off == 5
    then 0x60
    else if off == 6
    then 0
    else if off == 7
    then u.scratch
    else 0xff

-- A guest's writes, in order.
unfoldable pub write_all : Uart → List (ℕ × ℕ) → Uart
write_all u [] = u
write_all u ((off, val) ∷ ws) = write_all (write u off val).0 ws
