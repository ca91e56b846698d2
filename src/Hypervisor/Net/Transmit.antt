-- ===== src/Hypervisor/Net/Transmit.antt =====
-- What a notification of the transmit queue comes to.
use infrastructure.Prelude.{ℕ, ◌+◌, ◌≡◌, ◌⊎◌, List, refl, true, false, ltb, Bool-cases, inl, inr}
use infrastructure.Hypervisor.Memory.{Memory}
use infrastructure.Hypervisor.VirtQueue.{Chain, VirtQueue}
use infrastructure.Hypervisor.Drain.Ends.{Ends}
use infrastructure.Hypervisor.Net.{Net, Tap, net_hdr_size, total_len, transmit}

-- Rounds that are enough: the indices of a ring have 16 bits.
abbrev pub enough : ℕ
enough = 0x10000

module _ {S : Type 0} (tap : Tap S) where
  pub memory-transmit : (m : Memory) (σ : S) (c : Chain) → (transmit tap m σ c).memory ≡ m
  unfolding transmit
  memory-transmit m σ c = elim (Bool-cases (ltb (total_len c.segments) net_hdr_size)) [
    | inl e ↦ rw e refl
    | inr e ↦ rw e refl
  ]

  -- `sent` counts the frames that the tap has taken.
  abbrev pub IsCount : (S → ℕ) → Type 0
  IsCount sent =
      (frame : List ℕ)
      → (σ : S)
      → (((tap frame σ).0 ≡ true) × (sent (tap frame σ).1 ≡ sent σ + 1))
        ⊎ (((tap frame σ).0 ≡ false) × (sent (tap frame σ).1 ≡ sent σ))
