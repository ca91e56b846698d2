-- ===== src/Hypervisor/Boot/Placement/Cmdline.antt =====
-- The command line as the guest finds it.
use infrastructure.Prelude.{
  ℕ, ◌+◌, ◌≤◌, ◌<◌, ◌≡◌, refl, leb, ok, err-ok, ok-injective, arith, Bool-cases, inl, inr,
}
use infrastructure.Hypervisor.Word.{u32}
use infrastructure.Hypervisor.Memory.{Memory}
use infrastructure.Hypervisor.Boot.{cmdline_max_size}
use infrastructure.Hypervisor.Boot.Buffer.{make, copy}
use infrastructure.Hypervisor.Boot.Placement.{cmdline_limit, build_cmdline}

limit-max : (kernel_max : ℕ) → cmdline_limit kernel_max ≤ cmdline_max_size
unfolding cmdline_limit
limit-max k = ground arith

-- A line that is accepted ends in a NUL and, with it, takes at most the space that is kept for it.
pub build_cmdline_lem :
    (s : Memory) (kernel_max : ℕ) (line : Memory)
    → s.size < 0x100000000
    → build_cmdline s kernel_max ≡ ok line
    → (line ≡ copy (make (s.size + 1)) 0 s)
      × (line.size ≡ s.size + 1)
      × (line.size ≤ cmdline_max_size)
unfolding build_cmdline
build_cmdline_lem s k line small h = elim (Bool-cases (leb (cmdline_limit k) (u32 s.size))) [
  | inl long ↦ absurd (err-ok (rw long at h))
  | inr fits ↦
      let bound = limit-max k in
      rw (← ok-injective (rw fits at h)) (refl, refl, ground (arith, fits, small, bound))
]
