-- ===== src/Hypervisor/Drain.antt =====
-- The loop of `HandleNotify` in virtio/blk.go and virtio/net.go, which answers every request of a
-- queue. The source's loop has no bound; here it has rounds of fuel. While it runs, nobody else
-- writes to the guest's memory, where the source's guest may. A panic ends the process, so what
-- follows a loop that panicked stands for nothing.
pub mod Ends
pub mod Told
use infrastructure.Prelude.{ℕ, zero, suc, Bool, true, false, ◌||◌, Option, none, some}
use infrastructure.Hypervisor.Memory.{Outcome, done, failed, crashed, Memory}
use infrastructure.Hypervisor.VirtQueue.{Chain, VirtQueue, pop, push}

-- What answering a request leaves: the memory, the device's state, the length for the used ring, and
-- whether the guest is to be told of it already.
pub record Reply (S : Type 0) : Type 0 where
  pub memory : Memory
  pub state : S
  pub written : ℕ
  pub told : Bool

-- Why the loop ended.
pub data Stop : Type 0 where
  drained pop_failed push_failed panicked out_of_fuel : Stop

pub record Drained (S : Type 0) : Type 0 where
  pub memory : Memory
  pub state : S
  pub vq : VirtQueue
  pub told : Bool
  pub stop : Stop

module _ {S : Type 0} (serve : Memory → S → Chain → Reply S) (on_push : Bool) where
  abbrev pub stopped : Stop → Memory → S → VirtQueue → Bool → Drained S
  stopped stop m σ vq told = record { memory = m; state = σ; vq = vq; told = told; stop = stop }

  -- What follows a `Push`, and what follows a `Pop`.
  abbrev pub pushed_to :
      Reply S → VirtQueue → Bool → (Memory → Drained S) → Outcome Memory → Drained S
  pushed_to a vq told next (done n) = next n
  pushed_to a vq told next failed = stopped push_failed a.memory a.state vq told
  pushed_to a vq told next crashed = stopped panicked a.memory a.state vq told

  abbrev pub popped :
      Memory → S → VirtQueue → Bool → (Chain → Drained S) → Outcome (Option Chain) → Drained S
  popped m σ vq told next (done (some c)) = next c
  popped m σ vq told next (done none) = stopped drained m σ vq told
  popped m σ vq told next failed = stopped pop_failed m σ vq told
  popped m σ vq told next crashed = stopped panicked m σ vq told

  -- `on_push` says whether a push is what makes the guest be told.
  unfoldable pub drain : ℕ → Memory → S → VirtQueue → Bool → Drained S
  drain zero m σ vq told = stopped out_of_fuel m σ vq told
  drain (suc fuel) m σ vq told =
      let vq' = (pop m vq).1 in
      popped m σ vq' told
        (λ c.
          let a = serve m σ c in
          pushed_to a vq' (told || a.told)
            (λ n. drain fuel n a.state vq' (told || a.told || on_push))
            (push a.memory vq' c.head_index a.written))
        (pop m vq).0
