-- ===== src/Hypervisor/Drain/Told.antt =====
-- Whether the guest is to be told of anything once the loop has ended.
use infrastructure.Prelude.{
  ℕ, zero, suc, ◌+◌, ◌≤◌, ◌≡◌, refl, ◌⊎◌, inl, inr, Bool, true, false, ◌||◌, ltb, Option, none,
  some, arith,
}
use infrastructure.Hypervisor.Memory.{Outcome, done, failed, crashed, Memory}
use infrastructure.Hypervisor.VirtQueue.{Chain, VirtQueue, pop, push}
use infrastructure.Hypervisor.Drain.{Reply, Drained, pushed_to, popped, drain}

module _ {S : Type 0} (serve : Memory → S → Chain → Reply S) (sent : S → ℕ) where
  -- An answer of which the guest is to be told counts in the device's state, and no other does.
  abbrev pub Counts : S → Reply S → Type 0
  Counts σ a =
      ((a.told ≡ true) × (sent a.state ≡ sent σ + 1)) ⊎ ((a.told ≡ false) × (sent a.state ≡ sent σ))

  -- The guest is told if it was to be told before, or something has counted since.
  pub record Tells (σ : S) (told : Bool) (d : Drained S) : Type 0 where
    pub grows : sent σ ≤ sent d.state
    pub tells : d.told ≡ (told || ltb (sent σ) (sent d.state))

  Tells-more :
      (σ : S) (told : Bool) (a : Reply S) (d : Drained S)
      → Counts σ a
      → Tells a.state (told || a.told || false) d
      → Tells σ told d
  Tells-more σ told a d (inl (t, more)) h = record {
    grows = omega (arith, more, h.grows);
    tells = ground (arith, t, more, h.grows, h.tells);
  }
  Tells-more σ told a d (inr (t, same)) h = record {
    grows = omega (arith, same, h.grows);
    tells = ground (arith, t, same, h.grows, h.tells);
  }

  stopped-Tells :
      (σ : S) (told : Bool) (d : Drained S) → d.state ≡ σ → d.told ≡ told → Tells σ told d
  stopped-Tells σ told d e t = record {
    grows = rw e (omega arith);
    tells = rw (e, t) (ground arith);
  }

  pushed_to-Tells :
      (σ : S) (told : Bool) (a : Reply S) (vq : VirtQueue) (next : Memory → Drained S)
      (o : Outcome Memory)
      → Counts σ a
      → ((n : Memory) → Tells a.state (told || a.told || false) (next n))
      → Tells σ told (pushed_to serve false a vq (told || a.told) next o)
  pushed_to-Tells σ told a vq next (done n) c h = Tells-more σ told a (next n) c (h n)
  pushed_to-Tells σ told a vq next failed c h =
      Tells-more σ told a _ c
        (stopped-Tells a.state (told || a.told || false) _ refl (ground arith))
  pushed_to-Tells σ told a vq next crashed c h =
      Tells-more σ told a _ c
        (stopped-Tells a.state (told || a.told || false) _ refl (ground arith))

  popped-Tells :
      (σ : S) (told : Bool) (m : Memory) (vq : VirtQueue) (next : Chain → Drained S)
      (o : Outcome (Option Chain))
      → ((c : Chain) → Tells σ told (next c))
      → Tells σ told (popped serve false m σ vq told next o)
  popped-Tells σ told m vq next (done (some c)) h = h c
  popped-Tells σ told m vq next (done none) h = stopped-Tells σ told _ refl refl
  popped-Tells σ told m vq next failed h = stopped-Tells σ told _ refl refl
  popped-Tells σ told m vq next crashed h = stopped-Tells σ told _ refl refl

  pub drain-Tells :
      ((m : Memory) (σ : S) (c : Chain) → Counts σ (serve m σ c))
      → (fuel : ℕ) (m : Memory) (σ : S) (vq : VirtQueue) (told : Bool)
      → Tells σ told (drain serve false fuel m σ vq told)
  unfolding drain
  drain-Tells counts zero m σ vq told = stopped-Tells σ told _ refl refl
  drain-Tells counts (suc fuel) m σ vq told =
      popped-Tells σ told m (pop m vq).1 _ (pop m vq).0 (λ c.
        let a = serve m σ c in
        pushed_to-Tells σ told a (pop m vq).1 _ (push a.memory (pop m vq).1 c.head_index a.written)
          (counts m σ c)
          (λ n. drain-Tells counts fuel n a.state (pop m vq).1 (told || a.told || false)))
