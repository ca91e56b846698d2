-- ===== src/Device/Transaction.antt =====
-- What the success of a transaction says, whoever else writes to the backend.
use infrastructure.Prelude.{
  ℕ, zero, suc, ◌+◌, ◌<◌, arith, ◌≡◌, refl, ap, ◌∙◌, Bool, true, false, Option, Result, ok,
  ok-injective, err,
}
use infrastructure.Prelude.Exec.{Exec}
use infrastructure.Device.{
  Devices, Closure, attempt, Backend, stored, swapped, changed, with_read, retry, transact,
}

module _ {S A : Type 0} (backend : Backend S) (now : ℕ) (closure : Closure A) (initial : A)
    (origin : S) where
  -- What the closure holds, and the state of the backend, after so many attempts whose swaps were lost:
  -- each has left its result in the closure.
  pub data IsHeld : ℕ → A → S → Type 0 where
    at_first : IsHeld 0 initial origin
    lost :
        (n : ℕ) (before a : A) (old : Option Devices) (left : Devices) (start between final : S)
        → IsHeld n before start
        → backend.get start ≡ (ok old, between)
        → attempt now (closure before) (stored old) ≡ ok (a, left)
        → backend.compare_and_swap old left between ≡ (ok false, final)
        → IsHeld (suc n) a final

  -- The backend was read, and the change of what was read was swapped in, as the last thing.
  pub record IsApplied (a : A) (final : S) : Type 0 where
    pub lost_before : ℕ
    pub few : lost_before < 16
    pub held : A
    pub old : Option Devices
    pub left : Devices
    pub start : S
    pub between : S
    pub is_held : IsHeld lost_before held start
    pub was_read : backend.get start ≡ (ok old, between)
    pub was_changed : attempt now (closure held) (stored old) ≡ ok (a, left)
    pub was_swapped : backend.compare_and_swap old left between ≡ (ok true, final)

  -- What the attempts after `n` lost ones guarantee.
  abbrev pub Guarantees : ℕ → (A → Exec S A) → Type 0
  Guarantees n again =
      (held : A) (s : S)
      → IsHeld n held s
      → (a : A) → (again held s).0 ≡ ok a
      → IsApplied a (again held s).1

  swapped-IsApplied :
      (n : ℕ) (again : A → Exec S A) (held : A) (old : Option Devices) (left : Devices) (a0 : A)
      (start between : S)
      → n < 16
      → IsHeld n held start
      → backend.get start ≡ (ok old, between)
      → attempt now (closure held) (stored old) ≡ ok (a0, left)
      → Guarantees (suc n) again
      → (w : Result Bool) (final : S) → backend.compare_and_swap old left between ≡ (w, final)
      → (a : A) → (swapped a0 again w final).0 ≡ ok a
      → IsApplied a (swapped a0 again w final).1
  swapped-IsApplied n again held old left a0 start between few i r c g (err e) final q a h =
      absurd cc
  swapped-IsApplied n again held old left a0 start between few i r c g (ok false) final q a h =
      g a0 final (lost n held a0 old left start between final i r c q) a h
  swapped-IsApplied n again held old left a0 start between few i r c g (ok true) final q a h =
      record {
        lost_before = n;
        few = few;
        held = held;
        is_held = i;
        old = old;
        left = left;
        start = start;
        between = between;
        was_read = r;
        was_changed = c ∙ ap (λ x. ok (x, left)) (ok-injective h);
        was_swapped = q;
      }

  changed-IsApplied :
      (n : ℕ) (again : A → Exec S A) (held : A) (old : Option Devices) (start between : S)
      → n < 16
      → IsHeld n held start
      → backend.get start ≡ (ok old, between)
      → Guarantees (suc n) again
      → (c : Result (A × Devices)) → attempt now (closure held) (stored old) ≡ c
      → (a : A) → (changed backend again old c between).0 ≡ ok a
      → IsApplied a (changed backend again old c between).1
  changed-IsApplied n again held old start between few i r g (err e) q a h = absurd cc
  changed-IsApplied n again held old start between few i r g (ok (a0, left)) q a h =
      swapped-IsApplied n again held old left a0 start between few i r q g
        (backend.compare_and_swap old left between).0 (backend.compare_and_swap old left between).1
        refl a h

  read-IsApplied :
      (n : ℕ) (again : A → Exec S A) (held : A) (start : S)
      → n < 16
      → IsHeld n held start
      → Guarantees (suc n) again
      → (r : Result (Option Devices)) (between : S) → backend.get start ≡ (r, between)
      → (a : A) → (with_read backend now (closure held) again r between).0 ≡ ok a
      → IsApplied a (with_read backend now (closure held) again r between).1
  read-IsApplied n again held start few i g (err e) between q a h = absurd cc
  read-IsApplied n again held start few i g (ok old) between q a h =
      changed-IsApplied n again held old start between few i q g
        (attempt now (closure held) (stored old)) refl a h

  retry-IsApplied :
      (attempts n : ℕ) → n + attempts ≡ 16 → Guarantees n (retry backend now closure attempts)
  unfolding retry
  retry-IsApplied zero n e held s i a h = absurd cc
  retry-IsApplied (suc attempts) n e held s i a h =
      read-IsApplied n (retry backend now closure attempts) held s (omega (arith, e)) i
        (retry-IsApplied attempts (suc n) (omega (arith, e))) (backend.get s).0 (backend.get s).1
        refl a h

-- Whatever the backend does in between, a transaction that reports a result has as its last action
-- swapped in the authorizations that its closure made, with that result, of those that it had read;
-- fewer than 16 attempts were lost before, and the closure held what the last of these had left in it.
pub transact-IsApplied :
    {S A : Type 0} (backend : Backend S) (now : ℕ) (closure : Closure A) (initial : A) (s : S)
    (a : A)
    → (transact backend now closure initial s).0 ≡ ok a
    → IsApplied backend now closure initial s a (transact backend now closure initial s).1
unfolding transact
transact-IsApplied backend now closure initial s a h =
    retry-IsApplied backend now closure initial s 16 0 refl initial s at_first a h
