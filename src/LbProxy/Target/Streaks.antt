-- ===== src/LbProxy/Target/Streaks.antt =====
-- Health against the runs of equal outcomes at the end of a history.
use infrastructure.Prelude.{
  ℕ, zero, suc, ◌+◌, ◌≤◌, ◌<◌, String, ◌≡◌, true, false, List, [], ◌∷◌, none, some, arith,
  replicate,
}
use infrastructure.LbProxy.Target.{
  healthy, unhealthy, TargetState, Observation, check, traffic, observe, observe_all, eligible,
  new_target_state,
}

module _ (up down : ℕ) where
  check_failures :
      (n : ℕ) (e : String) (s : TargetState)
      → down ≤ s.failures + n
      → 0 < n
      → (observe_all up down s (replicate n (check (some e)))).health ≡ unhealthy
  unfolding observe_all observe
  check_failures zero e s h p = absurd (omega arith)
  check_failures (suc zero) e s h p = ground arith
  check_failures (suc (suc n)) e s h p =
      check_failures (suc n) e (observe up down s (check (some e))) (ground arith) (omega arith)

  check_successes :
      (n : ℕ) (s : TargetState)
      → up ≤ s.successes + n
      → 0 < n
      → (observe_all up down s (replicate n (check none))).health ≡ healthy
  unfolding observe_all observe
  check_successes zero s h p = absurd (omega arith)
  check_successes (suc zero) s h p = ground arith
  check_successes (suc (suc n)) s h p =
      check_successes (suc n) (observe up down s (check none)) (ground arith) (omega arith)

  drop_failures :
      (n : ℕ) (e : String) (s : TargetState)
      → down ≤ s.passive + n
      → 0 < n
      → (observe_all up down s (replicate n (traffic (some e)))).health ≡ unhealthy
  unfolding observe_all observe
  drop_failures zero e s h p = absurd (omega arith)
  drop_failures (suc zero) e s h p = ground arith
  drop_failures (suc (suc n)) e s h p =
      drop_failures (suc n) e (observe up down s (traffic (some e))) (ground arith) (omega arith)

  stays_out :
      (n : ℕ) (s : TargetState)
      → eligible s ≡ false
      → s.successes + n < up
      → eligible (observe_all up down s (replicate n (check none))) ≡ false
  unfolding observe_all observe eligible
  stays_out zero s h p = h
  stays_out (suc n) s h p =
      stays_out n (observe up down s (check none)) (ground arith) (ground arith)

  no_successes : (s : TargetState) (e : String) → (observe up down s (check (some e))).successes ≡ 0
  unfolding observe
  no_successes s e = ground arith

  -- Whatever happened before: as many failed checks in a row, or failed connections in a row, as the
  -- unhealthy threshold take any target out; as many successful checks in a row as the healthy
  -- threshold bring any target back; and a target that is out after a failed check stays out through
  -- fewer successful checks.
  pub streaks_decide :
      (n : ℕ) (e : String) (s : TargetState)
      → 0 < n
      → (down ≤ n → eligible (observe_all up down s (replicate n (check (some e)))) ≡ false)
        × (down ≤ n → eligible (observe_all up down s (replicate n (traffic (some e)))) ≡ false)
        × (up ≤ n → (observe_all up down s (replicate n (check none))).health ≡ healthy)
        × (eligible (observe up down s (check (some e))) ≡ false
            → n < up
            → eligible (
                observe_all up down (observe up down s (check (some e))) (replicate n (check none)))
              ≡ false)
  unfolding eligible
  streaks_decide n e s p = (
    λ h. rw (check_failures n e s (omega arith) p),
    λ h. rw (drop_failures n e s (omega arith) p),
    λ h. check_successes n s (omega arith) p,
    λ out h. stays_out n (observe up down s (check (some e))) out (omega (arith, no_successes s e)),
  )

-- The failed checks at the end of a history, not counting traffic, after `n` of them.
abbrev pub failed_in_row : ℕ → List Observation → ℕ
failed_in_row n [] = n
failed_in_row n (check (some e) ∷ os) = failed_in_row (n + 1) os
failed_in_row n (check none ∷ os) = failed_in_row 0 os
failed_in_row n (traffic t ∷ os) = failed_in_row n os

-- The failed connections since the last good one or the last good check.
abbrev pub dropped_in_row : ℕ → List Observation → ℕ
dropped_in_row n [] = n
dropped_in_row n (check (some e) ∷ os) = dropped_in_row n os
dropped_in_row n (check none ∷ os) = dropped_in_row 0 os
dropped_in_row n (traffic none ∷ os) = dropped_in_row 0 os
dropped_in_row n (traffic (some e) ∷ os) = dropped_in_row (n + 1) os

module _ (up down : ℕ) where
  -- A state whose counters are those of the history, and whose health agrees with them.
  record IsSettled (failed dropped : ℕ) (s : TargetState) : Type 0 where
    failures : s.failures ≡ failed
    passive : dropped ≤ s.passive
    usable_failures : eligible s ≡ true → s.failures < down
    usable_passive : eligible s ≡ true → s.passive < down

  module _ (down_pos : 0 < down) where
    history :
        (os : List Observation) (failed dropped : ℕ) (s : TargetState)
        → IsSettled failed dropped s
        → IsSettled (failed_in_row failed os) (dropped_in_row dropped os) (observe_all up down s os)
    unfolding observe_all observe eligible
    history [] f d s i = i
    history (check none ∷ os) f d s i =
        history os 0 0 (observe up down s (check none)) (ground arith)
    history (check (some e) ∷ os) f d s i =
        history os (f + 1) d (observe up down s (check (some e))) (ground arith)
    history (traffic none ∷ os) f d s i =
        history os f 0 (observe up down s (traffic none)) (ground arith)
    history (traffic (some e) ∷ os) f d s i =
        history os f (d + 1) (observe up down s (traffic (some e))) (ground arith)

    new_target_state-IsSettled : IsSettled 0 0 new_target_state
    unfolding new_target_state eligible
    new_target_state-IsSettled = ground arith

    -- After any history of a new target, with a positive threshold: while it gets traffic, the history
    -- ends in fewer failed checks in a row than the unhealthy threshold, and has had fewer failed
    -- connections than that since the last good connection or good check.
    pub usable-history :
        (os : List Observation)
        → eligible (observe_all up down new_target_state os) ≡ true
        → (failed_in_row 0 os < down) × (dropped_in_row 0 os < down)
    usable-history os e =
        let i = history os 0 0 new_target_state new_target_state-IsSettled in
        (
          omega (arith, i.failures, i.usable_failures e),
          omega (arith, i.passive, i.usable_passive e),
        )
