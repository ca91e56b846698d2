-- ===== src/LbProxy/Target.antt =====
-- internal/lbproxy/pool.go: the health of one backend, driven by active checks and by traffic.
-- The counters are Go `int`s that count events, and are taken not to overflow. The thresholds are
-- those of a defaulted configuration, which are positive.
pub mod Streaks
use infrastructure.Prelude.{
  ℕ, ◌+◌, String, Bool, true, false, not, List, [], ◌∷◌, Option, none, some, leb, if◌then◌else◌,
}

pub data Health : Type 0 where
  unknown healthy unhealthy : Health

pub record TargetState : Type 0 where
  pub health : Health
  pub successes : ℕ
  pub failures : ℕ
  pub passive : ℕ
  pub last_error : String

unfoldable pub new_target_state : TargetState
new_target_state = record {
  health = unknown;
  successes = 0;
  failures = 0;
  passive = 0;
  last_error = "";
}

-- `s.health != HealthUnhealthy`
abbrev pub is_usable : Health → Bool
is_usable unknown = true
is_usable healthy = true
is_usable unhealthy = false

unfoldable pub eligible : TargetState → Bool
eligible s = is_usable s.health

-- The argument `err` is `none` for `nil` and its text otherwise.
unfoldable pub observe_check : TargetState → Option String → ℕ → ℕ → TargetState
observe_check s none healthy_after unhealthy_after =
    let t = record s { successes = s.successes + 1; failures = 0; last_error = "" } in
    if leb healthy_after t.successes then record t { health = healthy; passive = 0 } else t
observe_check s (some e) healthy_after unhealthy_after =
    let t = record s { failures = s.failures + 1; successes = 0; last_error = e } in
    if leb unhealthy_after t.failures then record t { health = unhealthy } else t

unfoldable pub observe_traffic : TargetState → Option String → ℕ → TargetState
observe_traffic s none unhealthy_after = record s { passive = 0 }
observe_traffic s (some e) unhealthy_after =
    let t = record s { passive = s.passive + 1; last_error = e } in
    if leb unhealthy_after t.passive then record t { health = unhealthy; successes = 0 } else t

unfoldable pub snapshot : TargetState → Health × String
snapshot s = (s.health, s.last_error)

-- What the checker and the proxy report of one target, in the order in which it takes the lock.
pub data Observation : Type 0 where
  check traffic : Option String → Observation

unfoldable pub observe : ℕ → ℕ → TargetState → Observation → TargetState
unfolding observe_check observe_traffic
observe healthy_after unhealthy_after s (check e) = observe_check s e healthy_after unhealthy_after
observe healthy_after unhealthy_after s (traffic e) = observe_traffic s e unhealthy_after

unfoldable pub observe_all : ℕ → ℕ → TargetState → List Observation → TargetState
observe_all healthy_after unhealthy_after s [] = s
observe_all healthy_after unhealthy_after s (o ∷ os) =
    observe_all healthy_after unhealthy_after (observe healthy_after unhealthy_after s o) os
