-- ===== src/Resource/Condition.antt =====
-- internal/domain/resource/condition.go: the phase and the conditions of a resource's status. A
-- time is a number of nanoseconds, and the clock of `NewCondition` is an argument.
pub mod Phases
use infrastructure.Prelude.{
  ℕ, ◌≡◌, refl, ◌⊎◌, inl, inr, Bool, true, false, ◌&&◌, List, [], ◌∷◌, Option, none, some, String,
  arith, str_eq, if◌then◌else◌, ltb, leb, Bool-cases,
}

pub data ConditionStatus : Type 0 where
  condition_true condition_false condition_unknown : ConditionStatus

pub record Condition : Type 0 where
  pub type : String
  pub status : ConditionStatus
  pub reason : String
  pub message : String
  pub last_transition_time : ℕ

-- A phase is a text in the source; one that is none of the constants is `other`.
pub data Phase : Type 0 where
  phase_pending phase_reconciling phase_ready phase_error phase_deleting phase_terminated : Phase
  phase_other : String → Phase

unfoldable pub new_condition : ℕ → String → ConditionStatus → String → String → Condition
new_condition now type status reason message = record {
  type = type;
  status = status;
  reason = reason;
  message = message;
  last_transition_time = now;
}

abbrev pub condition_ready : String
condition_ready = "Ready"

abbrev pub condition_progressing : String
condition_progressing = "Progressing"

unfoldable pub ready_condition : ℕ → String → String → Condition
unfolding new_condition
ready_condition now reason message = new_condition now condition_ready condition_true reason message

unfoldable pub progressing_condition : ℕ → String → String → Condition
unfolding new_condition
progressing_condition now reason message =
    new_condition now condition_progressing condition_true reason message

unfoldable pub error_condition : ℕ → String → Condition
unfolding new_condition
error_condition now message = new_condition now condition_ready condition_false "Error" message

pub record StatusBase : Type 0 where
  pub observed_generation : ℕ
  pub phase : Phase
  pub conditions : List Condition

-- The list of conditions with `c` in place of the first of its type, or at the end.
unfoldable pub upsert : Condition → List Condition → List Condition
upsert c [] = c ∷ []
upsert c (d ∷ ds) = let rest = upsert c ds in if str_eq d.type c.type then c ∷ ds else d ∷ rest

unfoldable pub set_condition : Condition → StatusBase → StatusBase
unfolding upsert
set_condition c s = record s { conditions = upsert c s.conditions }

unfoldable pub find_condition : String → List Condition → Option Condition
find_condition type [] = none
find_condition type (d ∷ ds) = if str_eq d.type type then some d else find_condition type ds

unfoldable pub get_condition : String → StatusBase → Option Condition
unfolding find_condition
get_condition type s = find_condition type s.conditions

abbrev pub is_phase_ready : Phase → Bool
is_phase_ready phase_ready = true
is_phase_ready _ = false

unfoldable pub is_ready : StatusBase → Bool
is_ready s = is_phase_ready s.phase

unfoldable pub needs_reconcile : StatusBase → ℕ → Bool
needs_reconcile s generation = ltb s.observed_generation generation

unfoldable pub mark_reconciled : ℕ → StatusBase → StatusBase
mark_reconciled generation s = record s { observed_generation = generation }

unfoldable pub is_converged : StatusBase → ℕ → Bool
is_converged s generation = leb generation s.observed_generation && is_phase_ready s.phase

-- The conditions that `SetPhase` derives from the phase.
abbrev pub derived : ℕ → Phase → String → String → StatusBase → StatusBase
derived now phase_ready reason message s =
    set_condition (new_condition now condition_progressing condition_false reason message)
      (set_condition (ready_condition now reason message) s)
derived now phase_reconciling reason message s =
    set_condition (progressing_condition now reason message) s
derived now phase_error reason message s =
    set_condition (new_condition now condition_progressing condition_false reason message)
      (set_condition (error_condition now message) s)
derived now phase_deleting reason message s =
    set_condition (progressing_condition now "Deleting" message)
      (set_condition (new_condition now condition_ready condition_false "Deleting" message) s)
derived now phase_pending reason message s =
    set_condition (new_condition now condition_ready condition_false "Pending" message) s
derived now phase_terminated reason message s = s
derived now (phase_other p) reason message s = s

unfoldable pub set_phase : ℕ → Phase → String → String → StatusBase → StatusBase
set_phase now phase reason message s = derived now phase reason message (record s { phase = phase })
