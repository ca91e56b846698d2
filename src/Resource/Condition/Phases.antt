-- ===== src/Resource/Condition/Phases.antt =====
-- What a reader of a status finds among its conditions.
use infrastructure.Prelude.{
  ℕ, ◌≡◌, ◌≢◌, refl, List, [], ◌∷◌, Option, none, some, String, arith, str_eq, eq_iff,
  if◌then◌else◌, ap, ◌∙◌,
}
use infrastructure.Resource.Condition.{
  ConditionStatus, condition_true, condition_false, Condition, Phase, phase_pending,
  phase_reconciling, phase_ready, phase_error, phase_deleting, phase_terminated, phase_other,
  StatusBase, upsert, set_condition, find_condition, get_condition, condition_ready,
  condition_progressing, new_condition, ready_condition, progressing_condition, error_condition,
  set_phase,
}

find_condition-upsert :
    (c : Condition) (cs : List Condition) (type : String)
    → find_condition type (upsert c cs)
      ≡ (if str_eq c.type type then some c else find_condition type cs)
unfolding find_condition upsert
find_condition-upsert c [] type = refl
find_condition-upsert c (d ∷ ds) type =
    let ih = find_condition-upsert c ds type in
    ground (arith, ih, eq_iff d.type c.type, eq_iff d.type type, eq_iff c.type type)

get_condition-set_condition :
    (c : Condition) (s : StatusBase) (type : String)
    → get_condition type (set_condition c s)
      ≡ (if str_eq c.type type then some c else get_condition type s)
unfolding get_condition set_condition
get_condition-set_condition c s type = find_condition-upsert c s.conditions type

-- The status of a condition.
abbrev pub status_of : String → StatusBase → Option ConditionStatus
status_of type s = elim (get_condition type s) [ none ↦ none | some c ↦ some c.status ]

-- What a phase says of readiness, given what the status said before.
abbrev pub ready_status : Phase → Option ConditionStatus → Option ConditionStatus
ready_status phase_ready before = some condition_true
ready_status phase_error before = some condition_false
ready_status phase_deleting before = some condition_false
ready_status phase_pending before = some condition_false
ready_status _ before = before

-- What a phase says of progress.
abbrev pub progressing_status : Phase → Option ConditionStatus → Option ConditionStatus
progressing_status phase_ready before = some condition_false
progressing_status phase_error before = some condition_false
progressing_status phase_reconciling before = some condition_true
progressing_status phase_deleting before = some condition_true
progressing_status _ before = before

-- What is found after one condition is set along with the phase, and after two are.
module _ (s : StatusBase) (phase : Phase) (type : String) where
  set_one :
      (c : Condition)
      → get_condition type (set_condition c (record s { phase = phase }))
        ≡ (if str_eq c.type type then some c else get_condition type s)
  unfolding get_condition set_condition
  set_one c = find_condition-upsert c s.conditions type

  set_two :
      (c d : Condition)
      → get_condition type (set_condition d (set_condition c (record s { phase = phase }))) ≡ (
          if str_eq d.type type
          then some d
          else if str_eq c.type type
          then some c
          else get_condition type s)
  set_two c d =
      get_condition-set_condition d (set_condition c (record s { phase = phase })) type
      ∙ ap (λ o. if str_eq d.type type then some d else o) (set_one c)

found_kept :
    (s : StatusBase) (phase : Phase) (type : String)
    → get_condition type (record s { phase = phase }) ≡ get_condition type s
unfolding get_condition
found_kept s phase type = refl

kept :
    (type : String) (s : StatusBase) (phase : Phase)
    → status_of type (record s { phase = phase }) ≡ status_of type s
unfolding get_condition
kept type s phase = refl

-- Setting a phase sets the Ready and Progressing conditions to what the phase says, keeps them where
-- it says nothing, and keeps every condition of another type.
pub set_phase_lem :
    (now : ℕ) (phase : Phase) (reason message : String) (s : StatusBase) (type : String)
    → type ≢ condition_ready
    → type ≢ condition_progressing
    → let s' = set_phase now phase reason message s in
      (status_of condition_ready s' ≡ ready_status phase (status_of condition_ready s))
      × (status_of condition_progressing s'
          ≡ progressing_status phase (status_of condition_progressing s))
      × (get_condition type s' ≡ get_condition type s)
unfolding set_phase new_condition ready_condition progressing_condition error_condition
set_phase_lem now phase_ready reason message s type r p = (
  ground (
    arith,
    set_two s phase_ready condition_ready (ready_condition now reason message)
        (new_condition now condition_progressing condition_false reason message),
  ),
  ground (
    arith,
    set_two s phase_ready condition_progressing (ready_condition now reason message)
        (new_condition now condition_progressing condition_false reason message),
  ),
  ground (
    arith,
    set_two s phase_ready type (ready_condition now reason message)
        (new_condition now condition_progressing condition_false reason message),
    eq_iff condition_ready type,
    eq_iff condition_progressing type,
  ),
)
set_phase_lem now phase_reconciling reason message s type r p = (
  ground (
    arith,
    set_one s phase_reconciling condition_ready (progressing_condition now reason message),
  ),
  ground (
    arith,
    set_one s phase_reconciling condition_progressing (progressing_condition now reason message),
  ),
  ground (
    arith,
    set_one s phase_reconciling type (progressing_condition now reason message),
    eq_iff condition_ready type,
    eq_iff condition_progressing type,
  ),
)
set_phase_lem now phase_pending reason message s type r p = (
  ground (
    arith,
    set_one s phase_pending condition_ready
        (new_condition now condition_ready condition_false "Pending" message),
  ),
  ground (
    arith,
    set_one s phase_pending condition_progressing
        (new_condition now condition_ready condition_false "Pending" message),
  ),
  ground (
    arith,
    set_one s phase_pending type
        (new_condition now condition_ready condition_false "Pending" message),
    eq_iff condition_ready type,
    eq_iff condition_progressing type,
  ),
)
set_phase_lem now phase_error reason message s type r p = (
  ground (
    arith,
    set_two s phase_error condition_ready (error_condition now message)
        (new_condition now condition_progressing condition_false reason message),
  ),
  ground (
    arith,
    set_two s phase_error condition_progressing (error_condition now message)
        (new_condition now condition_progressing condition_false reason message),
  ),
  ground (
    arith,
    set_two s phase_error type (error_condition now message)
        (new_condition now condition_progressing condition_false reason message),
    eq_iff condition_ready type,
    eq_iff condition_progressing type,
  ),
)
set_phase_lem now phase_deleting reason message s type r p = (
  ground (
    arith,
    set_two s phase_deleting condition_ready
        (new_condition now condition_ready condition_false "Deleting" message)
        (progressing_condition now "Deleting" message),
  ),
  ground (
    arith,
    set_two s phase_deleting condition_progressing
        (new_condition now condition_ready condition_false "Deleting" message)
        (progressing_condition now "Deleting" message),
  ),
  ground (
    arith,
    set_two s phase_deleting type
        (new_condition now condition_ready condition_false "Deleting" message)
        (progressing_condition now "Deleting" message),
    eq_iff condition_ready type,
    eq_iff condition_progressing type,
  ),
)
set_phase_lem now phase_terminated reason message s type r p = (
  kept condition_ready s phase_terminated,
  kept condition_progressing s phase_terminated,
  found_kept s phase_terminated type,
)
set_phase_lem now (phase_other q) reason message s type r p = (
  kept condition_ready s (phase_other q),
  kept condition_progressing s (phase_other q),
  found_kept s (phase_other q) type,
)
