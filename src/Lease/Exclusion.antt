-- ===== src/Lease/Exclusion.antt =====
-- No two holders lead at once.
use infrastructure.Prelude.{
  ℕ, ◌+◌, ◌≤◌, ◌<◌, ◌≡◌, refl, sym, ap, subst, ◌∙◌, ◌⊎◌, inl, inr, true, List, [], ◌∷◌, String,
  str_eq, eq_iff, Option, none, some, arith, Bool-cases,
}
use infrastructure.Lease.{
  LeaseRecord, Value, encoded, unreadable, fresh, judge, plan, plan_renew, plan_release,
}
use infrastructure.Lease.Contention.{
  same_cell, read_cell, Job, idle, taking, returning, System, at_holder, Move, tick, begin_acquire,
  begin_renew, begin_release, finish, start_taking, start_returning, lease_of, finish_job, step,
  run, start,
}

module _ (key : String) (ttl : ℕ) where
  -- A value that `h` may replace at `time`.
  abbrev pub IsOpen : String → ℕ → Option Value → Type 0
  IsOpen h time none = Unit
  IsOpen h time (some (encoded r)) = (r.holder ≡ h) ⊎ (r.expiry ≤ time)
  IsOpen h time (some (unreadable b)) = ⊥

  abbrev pub IsSound : String → ℕ → ℕ → Job → Type 0
  IsSound h time u idle = Unit
  IsSound h time u (taking old) = IsOpen h time old
  IsSound h time u (returning none) = ⊥
  IsSound h time u (returning (some v)) =
      (r : LeaseRecord) × (v ≡ encoded r) × (r.holder ≡ h) × (u ≡ 0)

  -- Who leads is in the store, and every job replaces only what it may.
  pub record IsSafe (σ : System) : Type 0 where
    pub leads :
        (h : String)
        → σ.time < σ.until h
        → σ.cell ≡ some (encoded (record { holder = h; expiry = σ.until h }))
    pub sound : (h : String) → IsSound h σ.time (σ.until h) (σ.job h)

  IsSound-later :
      (h : String) (time u d : ℕ) (j : Job) → IsSound h time u j → IsSound h (time + d) u j
  IsSound-later h time u d idle s = s
  IsSound-later h time u d (taking none) s = s
  IsSound-later h time u d (taking (some (encoded r))) s = elim s [
    | inl own ↦ inl own
    | inr e ↦ inr (omega (arith, e))
  ]
  IsSound-later h time u d (taking (some (unreadable b))) s = s
  IsSound-later h time u d (returning none) s = s
  IsSound-later h time u d (returning (some v)) s = s

  plan-IsSound :
      (h : String) (time u : ℕ) (cell : Option Value)
      → IsSound h time u (start_taking (plan (lease_of key ttl h) time (read_cell cell)))
  unfolding plan judge
  plan-IsSound h time u none = tt
  plan-IsSound h time u (some (encoded r)) = ground (arith, eq_iff r.holder h)
  plan-IsSound h time u (some (unreadable b)) = tt

  plan_renew-IsSound :
      (h : String) (time u : ℕ) (cell : Option Value)
      → IsSound h time u (start_taking (plan_renew (lease_of key ttl h) time (read_cell cell)))
  unfolding plan_renew
  plan_renew-IsSound h time u none = tt
  plan_renew-IsSound h time u (some (encoded r)) = ground (arith, eq_iff r.holder h)
  plan_renew-IsSound h time u (some (unreadable b)) = tt

  plan_release-IsSound :
      (h : String) (time : ℕ) (cell : Option Value)
      → IsSound h time 0 (start_returning (plan_release (lease_of key ttl h) (read_cell cell)))
  unfolding plan_release
  plan_release-IsSound h time none = tt
  plan_release-IsSound h time (some (unreadable b)) = tt
  plan_release-IsSound h time (some (encoded r)) = elim (Bool-cases (str_eq r.holder h)) [
    | inl e ↦ rw e (r, refl, ground (arith, e, eq_iff r.holder h), refl)
    | inr e ↦ rw e tt
  ]

  -- A job of one holder leaves those of the others.
  at_holder-IsSound :
      (h h' : String) (j : Job) (u : ℕ) (σ : System)
      → IsSafe σ
      → IsSound h σ.time u j
      → IsSound h' σ.time (at_holder h u σ.until h') (at_holder h j σ.job h')
  at_holder-IsSound h h' j u σ safe s = elim (Bool-cases (str_eq h h')) [
    | inl e ↦ rw e (subst (λ x. IsSound x σ.time u j) (ground (arith, e, eq_iff h h')) s)
    | inr e ↦ rw e (safe.sound h')
  ]

  -- The same, where the belief of `h` stays.
  at_holder-IsSound_same :
      (h h' : String) (j : Job) (σ : System)
      → IsSafe σ
      → IsSound h σ.time (σ.until h) j
      → IsSound h' σ.time (σ.until h') (at_holder h j σ.job h')
  at_holder-IsSound_same h h' j σ safe s = elim (Bool-cases (str_eq h h')) [
    | inl e ↦ rw e (subst (λ x. IsSound x σ.time (σ.until x) j) (ground (arith, e, eq_iff h h')) s)
    | inr e ↦ rw e (safe.sound h')
  ]

  same_cell_eq : (a b : Option Value) → same_cell a b ≡ true → a ≡ b
  same_cell_eq none none e = refl
  same_cell_eq (some (encoded r)) (some (encoded q)) e = ground (arith, e, eq_iff r.holder q.holder)
  same_cell_eq (some (unreadable a)) (some (unreadable b)) e = ground (arith, e, eq_iff a b)
  same_cell_eq none (some v) e = ground arith
  same_cell_eq (some v) none e = ground arith
  same_cell_eq (some (encoded r)) (some (unreadable b)) e = ground arith
  same_cell_eq (some (unreadable a)) (some (encoded q)) e = ground arith

  -- A move that only changes the job of `h` is safe.
  set_job-IsSafe :
      (h : String) (j : Job) (σ : System)
      → IsSafe σ
      → IsSound h σ.time (σ.until h) j
      → IsSafe (record σ { job = at_holder h j σ.job })
  set_job-IsSafe h j σ safe s = record {
    leads = safe.leads;
    sound = λ h'. at_holder-IsSound_same h h' j σ safe s;
  }

  -- Whoever still leads when `h` swaps the value that it read is `h` itself.
  taking-leads :
      (h h' : String) (old : Option Value) (σ : System)
      → IsSafe σ
      → σ.cell ≡ old
      → IsOpen h σ.time old
      → σ.time < σ.until h'
      → h ≡ h'
  taking-leads h h' old σ safe e open' l =
      let o = subst (IsOpen h σ.time) (sym e ∙ safe.leads h' l) open' in
      elim o [ inl own ↦ sym own | inr late ↦ absurd (omega (arith, late, l)) ]

  taking-IsSafe :
      (h : String) (old : Option Value) (σ : System)
      → IsSafe σ
      → IsOpen h σ.time old
      → IsSafe (finish_job key ttl h (taking old) σ)
  unfolding finish_job fresh
  taking-IsSafe h old σ safe o = elim (Bool-cases (same_cell σ.cell old)) [
    | inr n ↦ rw n (set_job-IsSafe h idle σ safe tt)
    | inl e ↦ rw e (record {
      leads = λ h' l. elim (Bool-cases (str_eq h h')) [
        | inl same ↦ ground (arith, same, eq_iff h h')
        | inr other ↦
            let lead : σ.time < σ.until h' = rw (other, at_holder) at l in
            let own = taking-leads h h' old σ safe (same_cell_eq σ.cell old e) o lead in
            absurd (ground (arith, own, other, eq_iff h h'))
      ];
      sound = λ h'. at_holder-IsSound h h' idle (σ.time + ttl) σ safe tt;
    })
  ]

  idle-IsSafe : (h : String) (σ : System) → IsSafe σ → IsSafe (finish_job key ttl h idle σ)
  unfolding finish_job
  idle-IsSafe h σ safe = safe

  -- The holder of a stored record.
  abbrev holder_of : Option Value → String
  holder_of none = ""
  holder_of (some (encoded r)) = r.holder
  holder_of (some (unreadable b)) = ""

  returning-IsSafe :
      (h : String) (r : LeaseRecord) (σ : System)
      → IsSafe σ
      → r.holder ≡ h
      → σ.until h ≡ 0
      → IsSafe (finish_job key ttl h (returning (some (encoded r))) σ)
  unfolding finish_job
  returning-IsSafe h r σ safe own no_belief =
      elim (Bool-cases (same_cell σ.cell (some (encoded r)))) [
        | inr n ↦ rw n (set_job-IsSafe h idle σ safe tt)
        | inl e ↦ rw e (record {
          leads = λ h' l.
              let at_cell = same_cell_eq σ.cell (some (encoded r)) e in
              let here = ap holder_of (sym at_cell ∙ safe.leads h' l) in
              absurd (omega (arith, l, ap σ.until (sym own ∙ here), no_belief));
          sound = λ h'. at_holder-IsSound_same h h' idle σ safe tt;
        })
      ]

  finish_job-IsSafe :
      (h : String) (j : Job) (σ : System)
      → IsSafe σ
      → IsSound h σ.time (σ.until h) j
      → IsSafe (finish_job key ttl h j σ)
  finish_job-IsSafe h idle σ safe s = idle-IsSafe h σ safe
  finish_job-IsSafe h (taking old) σ safe s = taking-IsSafe h old σ safe s
  finish_job-IsSafe h (returning none) σ safe s = elim s [ ]
  finish_job-IsSafe h (returning (some v)) σ safe (r, same, own, no_belief) =
      subst (λ w. IsSafe (finish_job key ttl h (returning (some w)) σ)) (sym same)
        (returning-IsSafe h r σ safe own no_belief)

  step-IsSafe : (m : Move) (σ : System) → IsSafe σ → IsSafe (step key ttl m σ)
  unfolding step
  step-IsSafe (tick d) σ safe = record {
    leads = λ h l. safe.leads h (omega (arith, l));
    sound = λ h. IsSound-later h σ.time (σ.until h) d (σ.job h) (safe.sound h);
  }
  step-IsSafe (begin_acquire h) σ safe =
      set_job-IsSafe h _ σ safe (plan-IsSound h σ.time (σ.until h) σ.cell)
  step-IsSafe (begin_renew h) σ safe =
      set_job-IsSafe h _ σ safe (plan_renew-IsSound h σ.time (σ.until h) σ.cell)
  step-IsSafe (begin_release h) σ safe = record {
    leads = λ h' l. elim (Bool-cases (str_eq h h')) [
      | inl e ↦ absurd (ground (arith, l, e))
      | inr e ↦ rw e (safe.leads h' (rw (e, at_holder) at l))
    ];
    sound = λ h'. at_holder-IsSound h h' _ 0 σ safe (plan_release-IsSound h σ.time σ.cell);
  }
  step-IsSafe (finish h) σ safe = finish_job-IsSafe h (σ.job h) σ safe (safe.sound h)

  run-IsSafe : (ms : List Move) (σ : System) → IsSafe σ → IsSafe (run key ttl ms σ)
  unfolding run
  run-IsSafe [] σ safe = safe
  run-IsSafe (m ∷ ms) σ safe = run-IsSafe ms (step key ttl m σ) (step-IsSafe m σ safe)

-- The holder is within the time of its last successful swap, and has not released since.
abbrev pub Leads : String → System → Type 0
Leads h σ = σ.time < σ.until h

-- However the reads and the swaps of acquiring, renewing and releasing interleave, and whatever the
-- store held at first, two holders that are both within the time of their last successful swap are
-- the same holder.
pub one_leader :
    (key : String) (ttl : ℕ) (cell : Option Value) (time : ℕ) (ms : List Move) (h h' : String)
    → Leads h (run key ttl ms (start cell time))
    → Leads h' (run key ttl ms (start cell time))
    → h ≡ h'
one_leader key ttl cell time ms h h' l l' =
    let safe =
      run-IsSafe key ttl ms (start cell time)
        (record { leads = λ g b. absurd (omega (arith, b)); sound = λ g. tt }) in
    ap (holder_of key ttl) (sym (safe.leads h l) ∙ safe.leads h' l')
