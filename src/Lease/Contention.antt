-- ===== src/Lease/Contention.antt =====
-- Several holders contend for one lease: the reads and the swaps of lease.go as moves that interleave
-- in any order, on one clock, over a store of one key.
use infrastructure.Prelude.{
  ℕ, ◌+◌, Bool, true, false, ◌&&◌, List, [], ◌∷◌, String, str_eq, Option, none, some, ◌==◌,
  if◌then◌else◌, not_found, Result, ok, err,
}
use infrastructure.Lease.{
  Value, encoded, unreadable, Store, Lease, fresh, Plan, take_over, answer, plan, plan_renew,
  plan_release, no_lease,
}

abbrev pub same_value : Value → Value → Bool
same_value (encoded r) (encoded q) = str_eq r.holder q.holder && r.expiry == q.expiry
same_value (unreadable a) (unreadable b) = str_eq a b
same_value _ _ = false

-- The value under the key of the lease, absent or there.
abbrev pub same_cell : Option Value → Option Value → Bool
same_cell none none = true
same_cell (some a) (some b) = same_value a b
same_cell _ _ = false

abbrev pub read_cell : Option Value → Result Value
read_cell none = err not_found
read_cell (some v) = ok v

-- A store that holds the key of the lease and does what `Store` documents.
abbrev pub one_key : Store (Option Value)
one_key = record {
  get = λ key cell. (read_cell cell, cell);
  compare_and_swap =
      λ key old new cell. if same_cell cell old then (ok true, some new) else (ok false, cell);
}

-- What a holder is in the middle of: between its read and its swap. A holder that begins anew gives
-- up what it was doing.
pub data Job : Type 0 where
  idle : Job
  taking : Option Value → Job
  returning : Option Value → Job

pub record System : Type 0 where
  pub cell : Option Value
  pub time : ℕ
  pub job : String → Job
  -- Until when a holder may believe that it leads.
  pub until : String → ℕ

abbrev pub at_holder {ℓ} : {A : Type ℓ} → String → A → (String → A) → String → A
at_holder h a f h' = if str_eq h h' then a else f h'

pub data Move : Type 0 where
  tick : ℕ → Move
  begin_acquire begin_renew begin_release finish : String → Move

abbrev pub start_taking : Plan → Job
start_taking (take_over old) = taking old
start_taking (answer r) = idle

abbrev pub start_returning : Plan → Job
start_returning (take_over old) = returning old
start_returning (answer r) = idle

module _ (key : String) (ttl : ℕ) where
  abbrev pub lease_of : String → Lease
  lease_of h = record { key = key; holder = h; ttl = ttl }

  -- The swap of a job. A holder leads on until the expiry that it wrote, if the swap was applied.
  unfoldable pub finish_job : String → Job → System → System
  finish_job h idle σ = σ
  finish_job h (taking old) σ =
      let σ' = record σ { job = at_holder h idle σ.job } in
      if same_cell σ.cell old
      then record σ' {
        cell = some (fresh (lease_of h) σ.time);
        until = at_holder h (σ.time + ttl) σ.until;
      }
      else σ'
  finish_job h (returning old) σ =
      let σ' = record σ { job = at_holder h idle σ.job } in
      if same_cell σ.cell old then record σ' { cell = some no_lease } else σ'

  unfoldable pub step : Move → System → System
  unfolding finish_job
  step (tick d) σ = record σ { time = σ.time + d }
  step (begin_acquire h) σ = record σ {
    job = at_holder h (start_taking (plan (lease_of h) σ.time (read_cell σ.cell))) σ.job;
  }
  step (begin_renew h) σ = record σ {
    job = at_holder h (start_taking (plan_renew (lease_of h) σ.time (read_cell σ.cell))) σ.job;
  }
  step (begin_release h) σ = record σ {
    job = at_holder h (start_returning (plan_release (lease_of h) (read_cell σ.cell))) σ.job;
    until = at_holder h 0 σ.until;
  }
  step (finish h) σ = finish_job h (σ.job h) σ

  unfoldable pub run : List Move → System → System
  run [] σ = σ
  run (m ∷ ms) σ = run ms (step m σ)

-- A system before any move: nobody leads, whatever the store holds.
abbrev pub start : Option Value → ℕ → System
start cell time = record { cell = cell; time = time; job = λ h. idle; until = λ h. 0 }
