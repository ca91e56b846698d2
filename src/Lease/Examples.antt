-- ===== src/Lease/Examples.antt =====
-- A holder that takes a free lease while another holder waits.
use infrastructure.Prelude.{
  ◌+◌, ◌≡◌, ◌≢◌, ◌↔◌, ◌⊎◌, true, List, [], ◌∷◌, String, none, some, ok, arith,
}
use infrastructure.Lease.{Lease, encoded, acquire, fresh, plan}
use infrastructure.Lease.Contention.{
  Move, begin_acquire, finish, tick, run, start, one_key, finish_job, step,
}
use infrastructure.Lease.Exclusion.{Leads, one_leader}
use infrastructure.Lease.Acquire.{IsFree, acquire_lem}

abbrev moves : List Move
moves = begin_acquire "a" ∷ begin_acquire "b" ∷ finish "a" ∷ tick 5 ∷ finish "b" ∷ []

a-Leads : Leads "a" (run "leader" 15 moves (start none 100))
unfolding run step finish_job fresh plan
a-Leads = omega arith

abbrev a : String
a = "a"

one_leader_example : a ≡ a
one_leader_example = one_leader "leader" 15 none 100 moves a a a-Leads a-Leads

abbrev lease : Lease
lease = record { key = "leader"; holder = "a"; ttl = 15 }

acquire_example :
    (((acquire one_key lease 100 101 none).0 ≡ ok true) ↔ IsFree lease 100 none)
    × ((((acquire one_key lease 100 101 none).0 ≡ ok true)
          × ((acquire one_key lease 100 101 none).1
              ≡ some (encoded (record { holder = "a"; expiry = 101 + 15 }))))
        ⊎ (((acquire one_key lease 100 101 none).0 ≢ ok true)
            × ((acquire one_key lease 100 101 none).1 ≡ none)))
acquire_example = acquire_lem lease 100 101 none (omega arith)
