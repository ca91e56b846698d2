-- ===== src/FunctionPool.antt =====
-- internal/functionpool/pool.go: the retirement of a compute that a function owns.
pub mod Retire
mod Examples
use infrastructure.Prelude.{
  ℕ, zero, suc, Bool, true, false, Option, none, some, String, if◌then◌else◌, Result, ok, err,
  conflict, is_not_found,
}
use infrastructure.Prelude.Exec.{Exec}
use infrastructure.Resource.Meta.{ObjectMeta, add_finalizer}
use infrastructure.Registry.{Resource, Registry, key, update_read}

abbrev pub compute_finalizer : String
compute_finalizer = "infra.io/compute"

-- What a compute holds beside its envelope: the metadata that is read here, and the rest.
pub record Compute (B : Type 0) : Type 0 where
  pub meta : ObjectMeta
  pub rest : B

abbrev pub retired : {B : Type 0} → ℕ → Resource (Compute B) → Resource (Compute B)
retired now res = record res {
  body = record (res.body) {
    meta =
        add_finalizer compute_finalizer (record (res.body.meta) { deletion_timestamp = some now });
  };
}

module _ {S B : Type 0} (r : Registry S (Compute B)) (uid : String) (now : ℕ)
    (others : ℕ → S → S) where
  -- `TryUpdate` of the attempt that leaves `n` more; `others n` is what other writers do between its
  -- read and its swap.
  unfoldable pub attempt_update : ℕ → Exec S Bool
  attempt_update n s =
      let (old, s') = r.store.get (key r uid) s in
      update_read r uid (λ res. ok (retired now res)) old (others n s')

  -- How the loop goes on after an attempt.
  abbrev pub go_on : Result Bool × S → Exec S (Unit {0}) → Result (Unit {0}) × S
  go_on (err e, s) again = if is_not_found e then (ok tt, s) else (err e, s)
  go_on (ok true, s) again = (ok tt, s)
  go_on (ok false, s) again = again s

  unfoldable pub retry_retire : ℕ → Exec S (Unit {0})
  unfolding attempt_update
  retry_retire zero s = (err conflict, s)
  retry_retire (suc n) s = go_on (attempt_update n s) (retry_retire n)

  unfoldable pub retire_compute : Exec S (Unit {0})
  unfolding retry_retire
  retire_compute s = retry_retire 16 s
