-- ===== src/Lease.antt =====
-- internal/controllers/lease.go: the leader-election lock of the controller manager, over the
-- `Get` and `CompareAndSwap` of internal/state/store.go. A stored value is the encoding of a lease
-- record or bytes that do not decode; times are nanoseconds, the zero time is 0, and a TTL that is
-- not positive is 0. The clock is read where the code reads it: once to judge, once to write.
pub mod Contention
pub mod Exclusion
pub mod Acquire
mod Examples
use infrastructure.Prelude.{
  ℕ, ◌+◌, Bool, true, false, ◌||◌, ◌&&◌, String, str_eq, Option, none, some, ◌==◌, leb,
  if◌then◌else◌, Error, not_found, failure, wrap, is_not_found, Result, ok, err, ◌≤◌, ◌≡◌,
}
use infrastructure.Prelude.Exec.{Exec}

pub record LeaseRecord : Type 0 where
  pub holder : String
  pub expiry : ℕ

pub data Value : Type 0 where
  encoded : LeaseRecord → Value
  unreadable : String → Value

-- json.Unmarshal
abbrev pub decode : Value → Result LeaseRecord
decode (encoded r) = ok r
decode (unreadable bytes) = err (failure bytes)

-- The operations of a `Store` that a lease uses; no old value means "expect absent".
pub record Store (S : Type 0) : Type 0 where
  pub get : String → Exec S Value
  pub compare_and_swap : String → Option Value → Value → Exec S Bool

pub record Lease : Type 0 where
  pub key : String
  pub holder : String
  pub ttl : ℕ

abbrev pub wrapped {ℓ} : {A : Type ℓ} → String → Result A → Result A
wrapped context (ok a) = ok a
wrapped context (err e) = err (wrap context e)

-- The record that `swap` writes.
unfoldable pub fresh : Lease → ℕ → Value
fresh l now = encoded (record { holder = l.holder; expiry = now + l.ttl })

unfoldable pub swap : {S : Type 0} → Store S → Lease → ℕ → Option Value → Exec S Bool
unfolding fresh
swap store l now old s =
    let (r, s') = store.compare_and_swap l.key old (fresh l now) s in
    (wrapped "controllers: swap lease" r, s')

-- What is done with the value that was read: swap it, or return.
pub data Plan : Type 0 where
  take_over : Option Value → Plan
  answer : Result Bool → Plan

unfoldable pub judge : Lease → ℕ → LeaseRecord → Bool
judge l now r = str_eq r.holder l.holder || leb r.expiry now

abbrev pub plan_record : Lease → ℕ → Value → Result LeaseRecord → Plan
plan_record l now cur (err e) = answer (err (wrap "controllers: decode lease" e))
plan_record l now cur (ok r) = if judge l now r then take_over (some cur) else answer (ok false)

unfoldable pub plan : Lease → ℕ → Result Value → Plan
plan l now (ok cur) = plan_record l now cur (decode cur)
plan l now (err e) =
    if is_not_found e then take_over none else answer (err (wrap "controllers: read lease" e))

abbrev pub carry_out : {S : Type 0} → Store S → Lease → ℕ → Plan → Exec S Bool
carry_out store l now (take_over old) s = swap store l now old s
carry_out store l now (answer r) s = (r, s)

-- `Acquire`, with the two readings of the clock.
unfoldable pub acquire : {S : Type 0} → Store S → Lease → ℕ → ℕ → Exec S Bool
unfolding plan swap
acquire store l now later s =
    if l.ttl == 0
    then (err (failure "controllers: lease TTL must be positive"), s)
    else (let (r, s') = store.get l.key s in carry_out store l later (plan l now r) s')

abbrev pub plan_renewal : Lease → ℕ → Value → Result LeaseRecord → Plan
plan_renewal l now cur (err e) = answer (err e)
plan_renewal l now cur (ok r) =
    if str_eq r.holder l.holder && (if leb r.expiry now then false else true)
    then take_over (some cur)
    else answer (ok false)

unfoldable pub plan_renew : Lease → ℕ → Result Value → Plan
plan_renew l now (ok cur) = plan_renewal l now cur (decode cur)
plan_renew l now (err e) = answer (err e)

unfoldable pub renew : {S : Type 0} → Store S → Lease → ℕ → ℕ → Exec S Bool
unfolding plan_renew swap
renew store l now later s =
    let (r, s') = store.get l.key s in carry_out store l later (plan_renew l now r) s'

-- leaseRecord{}
abbrev pub no_lease : Value
no_lease = encoded (record { holder = ""; expiry = 0 })

abbrev pub plan_return : Lease → Value → Result LeaseRecord → Plan
plan_return l cur (err e) = answer (err (wrap "controllers: decode lease" e))
plan_return l cur (ok r) =
    if str_eq r.holder l.holder then take_over (some cur) else answer (ok false)

-- What `Release` does with the value that was read; `ok` answers are its nil error.
unfoldable pub plan_release : Lease → Result Value → Plan
plan_release l (ok cur) = plan_return l cur (decode cur)
plan_release l (err e) =
    if is_not_found e then answer (ok false) else answer (err (wrap "controllers: read lease" e))

abbrev pub give_back : {S : Type 0} → Store S → Lease → Plan → Exec S Bool
give_back store l (take_over old) s =
    let (r, s') = store.compare_and_swap l.key old no_lease s in
    (wrapped "controllers: release lease" r, s')
give_back store l (answer r) s = (r, s)

unfoldable pub release : {S : Type 0} → Store S → Lease → Exec S Bool
unfolding plan_release
release store l s = let (r, s') = store.get l.key s in give_back store l (plan_release l r) s'
