-- ===== src/Device.antt =====
-- internal/idp/device.go: the device authorizations of the identity provider, as they are shared
-- between its instances: `byDevice` is what the backend holds, and `byUser` is built from it at each
-- transaction. A time is a number of nanoseconds, the zero time is 0, and a transaction reads the
-- clock once. The random codes are arguments.
pub mod Capacity
pub mod SingleUse
pub mod Transaction
mod Examples
use infrastructure.Prelude.{
  ℕ, zero, suc, ◌+◌, ◌-◌, Bool, true, false, not, ◌&&◌, List, [], ◌∷◌, Option, none, some, String,
  str_eq, ◌==◌, ltb, leb, if◌then◌else◌, length, Result, ok, err, failure, Error,
}
use infrastructure.Prelude.Dict.{value_at, assign, discard}
use infrastructure.Prelude.Exec.{Exec}

pub data DeviceStatus : Type 0 where
  pending approved denied : DeviceStatus

pub record DeviceAuth : Type 0 where
  pub device_code : String
  pub user_code : String
  pub status : DeviceStatus
  pub subject : String
  pub roles : List String
  pub expires_at : ℕ
  pub last_poll : ℕ
  pub poll_interval : ℕ

-- `byDevice`
abbrev pub Devices : Type 0
Devices = List (String × DeviceAuth)

abbrev pub max_device_authorizations : ℕ
max_device_authorizations = 1024

abbrev pub second : ℕ
second = 1000000000

-- `removeLocked`
unfoldable pub remove_locked : DeviceAuth → Devices → Devices
remove_locked da ds = discard da.device_code ds

-- The loop over `es` that removes what has expired.
unfoldable pub sweep : ℕ → Devices → Devices → Devices
unfolding remove_locked
sweep now [] ds = ds
sweep now (e ∷ es) ds =
    let left = (if leb (e.1).expires_at now then remove_locked (e.1) ds else ds) in
    sweep now es left

-- d.byUser[code]
unfoldable pub by_user : String → Devices → Option DeviceAuth
by_user code [] = none
by_user code (e ∷ es) = if str_eq (e.1).user_code code then some (e.1) else by_user code es

-- What a transaction does to the authorizations that have not expired, with its result.
abbrev pub Change : Type 0 → Type 0
Change A = Devices → Result (A × Devices)

abbrev pub new_auth : ℕ → ℕ → String → String → DeviceAuth
new_auth now ttl device_code user_code = record {
  device_code = device_code;
  user_code = user_code;
  status = pending;
  subject = "";
  roles = [];
  expires_at = now + ttl;
  last_poll = 0;
  poll_interval = 0;
}

unfoldable pub create : ℕ → ℕ → String → String → Change DeviceAuth
create now ttl device_code user_code ds =
    if leb max_device_authorizations (length ds)
    then err (failure "too many pending device authorizations")
    else elim (by_user user_code ds) [
      | some taken ↦ err (failure "device user code collision; retry authorization")
      | none ↦ ok (
        new_auth now ttl device_code user_code,
        assign device_code (new_auth now ttl device_code user_code) ds,
      )
    ]

-- A change that is run again after a lost swap sees what the variables of its closure hold by then.
abbrev pub Closure : Type 0 → Type 0
Closure A = A → Change A

-- A closure that sets its variables anew, or leaves them as they are in every run.
abbrev pub anew : {A : Type 0} → Change A → Closure A
anew change before = change

abbrev pub found_or : Option DeviceAuth → Option DeviceAuth → Option DeviceAuth
found_or before none = before
found_or before (some da) = some da

-- `out` and `ok` are not reset, so that an authorization which an earlier run has found stays found.
unfoldable pub by_device_code : String → Closure (Option DeviceAuth)
by_device_code code before ds = ok (found_or before (value_at code ds), ds)

abbrev pub is_pending : DeviceStatus → Bool
is_pending pending = true
is_pending approved = false
is_pending denied = false

-- An authorization that is pending is changed where it is stored.
unfoldable pub settle_pending : (DeviceAuth → DeviceAuth) → Option DeviceAuth → Change Bool
settle_pending change none ds = ok (false, ds)
settle_pending change (some da) ds =
    if is_pending da.status then ok (true, assign da.device_code (change da) ds) else ok (false, ds)

unfoldable pub approve : String → String → List String → Change Bool
unfolding settle_pending
approve code subject roles ds =
    settle_pending (λ da. record da { status = approved; subject = subject; roles = roles })
      (by_user code ds) ds

unfoldable pub deny : String → Change Bool
unfolding settle_pending
deny code ds = settle_pending (λ da. record da { status = denied }) (by_user code ds) ds

abbrev pub delete_found : Option DeviceAuth → Change Unit
delete_found none ds = ok (tt, ds)
delete_found (some da) ds = ok (tt, remove_locked da ds)

unfoldable pub delete : String → Change Unit
unfolding remove_locked
delete code ds = delete_found (value_at code ds) ds

-- What `poll` returns: a failure, or the authorization.
pub data Polled : Type 0 where
  expired_token slow_down : Polled
  found : DeviceAuth → Polled

-- The interval of a first poll.
abbrev pub interval_of : DeviceAuth → ℕ
interval_of da =
    if da.poll_interval == 0 then second + second + second + second + second else da.poll_interval

abbrev pub poll_pending : ℕ → String → DeviceAuth → Devices → Result (Polled × Devices)
poll_pending now code da ds =
    if not (da.last_poll == 0) && ltb (now - da.last_poll) (interval_of da)
    then ok (
      slow_down,
      assign code
          (record da {
            poll_interval = interval_of da + (second + second + second + second + second);
            last_poll = now;
          })
          ds,
    )
    else (let polled = record da { poll_interval = interval_of da; last_poll = now } in
        ok (found polled, assign code polled ds))

abbrev pub poll_found : ℕ → String → Option DeviceAuth → Devices → Result (Polled × Devices)
poll_found now code none ds = ok (expired_token, ds)
poll_found now code (some da) ds =
    if is_pending da.status then poll_pending now code da ds else ok (found da, remove_locked da ds)

unfoldable pub poll : ℕ → String → Change Polled
unfolding remove_locked
poll now code ds = poll_found now code (value_at code ds) ds

-- The body of `transact` between the read and the swap.
unfoldable pub attempt : {A : Type 0} → ℕ → Change A → Change A
unfolding sweep
attempt now change ds = change (sweep now ds ds)

-- The operations of the backend that a transaction uses; what it holds is decoded.
pub record Backend (S : Type 0) : Type 0 where
  pub get : Exec S (Option Devices)
  pub compare_and_swap : Option Devices → Devices → Exec S Bool

abbrev pub stored : Option Devices → Devices
stored none = []
stored (some ds) = ds

-- After the swap: done, or another attempt with what the closure holds by then.
abbrev pub swapped : {S A : Type 0} → A → (A → Exec S A) → Result Bool → Exec S A
swapped a again (err e) s = (err e, s)
swapped a again (ok true) s = (ok a, s)
swapped a again (ok false) s = again a s

-- After the change: the error that it gave, or the swap of what was read.
abbrev pub changed :
    {S A : Type 0} → Backend S → (A → Exec S A) → Option Devices → Result (A × Devices) → Exec S A
changed backend again old (err e) s = (err e, s)
changed backend again old (ok (a, ds)) s =
    let (r, s') = backend.compare_and_swap old ds s in swapped a again r s'

-- After the read.
abbrev pub with_read :
    {S A : Type 0} → Backend S → ℕ → Change A → (A → Exec S A) → Result (Option Devices) → Exec S A
with_read backend now change again (err e) s = (err e, s)
with_read backend now change again (ok old) s =
    changed backend again old (attempt now change (stored old)) s

-- The loop of `transact`: `attempts` are left, and `held` is what the closure holds.
unfoldable pub retry : {S A : Type 0} → Backend S → ℕ → Closure A → ℕ → A → Exec S A
unfolding attempt
retry backend now closure zero held s =
    (err (failure "device authorizations: concurrent update limit exceeded"), s)
retry backend now closure (suc attempts) held s =
    let again = retry backend now closure attempts in
    let (r, s') = backend.get s in with_read backend now (closure held) again r s'

unfoldable pub transact : {S A : Type 0} → Backend S → ℕ → Closure A → A → Exec S A
unfolding retry
transact backend now closure start = retry backend now closure 16 start
