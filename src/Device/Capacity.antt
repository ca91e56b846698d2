-- ===== src/Device/Capacity.antt =====
-- How many authorizations there can be, through any sequence of requests.
use infrastructure.Prelude.{
  ℕ, zero, suc, ◌-◌, ◌≤◌, ◌≡◌, refl, not, ◌&&◌, List, [], ◌∷◌, none, some, String, str_eq, eq_iff,
  ◌==◌, ltb, leb, length, Result, ok, err, arith, All, Bool-cases, Option-cases, inl, inr, subst,
}
use infrastructure.Prelude.Dict.{value_at, assign, discard}
use infrastructure.Device.{
  DeviceAuth, Devices, max_device_authorizations, remove_locked, sweep, by_user, create,
  by_device_code, is_pending, settle_pending, approve, deny, delete, interval_of, poll, attempt,
  new_auth,
}

-- Every authorization is under its own device code.
abbrev pub AreKeyed : Devices → Type 0
AreKeyed ds = All (λ e. (e.1).device_code ≡ e.0) ds

-- There are at most `n`, each under its own code.
pub record IsWithin (n : ℕ) (ds : Devices) : Type 0 where
  pub number : length ds ≤ n
  pub keyed : AreKeyed ds

discard-IsWithin :
    (key : String) (n : ℕ) (ds : Devices) → IsWithin n ds → IsWithin n (discard key ds)
unfolding discard
discard-IsWithin key n [] w = w
discard-IsWithin key zero (e ∷ ds) w = absurd (omega (arith, w.number))
discard-IsWithin key (suc n) (e ∷ ds) w =
    let rest =
      discard-IsWithin key n ds
        (record { number = omega (arith, w.number); keyed = (w.keyed).1 }) in
    elim (Bool-cases (str_eq (e.0) key)) [
      | inl s ↦ rw s (record { number = omega (arith, rest.number); keyed = rest.keyed })
      | inr s ↦
          rw s (record { number = omega (arith, rest.number); keyed = ((w.keyed).0, rest.keyed) })
    ]

pub sweep-IsWithin :
    (now : ℕ) (es ds : Devices) {n : ℕ} → IsWithin n ds → IsWithin n (sweep now es ds)
unfolding sweep remove_locked
sweep-IsWithin now [] ds w = w
sweep-IsWithin now (e ∷ es) ds {n} w = elim (Bool-cases (leb (e.1).expires_at now)) [
  | inl x ↦ rw x (sweep-IsWithin now es _ (discard-IsWithin (e.1).device_code n ds w))
  | inr x ↦ rw x (sweep-IsWithin now es ds w)
]

-- A new entry makes one more.
assign-IsWithin :
    (da : DeviceAuth) (n : ℕ) (ds : Devices)
    → IsWithin n ds
    → IsWithin (suc n) (assign da.device_code da ds)
unfolding assign
assign-IsWithin da n [] w = record { number = omega arith; keyed = (refl, tt) }
assign-IsWithin da zero (e ∷ ds) w = absurd (omega (arith, w.number))
assign-IsWithin da (suc n) (e ∷ ds) w =
    let rest =
      assign-IsWithin da n ds (record { number = omega (arith, w.number); keyed = (w.keyed).1 }) in
    elim (Bool-cases (str_eq (e.0) da.device_code)) [
      | inl s ↦ rw s (record { number = omega (arith, w.number); keyed = (refl, (w.keyed).1) })
      | inr s ↦
          rw s (record { number = omega (arith, rest.number); keyed = ((w.keyed).0, rest.keyed) })
    ]

-- An entry in place of another of its code does not.
update-IsWithin :
    (da old : DeviceAuth) (n : ℕ) (ds : Devices)
    → value_at da.device_code ds ≡ some old
    → IsWithin n ds
    → IsWithin n (assign da.device_code da ds)
unfolding assign value_at
update-IsWithin da old n [] e w = absurd (ground (arith, e))
update-IsWithin da old zero (d ∷ ds) e w = absurd (omega (arith, w.number))
update-IsWithin da old (suc n) (d ∷ ds) e w = elim (Bool-cases (str_eq (d.0) da.device_code)) [
  | inl s ↦ rw s (record { number = w.number; keyed = (refl, (w.keyed).1) })
  | inr s ↦
      let there : value_at da.device_code ds ≡ some old = rw (s, value_at) at e in
      let rest =
        update-IsWithin da old n ds there
          (record { number = omega (arith, w.number); keyed = (w.keyed).1 }) in
      rw s (record { number = omega (arith, rest.number); keyed = ((w.keyed).0, rest.keyed) })
]

pub by_user-value_at :
    (code : String) (ds : Devices) (da : DeviceAuth)
    → AreKeyed ds
    → by_user code ds ≡ some da
    → (old : DeviceAuth) × (value_at da.device_code ds ≡ some old)
unfolding by_user value_at
by_user-value_at code [] da k e = absurd (ground (arith, e))
by_user-value_at code (d ∷ ds) da k e = elim (Bool-cases (str_eq (d.0) da.device_code)) [
  | inl s ↦ (d.1, rw s refl)
  | inr s ↦ elim (Bool-cases (str_eq (d.1).user_code code)) [
    | inl u ↦ absurd (ground (arith, e, u, s, k.0, eq_iff (d.0) da.device_code))
    | inr u ↦
        let (old, there) = by_user-value_at code ds da (k.1) (rw (u, by_user) at e) in
        (old, rw s there)
  ]
]

pub value_at-device_code :
    (code : String) (ds : Devices) (da : DeviceAuth)
    → AreKeyed ds
    → value_at code ds ≡ some da
    → da.device_code ≡ code
unfolding value_at
value_at-device_code code [] da k e = absurd (ground (arith, e))
value_at-device_code code (d ∷ ds) da k e = elim (Bool-cases (str_eq (d.0) code)) [
  | inl s ↦ ground (arith, rw (s, value_at) at e, s, k.0, eq_iff (d.0) code)
  | inr s ↦ value_at-device_code code ds da (k.1) (rw (s, value_at) at e)
]

-- What the requests of clients and users ask of the store.
pub data Request : Type 0 where
  start : ℕ → String → String → Request
  look_up : String → Request
  accept : String → String → List String → Request
  refuse : String → Request
  drop_code : String → Request
  ask : String → Request

-- The authorizations after a change: an error leaves them, expired ones included.
abbrev pub after : {A : Type 0} → Result (A × Devices) → Devices → Devices
after (ok (a, ds)) before = ds
after (err e) before = before

unfoldable pub serve : ℕ → Request → Devices → Devices
unfolding attempt
serve now (start ttl device_code user_code) ds =
    after (attempt now (create now ttl device_code user_code) ds) ds
serve now (look_up code) ds = after (attempt now (by_device_code code none) ds) ds
serve now (accept code subject roles) ds = after (attempt now (approve code subject roles) ds) ds
serve now (refuse code) ds = after (attempt now (deny code) ds) ds
serve now (drop_code code) ds = after (attempt now (delete code) ds) ds
serve now (ask code) ds = after (attempt now (poll now code) ds) ds

unfoldable pub serve_all : List (ℕ × Request) → Devices → Devices
serve_all [] ds = ds
serve_all ((now, r) ∷ rs) ds = serve_all rs (serve now r ds)

abbrev pub max : ℕ
max = max_device_authorizations

replace-IsWithin :
    (key : String) (da old : DeviceAuth) (ds : Devices)
    → da.device_code ≡ key
    → value_at key ds ≡ some old
    → IsWithin max ds
    → IsWithin max (assign key da ds)
replace-IsWithin key da old ds same there w =
    subst (λ k. value_at k ds ≡ some old → IsWithin max (assign k da ds)) same
      (λ e. update-IsWithin da old max ds e w) there

delete-IsWithin :
    (code : String) (ds before : Devices)
    → IsWithin max ds
    → IsWithin max (after (delete code ds) before)
unfolding delete remove_locked
delete-IsWithin code ds before w = elim (Option-cases (value_at code ds)) [
  | inl e ↦ rw e w
  | inr (da, e) ↦ rw e (discard-IsWithin da.device_code max ds w)
]

create-IsWithin :
    (now ttl : ℕ) (device_code user_code : String) (ds before : Devices)
    → IsWithin max ds
    → IsWithin max before
    → IsWithin max (after (create now ttl device_code user_code ds) before)
unfolding create
create-IsWithin now ttl device_code user_code ds before w b =
    elim (Bool-cases (leb max_device_authorizations (length ds))) [
      | inl full ↦ rw full b
      | inr room ↦ elim (Option-cases (by_user user_code ds)) [
        | inr (taken, e) ↦ rw (room, e) b
        | inl e ↦
            rw (room, e)
              (assign-IsWithin (new_auth now ttl device_code user_code) 1023 ds
                (record { number = ground (arith, room); keyed = w.keyed }))
      ]
    ]

settle_pending-IsWithin :
    (change : DeviceAuth → DeviceAuth) (code : String) (ds before : Devices)
    → ((da : DeviceAuth) → (change da).device_code ≡ da.device_code)
    → IsWithin max ds
    → IsWithin max (after (settle_pending change (by_user code ds) ds) before)
unfolding settle_pending
settle_pending-IsWithin change code ds before same w = elim (Option-cases (by_user code ds)) [
  | inl e ↦ rw e w
  | inr (da, e) ↦ elim (Bool-cases (is_pending da.status)) [
    | inr p ↦ rw (e, p) w
    | inl p ↦
        let (old, there) = by_user-value_at code ds da w.keyed e in
        rw (e, p) (replace-IsWithin da.device_code (change da) old ds (same da) there w)
  ]
]

poll-IsWithin :
    (now : ℕ) (code : String) (ds before : Devices)
    → IsWithin max ds
    → IsWithin max (after (poll now code ds) before)
unfolding poll remove_locked
poll-IsWithin now code ds before w = elim (Option-cases (value_at code ds)) [
  | inl e ↦ rw e w
  | inr (da, e) ↦
      let key = value_at-device_code code ds da w.keyed e in
      elim (Bool-cases (is_pending da.status)) [
        | inr p ↦ rw (e, p) (discard-IsWithin da.device_code max ds w)
        | inl p ↦
            elim (Bool-cases
              (not (da.last_poll == 0) && ltb (now - da.last_poll) (interval_of da))) [
                | inl early ↦ rw (e, p, early) (replace-IsWithin code _ da ds key e w)
                | inr late ↦ rw (e, p, late) (replace-IsWithin code _ da ds key e w)
              ]
      ]
]

pub serve-IsWithin :
    (now : ℕ) (r : Request) (ds : Devices) → IsWithin max ds → IsWithin max (serve now r ds)
unfolding serve attempt approve deny by_device_code
serve-IsWithin now (start ttl device_code user_code) ds w =
    create-IsWithin now ttl device_code user_code _ ds (sweep-IsWithin now ds ds w) w
serve-IsWithin now (look_up code) ds w = sweep-IsWithin now ds ds w
serve-IsWithin now (accept code subject roles) ds w =
    settle_pending-IsWithin _ code _ ds (λ da. refl) (sweep-IsWithin now ds ds w)
serve-IsWithin now (refuse code) ds w =
    settle_pending-IsWithin _ code _ ds (λ da. refl) (sweep-IsWithin now ds ds w)
serve-IsWithin now (drop_code code) ds w = delete-IsWithin code _ ds (sweep-IsWithin now ds ds w)
serve-IsWithin now (ask code) ds w = poll-IsWithin now code _ ds (sweep-IsWithin now ds ds w)

from-IsWithin :
    (rs : List (ℕ × Request)) (ds : Devices) → IsWithin max ds → IsWithin max (serve_all rs ds)
unfolding serve_all
from-IsWithin [] ds w = w
from-IsWithin ((now, r) ∷ rs) ds w = from-IsWithin rs (serve now r ds) (serve-IsWithin now r ds w)

-- Through any requests at any times there are at most 1024 authorizations, each under its own code.
pub serve_all-IsWithin :
    (rs : List (ℕ × Request)) → IsWithin max_device_authorizations (serve_all rs [])
serve_all-IsWithin rs = from-IsWithin rs [] (record { number = omega arith; keyed = tt })
