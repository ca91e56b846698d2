-- ===== src/Device/Examples.antt =====
-- One client that asks for a code, and one user who approves it.
use infrastructure.Prelude.{
  ℕ, ◌≡◌, ◌≢◌, String, eq_iff, refl, true, false, List, [], ◌∷◌, Option, none, some, ◌==◌,
  if◌then◌else◌, ok, arith,
}
use infrastructure.Prelude.Dict.{value_at, discard}
use infrastructure.Device.{
  approved, DeviceAuth, Devices, max_device_authorizations, remove_locked, sweep, by_user, deny,
  settle_pending, expired_token, found, poll, attempt, new_auth, Backend, retry, transact, anew,
  by_device_code,
}
use infrastructure.Device.Capacity.{
  IsWithin, start, accept, ask, Request, serve_all, serve_all-IsWithin,
}
use infrastructure.Device.SingleUse.{single_use}
use infrastructure.Device.Transaction.{IsApplied, transact-IsApplied}

abbrev dialogue : List (ℕ × Request)
dialogue = (100, start 50 "d1" "ABCD") ∷ (110, accept "ABCD" "alice" []) ∷ (120, ask "d1") ∷ []

serve_all_example : IsWithin max_device_authorizations (serve_all dialogue [])
serve_all_example = serve_all-IsWithin dialogue

abbrev alice_auth : DeviceAuth
alice_auth = record (new_auth 100 50 "d1" "ABCD") { status = approved; subject = "alice" }

abbrev waiting : Devices
waiting = ("d1", alice_auth) ∷ []

polled : attempt 120 (poll 120 "d1") waiting ≡ ok (found alice_auth, [])
unfolding attempt sweep poll remove_locked value_at discard
polled = refl

other_codes : ◌≢◌ {A = String} "d2" "d1"
other_codes e = ground (arith, eq_iff "d2" "d1", e)

-- Between the two polls another client asks for a code.
single_use_example :
    attempt 130 (poll 130 "d1") (serve_all ((125, start 50 "d2" "EFGH") ∷ []) [])
    ≡ ok (
      expired_token,
      sweep 130
          (serve_all ((125, start 50 "d2" "EFGH") ∷ []) [])
          (serve_all ((125, start 50 "d2" "EFGH") ∷ []) []),
    )
single_use_example =
    single_use 120 130 "d1" waiting [] alice_auth ((125, start 50 "d2" "EFGH") ∷ [])
      (record { number = omega arith; keyed = (refl, tt) }) polled refl (other_codes, tt)

-- A backend that nobody else writes to.
abbrev alone : Backend (Option Devices)
alone = record { get = λ s. (ok s, s); compare_and_swap = λ old new s. (ok true, some new) }

refused : (transact alone 120 (anew (deny "WXYZ")) false (some waiting)).0 ≡ ok false
unfolding transact retry attempt sweep deny settle_pending by_user
refused = refl

transact_example :
    IsApplied alone 120
      (anew (deny "WXYZ"))
      false
      (some waiting)
      false
      (transact alone 120 (anew (deny "WXYZ")) false (some waiting)).1
transact_example =
    transact-IsApplied alone 120 (anew (deny "WXYZ")) false (some waiting) false refused

-- Another instance deletes the authorization between the read and the first swap; the second attempt
-- does not find it, and the look-up still reports it.
abbrev contended : Backend (ℕ × Option Devices)
contended = record {
  get = λ s. (ok s.1, s);
  compare_and_swap =
      λ old new s. if s.0 == 0 then (ok false, (1, some [])) else (ok true, (s.0, some new));
}

stale :
    transact contended 120 (by_device_code "d1") none (0, some waiting)
    ≡ (ok (some alice_auth), (1, some []))
unfolding transact retry attempt sweep by_device_code value_at
stale = refl
