-- ===== src/Device/SingleUse.antt =====
-- An authorization that was answered is handed out once.
use infrastructure.Prelude.{
  ℕ, ◌-◌, ◌≡◌, ◌≢◌, refl, sym, ◌∙◌, ap, List, some, All, length, Bool, true, false, not, ◌&&◌, [],
  ◌∷◌, none, String, eq_iff, ◌==◌, ltb, leb, Result, ok, err, arith, Bool-cases, Option-cases, inl,
  inr, subst,
}
use infrastructure.Prelude.Dict.{value_at, assign, value_at-assign, value_at-discard}
use infrastructure.Device.{
  DeviceAuth, Devices, remove_locked, sweep, is_pending, Polled, expired_token, found, poll,
  poll_found, poll_pending, interval_of, attempt, by_user, create, by_device_code, settle_pending,
  approve, deny, delete, max_device_authorizations,
}
use infrastructure.Device.Capacity.{
  IsWithin, AreKeyed, sweep-IsWithin, value_at-device_code, by_user-value_at, Request, start,
  look_up, accept, refuse, drop_code, ask, after, serve, serve_all, serve-IsWithin,
}

-- What is not there does not come back as others expire.
sweep-none :
    (now : ℕ) (code : String) (es ds : Devices)
    → value_at code ds ≡ none
    → value_at code (sweep now es ds) ≡ none
unfolding sweep remove_locked
sweep-none now code [] ds e = e
sweep-none now code (d ∷ es) ds e = elim (Bool-cases (leb (d.1).expires_at now)) [
  | inl x ↦
      rw x
        (sweep-none now code es _ (ground (arith, value_at-discard (d.1).device_code code ds, e)))
  | inr x ↦ rw x (sweep-none now code es ds e)
]

-- Whether an answer is no authorization that was decided, and what an answer leaves.
abbrev is_undecided : Result (Polled × Devices) → Bool
is_undecided (ok (found d, left)) = is_pending d.status
is_undecided _ = true

abbrev left_by : Result (Polled × Devices) → Devices
left_by (ok (p, left)) = left
left_by (err e) = []

poll_pending-is_undecided :
    (now : ℕ) (code : String) (da : DeviceAuth) (ds : Devices)
    → is_pending da.status ≡ true
    → is_undecided (poll_pending now code da ds) ≡ true
poll_pending-is_undecided now code da ds p =
    elim (Bool-cases (not (da.last_poll == 0) && ltb (now - da.last_poll) (interval_of da))) [
      | inl early ↦ rw early refl
      | inr late ↦ rw late p
    ]

poll_answered :
    (now : ℕ) (code : String) (ds left : Devices) (da : DeviceAuth)
    → AreKeyed ds
    → poll now code ds ≡ ok (found da, left)
    → is_pending da.status ≡ false
    → value_at code left ≡ none
unfolding poll remove_locked
poll_answered now code ds left da k h p = elim (Option-cases (value_at code ds)) [
  | inl e ↦ absurd (ground (arith, rw (e, poll_found) at h))
  | inr (old, e) ↦
      let key = value_at-device_code code ds old k e in
      elim (Bool-cases (is_pending old.status)) [
        | inl q ↦
            let h' = rw (e, poll_found, q) at h in
            absurd
              (ground (arith, p, poll_pending-is_undecided now code old ds q, ap is_undecided h'))
        | inr q ↦
            let h' = rw (e, poll_found, q) at h in
            subst (λ x. value_at code x ≡ none) (ap left_by h')
              (ground
                (arith, value_at-discard old.device_code code ds, key, eq_iff old.device_code code))
      ]
]

none-some {ℓ} : {A : Type ℓ} {a : A} → none ≢ some a
none-some h = cc

-- A request that does not hand the device code out anew; the source's are random.
abbrev pub IsNotFor : String → ℕ × Request → Type 0
IsNotFor code (now, start ttl device_code user_code) = device_code ≢ code
IsNotFor code (now, look_up c) = Unit
IsNotFor code (now, accept c subject roles) = Unit
IsNotFor code (now, refuse c) = Unit
IsNotFor code (now, drop_code c) = Unit
IsNotFor code (now, ask c) = Unit

assign-none :
    (key code : String) (da : DeviceAuth) (ds : Devices)
    → key ≢ code
    → value_at code ds ≡ none
    → value_at code (assign key da ds) ≡ none
assign-none key code da ds n e =
    ground (arith, value_at-assign key code da ds, e, n, eq_iff key code)

-- A code that is there is not one that is not.
other_code :
    (key code : String) (old : DeviceAuth) (ds : Devices)
    → value_at key ds ≡ some old
    → value_at code ds ≡ none
    → key ≢ code
other_code key code old ds there e same =
    absurd (none-some (sym e ∙ ap (λ k. value_at k ds) (sym same) ∙ there))

remove_locked-none :
    (code : String) (da : DeviceAuth) (ds : Devices)
    → value_at code ds ≡ none
    → value_at code (remove_locked da ds) ≡ none
unfolding remove_locked
remove_locked-none code da ds e = ground (arith, value_at-discard da.device_code code ds, e)

settle_pending-none :
    (change : DeviceAuth → DeviceAuth) (user code : String) (ds before : Devices)
    → AreKeyed ds
    → value_at code ds ≡ none
    → value_at code (after (settle_pending change (by_user user ds) ds) before) ≡ none
unfolding settle_pending
settle_pending-none change user code ds before k e = elim (Option-cases (by_user user ds)) [
  | inl u ↦ rw u e
  | inr (da, u) ↦ elim (Bool-cases (is_pending da.status)) [
    | inr p ↦ rw (u, p) e
    | inl p ↦
        let (old, there) = by_user-value_at user ds da k u in
        rw (u, p)
          (assign-none da.device_code code (change da) ds
            (other_code da.device_code code old ds there e) e)
  ]
]

poll-none :
    (now : ℕ) (asked code : String) (ds before : Devices)
    → value_at code ds ≡ none
    → value_at code (after (poll now asked ds) before) ≡ none
unfolding poll
poll-none now asked code ds before e = elim (Option-cases (value_at asked ds)) [
  | inl u ↦ rw u e
  | inr (da, u) ↦
      let n : asked ≢ code = other_code asked code da ds u e in
      elim (Bool-cases (is_pending da.status)) [
        | inr p ↦ rw (u, p) (remove_locked-none code da ds e)
        | inl p ↦
            elim (Bool-cases
              (not (da.last_poll == 0) && ltb (now - da.last_poll) (interval_of da))) [
                | inl early ↦ rw (u, p, early) (assign-none asked code _ ds n e)
                | inr late ↦ rw (u, p, late) (assign-none asked code _ ds n e)
              ]
      ]
]

delete-none :
    (dropped code : String) (ds before : Devices)
    → value_at code ds ≡ none
    → value_at code (after (delete dropped ds) before) ≡ none
unfolding delete
delete-none dropped code ds before e = elim (Option-cases (value_at dropped ds)) [
  | inl u ↦ rw u e
  | inr (da, u) ↦ rw u (remove_locked-none code da ds e)
]

create-none :
    (now ttl : ℕ) (device_code user_code code : String) (ds before : Devices)
    → device_code ≢ code
    → value_at code ds ≡ none
    → value_at code before ≡ none
    → value_at code (after (create now ttl device_code user_code ds) before) ≡ none
unfolding create
create-none now ttl device_code user_code code ds before n e b =
    elim (Bool-cases (leb max_device_authorizations (length ds))) [
      | inl full ↦ rw full b
      | inr room ↦ elim (Option-cases (by_user user_code ds)) [
        | inr (taken, u) ↦ rw (room, u) b
        | inl u ↦ rw (room, u) (assign-none device_code code _ ds n e)
      ]
    ]

serve-none :
    (code : String) (now : ℕ) (r : Request) (ds : Devices)
    → IsWithin max_device_authorizations ds
    → IsNotFor code (now, r)
    → value_at code ds ≡ none
    → value_at code (serve now r ds) ≡ none
unfolding serve attempt approve deny by_device_code
serve-none code now (start ttl device_code user_code) ds w n e =
    create-none now ttl device_code user_code code (sweep now ds ds) ds n
      (sweep-none now code ds ds e) e
serve-none code now (look_up c) ds w n e = sweep-none now code ds ds e
serve-none code now (accept c subject roles) ds w n e =
    settle_pending-none _ c code (sweep now ds ds) ds (sweep-IsWithin now ds ds w).keyed
      (sweep-none now code ds ds e)
serve-none code now (refuse c) ds w n e =
    settle_pending-none _ c code (sweep now ds ds) ds (sweep-IsWithin now ds ds w).keyed
      (sweep-none now code ds ds e)
serve-none code now (drop_code c) ds w n e =
    delete-none c code (sweep now ds ds) ds (sweep-none now code ds ds e)
serve-none code now (ask c) ds w n e =
    poll-none now c code (sweep now ds ds) ds (sweep-none now code ds ds e)

serve_all-none :
    (code : String) (rs : List (ℕ × Request)) (ds : Devices)
    → IsWithin max_device_authorizations ds
    → All (IsNotFor code) rs
    → value_at code ds ≡ none
    → value_at code (serve_all rs ds) ≡ none
unfolding serve_all
serve_all-none code [] ds w n e = e
serve_all-none code ((now, r) ∷ rs) ds w (n, ns) e =
    serve_all-none code rs (serve now r ds) (serve-IsWithin now r ds w) ns
      (serve-none code now r ds w n e)

-- Once a poll was answered with an authorization that was approved or denied, every later poll with
-- its device code finds it expired, whatever requests are served in between and whatever the times,
-- unless one of them hands out the same device code again.
pub single_use :
    (now later : ℕ) (code : String) (ds left : Devices) (da : DeviceAuth) (rs : List (ℕ × Request))
    → IsWithin max_device_authorizations ds
    → attempt now (poll now code) ds ≡ ok (found da, left)
    → is_pending da.status ≡ false
    → All (IsNotFor code) rs
    → attempt later (poll later code) (serve_all rs left)
      ≡ ok (expired_token, sweep later (serve_all rs left) (serve_all rs left))
unfolding attempt poll serve
single_use now later code ds left da rs w h p others =
    let gone =
      poll_answered now code (sweep now ds ds) left da (sweep-IsWithin now ds ds w).keyed h p in
    let kept : IsWithin max_device_authorizations left =
      subst (IsWithin max_device_authorizations) (ap (λ a. after a ds) h)
        (serve-IsWithin now (ask code) ds w) in
    let end : Devices = serve_all rs left in
    rw (sweep-none later code end end (serve_all-none code rs left kept others gone)) refl
