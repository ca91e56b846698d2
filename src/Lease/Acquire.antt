-- ===== src/Lease/Acquire.antt =====
-- What an attempt to take the lease does when no other holder comes between.
use infrastructure.Prelude.{
  ℕ, ◌+◌, ◌≤◌, ◌≡◌, ◌≢◌, ◌↔◌, ◌⊎◌, inl, inr, refl, true, false, ◌||◌, str_eq, eq_iff, eq_refl,
  Option, none, some, ◌==◌, leb, ok, arith, Bool-cases,
}
use infrastructure.Lease.{Value, encoded, unreadable, Lease, fresh, swap, judge, plan, acquire}
use infrastructure.Lease.Contention.{same_value, one_key}

-- There is nothing to wait for: no record, one of this holder, or one that has expired.
abbrev pub IsFree : Lease → ℕ → Option Value → Type 0
IsFree l now none = Unit
IsFree l now (some (encoded r)) = (r.holder ≡ l.holder) ⊎ (r.expiry ≤ now)
IsFree l now (some (unreadable b)) = ⊥

same_value_refl : (v : Value) → same_value v v ≡ true
same_value_refl (encoded r) = ground (arith, eq_refl r.holder)
same_value_refl (unreadable b) = ground (arith, eq_refl b)

-- An attempt with a positive TTL succeeds exactly when the lease is free; it then stores a record of
-- this holder that lasts the TTL, and otherwise leaves the store as it is.
pub acquire_lem :
    (l : Lease) (now later : ℕ) (cell : Option Value)
    → l.ttl ≢ 0
    → let (r, cell') = acquire one_key l now later cell in
      ((r ≡ ok true) ↔ IsFree l now cell)
      × (((r ≡ ok true)
            × (cell' ≡ some (encoded (record { holder = l.holder; expiry = later + l.ttl }))))
          ⊎ ((r ≢ ok true) × (cell' ≡ cell)))
unfolding acquire plan judge swap fresh
acquire_lem l now later none p =
    let t : (l.ttl == 0) ≡ false = ground arith in rw t ((λ h. tt, λ h. refl), inl (refl, refl))
acquire_lem l now later (some (unreadable b)) p =
    let t : (l.ttl == 0) ≡ false = ground arith in
    rw t ((λ h. cc, λ h. elim h [ ]), inr (λ h. cc, refl))
acquire_lem l now later (some (encoded r)) p =
    let t : (l.ttl == 0) ≡ false = ground arith in
    elim (Bool-cases (str_eq r.holder l.holder || leb r.expiry now)) [
      | inl e ↦
          rw (t, e, same_value_refl (encoded r))
            ((λ h. ground (arith, e, eq_iff r.holder l.holder), λ h. refl), inl (refl, refl))
      | inr e ↦
          rw (t, e)
            (
              (λ h. cc, λ h. absurd (ground (arith, h, e, eq_iff r.holder l.holder))),
              inr (λ h. cc, refl),
            )
    ]
