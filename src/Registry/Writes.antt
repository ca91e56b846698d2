-- ===== src/Registry/Writes.antt =====
-- What `Put` replaces, alone and when others write in between.
use mathlib.Core.Option.{some-injective}
use infrastructure.Prelude.{
  ◌≡◌, ◌≢◌, refl, ap, ◌⊎◌, inl, inr, Bool, true, false, not, ◌&&◌, Option, none, some, String,
  str_eq, eq_iff, if◌then◌else◌, Result, ok, err, conflict, arith, Bool-cases, Option-cases,
}
use infrastructure.State.{read_cell}
use infrastructure.State.Contract.{Honours}
use infrastructure.Registry.{
  Resource, Registry, key, stamped, expect, read_expected, swap_in, put_read, put,
}

-- What a writer of a resource version expects of the stored bytes: none, or bytes of that revision.
abbrev pub expects : (String → String) → String → Option String → Bool
expects revision version none = str_eq version ""
expects revision version (some v) = not (str_eq version "") && str_eq (revision v) version

pub same_cell : (c : Option String) (v : String) → (c ≡ some v) ⊎ (c ≢ some v)
same_cell none v = inr (λ e. cc)
same_cell (some u) v = elim (Bool-cases (str_eq u v)) [
  | inl e ↦ inl (ap some (ground (arith, e, eq_iff u v)))
  | inr e ↦ inr (λ h. ground (arith, e, eq_iff u v, some-injective _ _ h))
]

module _ {S B : Type 0} (r : Registry S B) (res : Resource B) (bytes : String)
    (cell : S → Option String) (h : Honours r.store (key r res.uid) cell) where
  -- The resource that a successful write gives back.
  abbrev pub written : Resource B
  written = record (stamped r res) { resource_version = r.codec.revision bytes }

  -- The bytes that a write has read satisfy what it expects, or there is a conflict.
  read_expected_lem :
      (s : S)
      → read_expected r res s ≡ (
          if str_eq res.resource_version ""
          then (ok none, s)
          else (expect r res.resource_version (read_cell (cell s)), s))
  unfolding read_expected
  read_expected_lem s = rw (h.reads s) refl

  swap_in_lem :
      (old : Option String) (s : S)
      → cell s ≡ old
      → ((swap_in r res bytes old s).0 ≡ ok written)
        × (cell (swap_in r res bytes old s).1 ≡ some bytes)
  unfolding swap_in
  swap_in_lem old s e = let (a, b) = h.swaps old bytes s e in (rw a refl, b)

  swap_in-refuses :
      (old : Option String) (s : S)
      → cell s ≢ old
      → old ≢ some ""
      → swap_in r res bytes old s ≡ (err conflict, s)
  unfolding swap_in
  swap_in-refuses old s ne n = rw (h.refuses old bytes s ne n) refl

  -- What a write comes to: it replaces what it expects, or it is refused and the store stays.
  abbrev pub Replaces : Option String → Result (Resource B) × S → S → Type 0
  Replaces old (result, s') s =
      ((expects r.codec.revision res.resource_version old ≡ true)
        × (result ≡ ok written)
        × (cell s' ≡ some bytes))
      ⊎ ((expects r.codec.revision res.resource_version old ≡ false)
          × (result ≡ err conflict)
          × (s' ≡ s))

  put_read-Replaces :
      (s : S) → Replaces (cell s) (put_read r res bytes (read_expected r res s).0 s) s
  put_read-Replaces s = elim (Bool-cases (str_eq res.resource_version "")) [
    | inl new ↦ elim (Option-cases (cell s)) [
      | inl e ↦
          let (done, there) = swap_in_lem none s e in
          rw (read_expected_lem s, new, e) (inl (new, done, there))
      | inr (v, e) ↦
          let taken = swap_in-refuses none s (λ c. cc) (λ c. cc) in
          rw (read_expected_lem s, new, e)
            (inr (ground (arith, new), ap (λ x. x.0) taken, ap (λ x. x.1) taken))
    ]
    | inr known ↦ elim (Option-cases (cell s)) [
      | inl e ↦ rw (read_expected_lem s, known, e) (inr (known, refl, refl))
      | inr (v, e) ↦ elim (Bool-cases (str_eq (r.codec.revision v) res.resource_version)) [
        | inl same ↦
            let (done, there) = swap_in_lem (some v) s e in
            rw (read_expected_lem s, known, e, same)
              (inl (ground (arith, known, same), done, there))
        | inr other ↦
            rw (read_expected_lem s, known, e, other)
              (inr (ground (arith, known, other), refl, refl))
      ]
    ]
  ]

  -- `Put` replaces the bytes whose revision is the resource version that it is given, or none when
  -- that is empty, and otherwise it is refused with a conflict and changes nothing: when the UID is
  -- not empty, the resource can be marshalled, and the store keeps its promises at the key.
  pub put-Replaces :
      (s : S)
      → res.uid ≢ ""
      → r.codec.marshal (stamped r res) ≡ ok bytes
      → Replaces (cell s) (put r res s) s
  unfolding put
  put-Replaces s named fits =
      let e : str_eq res.uid "" ≡ false = ground (arith, named, eq_iff res.uid "") in
      let t : (read_expected r res s).1 ≡ s =
        rw (read_expected_lem s) (elim (Bool-cases (str_eq res.resource_version "")) [
          | inl new ↦ rw new refl
          | inr known ↦ rw known refl
        ]) in
      rw (e, fits, t) (put_read-Replaces s)

  -- What a write comes to whose swap may come later than its read.
  abbrev pub Races : Option String → Result (Resource B) × S → S → Type 0
  Races old (result, s') s =
      ((expects r.codec.revision res.resource_version old ≡ true)
        × (result ≡ ok written)
        × (cell s' ≡ some bytes))
      ⊎ ((result ≡ err conflict) × (s' ≡ s))

  -- A write whose read saw the store in the state `s`, and whose swap finds it in another state `t`,
  -- after any writes of others, still replaces only the revision that it expects, judged at the swap;
  -- otherwise it is refused with a conflict and `t` stays. The bytes that are read are not empty.
  pub put_read-Races :
      (s t : S)
      → cell s ≢ some ""
      → Races (cell t) (put_read r res bytes (read_expected r res s).0 t) t
  put_read-Races s t n = elim (Bool-cases (str_eq res.resource_version "")) [
    | inl new ↦ elim (Option-cases (cell t)) [
      | inl e ↦
          let (done, there) = swap_in_lem none t e in
          rw (read_expected_lem s, new, e) (inl (new, done, there))
      | inr (v, e) ↦
          let taken = swap_in-refuses none t (λ c. cc) (λ c. cc) in
          rw (read_expected_lem s, new) (inr (ap (λ x. x.0) taken, ap (λ x. x.1) taken))
    ]
    | inr known ↦ elim (Option-cases (cell s)) [
      | inl e ↦ rw (read_expected_lem s, known, e) (inr (refl, refl))
      | inr (v, e) ↦ elim (Bool-cases (str_eq (r.codec.revision v) res.resource_version)) [
        | inl same ↦ elim (same_cell (cell t) v) [
          | inl f ↦
              let (done, there) = swap_in_lem (some v) t f in
              rw (read_expected_lem s, known, e, same, f)
                (inl (ground (arith, known, same), done, there))
          | inr f ↦
              let taken = swap_in-refuses (some v) t f (rw e at n) in
              rw (read_expected_lem s, known, e, same)
                (inr (ap (λ x. x.0) taken, ap (λ x. x.1) taken))
        ]
        | inr other ↦ rw (read_expected_lem s, known, e, other) (inr (refl, refl))
      ]
    ]
  ]
