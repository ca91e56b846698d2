-- ===== src/FunctionPool/Retire.antt =====
-- How the retirement of a compute ends, while others write.
use mathlib.Core.Option.{some-injective}
use infrastructure.Prelude.{
  ℕ, zero, suc, ◌≡◌, ◌≢◌, refl, sym, ap, ◌∙◌, inl, inr, true, false, ◌>>=◌, wrap, Option, none,
  some, String, str_eq, eq_iff, ◌==◌, Result, ok, err, err-ok, Error, conflict, is_not_found, arith,
  Bool-cases, Option-cases,
}
use infrastructure.State.Contract.{Honours}
use infrastructure.Resource.Meta.{ObjectMeta, has_finalizer, among, add_finalizer}
use infrastructure.Resource.Meta.Finalizers.{among-append}
use infrastructure.Registry.{
  Resource, Registry, key, load, stamped, update_bytes, swap_update, wrapped,
}
use infrastructure.Registry.Writes.{same_cell}
use infrastructure.FunctionPool.{
  Compute, compute_finalizer, retired, attempt_update, go_on, retry_retire, retire_compute,
}

str_eq_refl : (x : String) → str_eq x x ≡ true
str_eq_refl x = ground (arith, eq_iff x x)

has_finalizer-add_finalizer :
    (x : String) (m : ObjectMeta) → has_finalizer x (add_finalizer x m) ≡ true
unfolding has_finalizer add_finalizer
has_finalizer-add_finalizer x m = elim (Bool-cases (among x m.finalizers)) [
  | inl e ↦ rw (e, e) refl
  | inr e ↦ rw (e, among-append x x m.finalizers, str_eq_refl x) refl
]

wrapped-ok : {A : Type 0} (m : String) (x : Result A) (a : A) → wrapped m x ≡ ok a → x ≡ ok a
wrapped-ok m (ok b) a h = h
wrapped-ok m (err e) a h = absurd (err-ok h)

module _ {S B : Type 0} (r : Registry S (Compute B)) (now : ℕ) where
  abbrev Marshals : String → String → Type 0
  Marshals old new =
      (res : Resource (Compute B)) × (load r old ≡ ok res)
      × (r.codec.marshal (stamped r (retired now res)) ≡ ok new)

  loaded :
      (old new : String) (l : Result (Resource (Compute B)))
      → load r old ≡ l
      → (l >>= λ res. wrapped "registry: marshal" (r.codec.marshal (stamped r (retired now res))))
        ≡ ok new
      → Marshals old new
  loaded old new (err e) p h = absurd (err-ok h)
  loaded old new (ok res) p h = (res, p, wrapped-ok _ _ new h)

  marshalled :
      (old new : String)
      → update_bytes r (λ res. ok (retired now res)) old ≡ ok new
      → Marshals old new
  unfolding update_bytes
  marshalled old new h = loaded old new (load r old) refl h

  nothing :
      (e : Error)
      → r.codec.unmarshal "" ≡ err e
      → update_bytes r (λ res. ok (retired now res)) "" ≡ err (wrap "registry: unmarshal" e)
  unfolding update_bytes load
  nothing e i = rw i refl

same_number : (k n : ℕ) → (k == n) ≡ true → k ≡ n
same_number k n e = ground (arith, e)

-- Bytes of a compute, and the same compute marked for deletion at `now` with its finalizer set.
pub record IsMarked {S B : Type 0} (r : Registry S (Compute B)) (now : ℕ) (old new : String)
    : Type 0 where
  pub before : Resource (Compute B)
  pub after : Resource (Compute B)
  pub was_loaded : load r old ≡ ok before
  pub is_encoded : r.codec.marshal (stamped r after) ≡ ok new
  pub deletion : after.body.meta.deletion_timestamp ≡ some now
  pub finalizer : has_finalizer compute_finalizer after.body.meta ≡ true
  pub same_uid : after.uid ≡ before.uid
  pub same_rest : after.body.rest ≡ before.body.rest

retired-IsMarked :
    {S B : Type 0} (r : Registry S (Compute B)) (now : ℕ) (old new : String)
    → Marshals r now old new
    → IsMarked r now old new
unfolding add_finalizer
retired-IsMarked r now old new (res, l, m) =
    let dated : ObjectMeta = record (res.body.meta) { deletion_timestamp = some now } in
    record {
      before = res;
      after = retired now res;
      was_loaded = l;
      is_encoded = m;
      deletion = elim (Bool-cases (has_finalizer compute_finalizer dated)) [
        | inl e ↦ rw e refl
        | inr e ↦ rw e refl
      ];
      finalizer = has_finalizer-add_finalizer compute_finalizer dated;
      same_uid = refl;
      same_rest = refl;
    }

module _ {S B : Type 0} (r : Registry S (Compute B)) (uid : String) (now : ℕ) (others : ℕ → S → S)
    (cell : S → Option String) where
  -- A run of so many attempts from a state, with its result and the state that it leaves. An attempt
  -- reads, others write, and it swaps.
  pub data Runs : ℕ → S → Result (Unit {0}) → S → Type 0 where
    -- The read finds no compute.
    gone : (n : ℕ) (s : S) → cell s ≡ none → Runs (suc n) s (ok tt) (others n s)
    -- Nobody has changed what was read, and the marked compute is stored in its place.
    marks :
        (n : ℕ) (s : S) (s' : S) (old new : String)
        → cell s ≡ some old
        → cell (others n s) ≡ some old
        → IsMarked r now old new
        → cell s' ≡ some new
        → Runs (suc n) s (ok tt) s'
    -- What was read cannot be decoded, or not be encoded again.
    broken :
        (n : ℕ) (s : S) (old : String) (e : Error)
        → cell s ≡ some old
        → update_bytes r (λ res. ok (retired now res)) old ≡ err e
        → Runs (suc n) s (err e) (others n s)
    -- Others have changed what was read, and the attempts that are left follow.
    raced :
        (n : ℕ) (s : S) (old : String) (result : Result (Unit {0})) (s' : S)
        → cell s ≡ some old
        → cell (others n s) ≢ some old
        → Runs n (others n s) result s'
        → Runs (suc n) s result s'
    exhausted : (s : S) → Runs 0 s (err conflict) s

  -- A run that ends in a result and a state.
  abbrev pub Ends : ℕ → S → Result (Unit {0}) × S → Type 0
  Ends n s p = Runs n s p.0 p.1

  module _ (h : Honours r.store (key r uid) cell) (empty : Error)
      (no_bytes : r.codec.unmarshal "" ≡ err empty)
      (plain : (old : String) (e : Error)
        → update_bytes r (λ res. ok (retired now res)) old ≡ err e
        → is_not_found e ≡ false) where
    -- After an attempt has read `old` in a state `s`.
    Ends-swap :
        (n : ℕ) (old : String) (s : S) (u : Result String)
        → cell s ≡ some old
        → update_bytes r (λ res. ok (retired now res)) old ≡ u
        → Ends n (others n s) (retry_retire r uid now others n (others n s))
        → Ends (suc n) s (
            go_on r uid now others
              (swap_update r uid old u (others n s))
              (retry_retire r uid now others n))
    Ends-swap n old s (err e) c u rest = rw (plain old e u) (broken n s old e c u)
    Ends-swap n old s (ok new) c u rest = elim (same_cell (cell (others n s)) old) [
      | inl same ↦
          let (done, there) = h.swaps (some old) new (others n s) same in
          let (res, l, m) = marshalled r now old new u in
          rw done (marks n s _ old new c same (retired-IsMarked r now old new (res, l, m)) there)
      | inr other ↦
          let full : some old ≢ some "" = λ e. err-ok (
            sym (nothing r now empty no_bytes)
            ∙ ap (λ b. update_bytes r (λ res. ok (retired now res)) b) (sym (some-injective _ _ e))
            ∙ u) in
          rw (h.refuses (some old) new (others n s) other full) (raced n s old _ _ c other rest)
    ]

    retry_retire-Ends : (n : ℕ) (s : S) → Ends n s (retry_retire r uid now others n s)
    unfolding retry_retire attempt_update
    retry_retire-Ends zero s = exhausted s
    retry_retire-Ends (suc n) s = elim (Option-cases (cell s)) [
      | inl e ↦ rw (h.reads s, e) (gone n s e)
      | inr (old, e) ↦
          rw (h.reads s, e)
            (Ends-swap n old s (update_bytes r (λ res. ok (retired now res)) old) e refl
              (retry_retire-Ends n (others n s)))
    ]

    -- However others write between the read and the swap of each attempt, RetireCompute is a run of at
    -- most 16 attempts: each but the last read a compute that others changed before the swap. The last
    -- one stores the compute that it read with its deletion time and its finalizer set, or finds no
    -- compute, which both succeed; or it fails with the error of decoding or encoding what it read. If
    -- others interfere in all 16, the result is a conflict and the store is as they left it. The store
    -- keeps its promises at the key, no bytes are not a compute, and no error of the codec says that a
    -- key is missing.
    pub retire_compute-Ends : (s : S) → Ends 16 s (retire_compute r uid now others s)
    unfolding retire_compute
    retire_compute-Ends s = retry_retire-Ends 16 s
