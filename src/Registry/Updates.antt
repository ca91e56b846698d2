-- ===== src/Registry/Updates.antt =====
-- `TryUpdate` by many writers, whose reads and swaps come in any order.
use mathlib.Core.Option.{some-injective}
use infrastructure.Prelude.{
  ℕ, ◌≡◌, ◌≢◌, refl, sym, ap, ◌∙◌, inl, inr, Bool, true, false, ◌==◌, List, [], ◌∷◌, Option, some,
  String, if◌then◌else◌, Result, ok, err, err-ok, Error, ◌>>=◌, arith,
}
use infrastructure.State.Contract.{Honours}
use infrastructure.Registry.{
  Resource, Registry, key, load, update_bytes, swap_update, update_read, try_update,
}
use infrastructure.Registry.Writes.{same_cell}

-- A writer reads the resource, or goes on with what it has read.
pub data Move : Type 0 where
  reads : ℕ → Move
  writes : ℕ → Move

-- The store, what each writer has read last, and the writers whose updates were applied, the last first.
pub record System (S : Type 0) : Type 0 where
  pub now : S
  pub held : ℕ → Result String
  pub applied : List ℕ

module _ {S B : Type 0} (r : Registry S B) (uid : String)
    (mutate : ℕ → Resource B → Result (Resource B)) where
  -- The bytes after the updates of some writers, each on what the ones before it have left.
  unfoldable pub replay : String → List ℕ → Result String
  replay bytes [] = ok bytes
  replay bytes (w ∷ ws) = let rest = replay bytes ws in rest >>= update_bytes r (mutate w)

  abbrev pub wrote : ℕ → System S → Result Bool × S → System S
  wrote w y (ok true, s) = record y { now = s; applied = w ∷ y.applied }
  wrote w y (ok false, s) = record y { now = s }
  wrote w y (err e, s) = record y { now = s }

  unfoldable pub act : Move → System S → System S
  act (reads w) y =
      let (bytes, s) = r.store.get (key r uid) y.now in
      record y { now = s; held = λ v. if v == w then bytes else y.held v }
  act (writes w) y = wrote w y (update_read r uid (mutate w) (y.held w) y.now)

  unfoldable pub run : List Move → System S → System S
  unfolding act
  run [] y = y
  run (m ∷ ms) y = run ms (act m y)

  wrote-now : (w : ℕ) (y : System S) (p : Result Bool × S) → (wrote w y p).now ≡ p.1
  wrote-now w y (ok true, s) = refl
  wrote-now w y (ok false, s) = refl
  wrote-now w y (err e, s) = refl

  -- `TryUpdate` is a read and a write of one writer with nothing in between.
  try_update-act :
      (w : ℕ) (y : System S)
      → (act (writes w) (act (reads w) y)).now ≡ (try_update r uid (mutate w) y.now).1
  unfolding act try_update
  try_update-act w y =
      let (bytes, s) = r.store.get (key r uid) y.now in
      let read : System S = act (reads w) y in
      let mine : read.held w ≡ bytes = ground arith in
      wrote-now w read (update_read r uid (mutate w) (read.held w) s)
      ∙ ap (λ b. (update_read r uid (mutate w) b s).1) mine

  module _ (cell : S → Option String) (h : Honours r.store (key r uid) cell) where
    update_empty :
        (w : ℕ) (e : Error)
        → r.codec.unmarshal "" ≡ err e
        → (new : String) → update_bytes r (mutate w) "" ≢ ok new
    unfolding update_bytes load
    update_empty w e i new u = err-ok (rw i at u)

    -- The store holds what the applied updates come to.
    abbrev pub IsReplayed : String → System S → Type 0
    IsReplayed bytes y =
        (new : String) × (cell y.now ≡ some new) × (replay bytes y.applied ≡ ok new)

    wrote-IsReplayed :
        (e : Error) (bytes old : String) (w : ℕ) (y : System S) (u : Result String)
        → r.codec.unmarshal "" ≡ err e
        → IsReplayed bytes y
        → update_bytes r (mutate w) old ≡ u
        → IsReplayed bytes (wrote w y (swap_update r uid old u y.now))
    unfolding replay
    wrote-IsReplayed e bytes old w y (err f) i p q = p
    wrote-IsReplayed e bytes old w y (ok new) i (v, there, done) q =
        elim (same_cell (cell y.now) old) [
          | inl c ↦
              let (a, b) = h.swaps (some old) new y.now c in
              let same : v ≡ old = some-injective _ _ (sym there ∙ c) in
              rw a (new, b, rw (done, same) q)
          | inr n ↦
              let full : some old ≢ some "" =
                λ o. update_empty w e i new (rw (some-injective _ _ o) at q) in
              rw (h.refuses (some old) new y.now n full) (v, there, done)
        ]

    held-IsReplayed :
        (e : Error) (bytes : String) (w : ℕ) (y : System S) (old : Result String)
        → r.codec.unmarshal "" ≡ err e
        → IsReplayed bytes y
        → IsReplayed bytes (wrote w y (update_read r uid (mutate w) old y.now))
    held-IsReplayed e bytes w y (err f) i p = p
    held-IsReplayed e bytes w y (ok old) i p =
        wrote-IsReplayed e bytes old w y (update_bytes r (mutate w) old) i p refl

    pub act-IsReplayed :
        (e : Error) (bytes : String) (m : Move) (y : System S)
        → r.codec.unmarshal "" ≡ err e
        → IsReplayed bytes y
        → IsReplayed bytes (act m y)
    unfolding act
    act-IsReplayed e bytes (reads w) y i p = rw (h.reads y.now) p
    act-IsReplayed e bytes (writes w) y i p = held-IsReplayed e bytes w y (y.held w) i p

    pub run-IsReplayed :
        (e : Error) (bytes : String) (ms : List Move) (y : System S)
        → r.codec.unmarshal "" ≡ err e
        → IsReplayed bytes y
        → IsReplayed bytes (run ms y)
    unfolding run
    run-IsReplayed e bytes [] y i p = p
    run-IsReplayed e bytes (m ∷ ms) y i p =
        run-IsReplayed e bytes ms (act m y) i (act-IsReplayed e bytes m y i p)

    -- However the reads and the writes of updaters interleave, no update is lost: the store holds the
    -- initial bytes changed by every update that was reported as applied, one on the other in that
    -- order. No bytes are not a resource.
    pub run-replay :
        (ms : List Move) (bytes : String) (s : S) (held : ℕ → Result String) (e : Error)
        → cell s ≡ some bytes
        → r.codec.unmarshal "" ≡ err e
        → IsReplayed bytes (run ms (record { now = s; held = held; applied = [] }))
    unfolding replay
    run-replay ms bytes s held e c i = run-IsReplayed e bytes ms _ i (bytes, c, refl)
