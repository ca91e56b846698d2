-- ===== src/Registry/Progress.antt =====
-- Updaters do not hinder each other for nothing.
use infrastructure.Prelude.{
  ℕ, ◌≡◌, ◌≢◌, refl, sym, ap, ◌∙◌, ◌==◌, List, [], ◌∷◌, Option, some, String, Result, ok, err, Bool,
  true, false, ok-injective, Error, arith, All,
}
use infrastructure.State.Contract.{Honours}
use infrastructure.Registry.{Resource, Registry, key, update_bytes, update_read}
use infrastructure.Registry.Updates.{
  Move, reads, writes, System, replay, wrote, act, run, act-IsReplayed, run-IsReplayed,
}

-- A move that does not read anew for a writer.
abbrev pub IsOther : ℕ → Move → Type 0
IsOther w (reads v) = v ≢ w
IsOther w (writes v) = Unit

module _ {S B : Type 0} (r : Registry S B) (uid : String)
    (mutate : ℕ → Resource B → Result (Resource B)) where
  wrote-held :
      (v : ℕ) (y : System S) (p : Result Bool × S) → (wrote r uid mutate v y p).held ≡ y.held
  wrote-held v y (ok true, s) = refl
  wrote-held v y (ok false, s) = refl
  wrote-held v y (err e, s) = refl

  -- What a writer has read stays while others move.
  act-held :
      (w : ℕ) (m : Move) (y : System S) → IsOther w m → (act r uid mutate m y).held w ≡ y.held w
  unfolding act
  act-held w (reads v) y h = let apart : w == v ≡ false = ground (arith, h) in rw apart refl
  act-held w (writes v) y h =
      ap (λ f. f w) (wrote-held v y (update_read r uid (mutate v) (y.held v) y.now))

  run-held :
      (w : ℕ) (ms : List Move) (y : System S)
      → All (IsOther w) ms
      → (run r uid mutate ms y).held w ≡ y.held w
  unfolding run
  run-held w [] y h = refl
  run-held w (m ∷ ms) y h = run-held w ms (act r uid mutate m y) h.1 ∙ act-held w m y h.0

  module _ (cell : S → Option String) (h : Honours r.store (key r uid) cell) where
    read-held :
        (w : ℕ) (v : String) (y : System S)
        → cell y.now ≡ some v
        → (act r uid mutate (reads w) y).held w ≡ ok v
    unfolding act
    read-held w v y c = let same : w == w ≡ true = ground arith in rw (same, h.reads y.now, c) refl

    write-applied :
        (w : ℕ) (v new : String) (z : System S)
        → z.held w ≡ ok v
        → cell z.now ≡ some v
        → update_bytes r (mutate w) v ≡ ok new
        → (act r uid mutate (writes w) z).applied ≡ w ∷ z.applied
    unfolding act
    write-applied w v new z held c u =
        let (a, b) = h.swaps (some v) new z.now c in rw (held, u, a) refl

    -- When a writer has read, and others have moved since, its write is applied unless one of the
    -- others' writes was applied in between: an update is refused only because another one went
    -- through. The bytes that were read are ones that the writer can change, and no bytes are not a
    -- resource.
    pub write-progress :
        (w : ℕ) (ms : List Move) (bytes v new : String) (y : System S) (e : Error)
        → r.codec.unmarshal "" ≡ err e
        → cell y.now ≡ some v
        → replay r uid mutate bytes y.applied ≡ ok v
        → update_bytes r (mutate w) v ≡ ok new
        → All (IsOther w) ms
        → (run r uid mutate ms (act r uid mutate (reads w) y)).applied ≡ y.applied
        → (act r uid mutate (writes w) (run r uid mutate ms (act r uid mutate (reads w) y))).applied
          ≡ w ∷ y.applied
    write-progress w ms bytes v new y e i c p u others still =
        let y1 : System S = act r uid mutate (reads w) y in
        let z : System S = run r uid mutate ms y1 in
        let held : z.held w ≡ ok v = run-held w ms y1 others ∙ read-held w v y c in
        let (now, there, done) =
          run-IsReplayed r uid mutate cell h e bytes ms y1 i
            (act-IsReplayed r uid mutate cell h e bytes (reads w) y i (v, c, p)) in
        let same : now ≡ v = ok-injective (sym done ∙ ap (replay r uid mutate bytes) still ∙ p) in
        write-applied w v new z held (there ∙ ap some same) u ∙ ap (λ l. w ∷ l) still
