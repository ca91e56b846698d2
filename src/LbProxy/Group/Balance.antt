-- ===== src/LbProxy/Group/Balance.antt =====
-- The counters of the smooth weighted round robin: what a pick moves among the targets.
use infrastructure.Prelude.{
  ℕ, zero, suc, String, ◌+◌, ◌<◌, ◌≤◌, ◌≢◌, ◌≡◌, refl, sym, ap, ◌∙◌, ◌⊎◌, inl, inr, Bool, true,
  false, List, [], ◌∷◌, none, some, arith, length, get_elem?, Bool-cases, ltb→lt, Option-cases,
}
use infrastructure.Prelude.Int.{
  ℤ, pos, pos_part, neg_part, ◌+ℤ◌, ◌≤ℤ◌, ltb_ℤ, int_laws, parts_of_eq,
}
use mathlib.Core.Option.{some-injective}
use infrastructure.LbProxy.Group.Pick.{spun, spun-some, better_from, settle_picks, candidate-any}
use infrastructure.LbProxy.Group.{
  Target, TargetConfig, Group, States, Best, better, target_eligible, candidates, any_candidate,
  spin, charge, settle, pick, new_group, build_targets,
}

-- The sum of the counters of a group's targets.
pub total_current : List Target → ℤ
total_current [] = pos 0
total_current (t ∷ ts) = t.current +ℤ total_current ts

spin_total :
    (i : ℕ) (ts : List Target) (mask : List Bool) (total : ℤ) (best : Best)
    → total_current (spin i ts mask total best).0 +ℤ total
      ≡ total_current ts +ℤ (spin i ts mask total best).1
unfolding spin total_current
spin_total i [] mask total best = refl
spin_total i (t ∷ ts) [] total best = refl
spin_total i (t ∷ ts) (false ∷ mask) total best =
    omega (int_laws, parts_of_eq (spin_total (suc i) ts mask total best))
spin_total i (t ∷ ts) (true ∷ mask) total best = omega (
  int_laws,
  parts_of_eq (
      spin_total (suc i) ts mask (total +ℤ pos t.config.weight)
        (better i (t.current +ℤ pos t.config.weight) best)),
)

charge_total :
    (i : ℕ) (total : ℤ) (ts : List Target)
    → i < length ts
    → total_current (charge i total ts) +ℤ total ≡ total_current ts
unfolding charge total_current
charge_total i total [] h = absurd (omega arith)
charge_total zero total (t ∷ ts) h = omega int_laws
charge_total (suc i) total (t ∷ ts) h =
    omega (int_laws, parts_of_eq (charge_total i total ts (omega arith)))

spin-length :
    (i : ℕ) (ts : List Target) (mask : List Bool) (total : ℤ) (best : Best)
    → length (spin i ts mask total best).0 ≡ length ts
unfolding spin
spin-length i [] mask total best = refl
spin-length i (t ∷ ts) [] total best = refl
spin-length i (t ∷ ts) (b ∷ mask) total best = ap suc (spin-length (suc i) ts mask _ _)

-- The best position lies within the group.
Within : ℕ → Best → Type 0
Within n none = Unit
Within n (some (j, c)) = j < n

better-Within : (n i : ℕ) (c : ℤ) (best : Best) → i < n → Within n best → Within n (better i c best)
unfolding Within
better-Within n i c none h w = h
better-Within n i c (some (j, d)) h w = elim (Bool-cases (ltb_ℤ d c)) [
  | inl e ↦ rw e h
  | inr e ↦ rw e w
]

spin-Within :
    (n i : ℕ) (ts : List Target) (mask : List Bool) (total : ℤ) (best : Best)
    → i + length ts ≤ n
    → Within n best
    → Within n (spin i ts mask total best).2
unfolding spin
spin-Within n i [] mask total best h w = w
spin-Within n i (t ∷ ts) [] total best h w = w
spin-Within n i (t ∷ ts) (false ∷ mask) total best h w =
    spin-Within n (suc i) ts mask _ best (omega arith) w
spin-Within n i (t ∷ ts) (true ∷ mask) total best h w =
    spin-Within n (suc i) ts mask _ _ (omega arith) (better-Within n i _ best (omega arith) w)

settle_total :
    (g : Group) (before : List Target) (s : List Target × ℤ × Best)
    → total_current s.0 ≡ total_current before +ℤ s.1
    → Within (length s.0) s.2
    → s.2 ≢ none
    → total_current (settle g s).1.targets ≡ total_current before
unfolding settle Within
settle_total g before (ts, total, none) e w h = absurd (h refl)
settle_total g before (ts, total, some (i, c)) e w h =
    omega (int_laws, parts_of_eq e, parts_of_eq (charge_total i total ts w))

-- No raised counter of a candidate is above `c`.
abbrev Under : ℤ → List Target → List Bool → Type 0
Under c [] mask = Unit
Under c (t ∷ ts) [] = Unit
Under c (t ∷ ts) (b ∷ mask) = (b ≡ true → t.current +ℤ pos t.config.weight ≤ℤ c) × Under c ts mask

best-le : (best : Best) (j b : ℕ) (c d : ℤ) → best ≡ some (j, c) → best ≡ some (b, d) → d ≤ℤ c
best-le best j b c d h e = ground arith

-- The better of two is no smaller than either.
better-le :
    (i j : ℕ) (x c : ℤ) (best : Best)
    → ((b : ℕ) (d : ℤ) → better i x best ≡ some (b, d) → d ≤ℤ c)
    → (x ≤ℤ c) × ((b : ℕ) (d : ℤ) → best ≡ some (b, d) → d ≤ℤ c)
better-le i j x c none h = (h i x refl, λ b d e. cc)
better-le i j x c (some (b', d')) h = elim (Bool-cases (ltb_ℤ d' x)) [
  | inl e ↦
      let up = h i x (rw e) in
      (up, λ b d p. ground (arith, ltb→lt (pos_part d' + neg_part x) (pos_part x + neg_part d')))
  | inr e ↦ let up = h b' d' (rw e) in (ground arith, λ b d p. ground arith)
]

-- The counter of the best is the largest raised counter.
spin_max :
    (i : ℕ) (ts : List Target) (mask : List Bool) (total : ℤ) (best : Best) (j : ℕ) (c : ℤ)
    → (spin i ts mask total best).2 ≡ some (j, c)
    → ((b : ℕ) (d : ℤ) → best ≡ some (b, d) → d ≤ℤ c) × Under c ts mask
unfolding spin
spin_max i [] mask total best j c h = (λ b d e. best-le best j b c d h e, tt)
spin_max i (t ∷ ts) [] total best j c h = (λ b d e. best-le best j b c d h e, tt)
spin_max i (t ∷ ts) (false ∷ mask) total best j c h =
    let later = spin_max (suc i) ts mask total best j c h in (later.0, (λ e. cc, later.1))
spin_max i (t ∷ ts) (true ∷ mask) total best j c h =
    let later = spin_max (suc i) ts mask _ _ j c h in
    let both = better-le i j _ c best later.0 in (both.1, (λ e. both.0, later.1))

spin_raised :
    (i : ℕ) (ts : List Target) (mask : List Bool) (total : ℤ) (best : Best) (j : ℕ) (c : ℤ)
    → (spin i ts mask total best).2 ≡ some (j, c)
    → (best ≡ some (j, c))
      ⊎ ((k : ℕ) × (t : Target) × (j ≡ i + k)
          × (get_elem? ts k ≡ some t)
          × (c ≡ t.current +ℤ pos t.config.weight))
unfolding spin
spin_raised i [] mask total best j c h = inl h
spin_raised i (t ∷ ts) [] total best j c h = inl h
spin_raised i (t ∷ ts) (false ∷ mask) total best j c h =
    elim (spin_raised (suc i) ts mask total best j c h) [
      | inl e ↦ inl e
      | inr (k, u, e, at_k, r) ↦ inr (suc k, u, omega arith, at_k, r)
    ]
spin_raised i (t ∷ ts) (true ∷ mask) total best j c h =
    elim (spin_raised (suc i) ts mask _ _ j c h) [
      | inl e ↦ elim (better_from i j _ c best e) [
        | inl old ↦ inl old
        | inr (here, same) ↦ inr (0, t, omega arith, refl, same)
      ]
      | inr (k, u, e, at_k, r) ↦ inr (suc k, u, omega arith, at_k, r)
    ]

Under-candidates :
    (c : ℤ) (test : Target → Bool) (exclude : ℕ → Bool) (i k : ℕ) (ts : List Target) (t : Target)
    → Under c ts (candidates test exclude i ts)
    → get_elem? ts k ≡ some t
    → exclude (i + k) ≡ false
    → test t ≡ true
    → t.current +ℤ pos t.config.weight ≤ℤ c
unfolding candidates
Under-candidates c test exclude i k [] t h e x p = cc
Under-candidates c test exclude i zero (u ∷ ts) t h e x p =
    let j : i + zero ≡ i = omega arith in
    let same = some-injective u t e in
    let x' : exclude i ≡ false = rw j at x in
    let p' : test u ≡ true = rw same p in rw (← same) (h.0 (rw (x', p') refl))
Under-candidates c test exclude i (suc k) (u ∷ ts) t h e x p =
    let j : i + suc k ≡ suc i + k = omega arith in
    Under-candidates c test exclude (suc i) k ts t h.1 e (rw j at x) p

spun_total :
    (g h : Group) (exclude : ℕ → Bool) (test : Target → Bool)
    → any_candidate (candidates test exclude 0 g.targets) ≡ true
    → total_current (settle h (spun g exclude test)).1.targets ≡ total_current g.targets
unfolding Within
spun_total g h exclude test e =
    settle_total h g.targets (spun g exclude test)
      (omega (
        int_laws,
        parts_of_eq (spin_total 0 g.targets (candidates test exclude 0 g.targets) (pos 0) none),
      ))
      (rw (spin-length 0 g.targets (candidates test exclude 0 g.targets) (pos 0) none)
        (spin-Within _ 0 g.targets _ (pos 0) none (omega arith) tt))
      (spun-some g exclude test e)

-- A pick, whatever it chooses, leaves the sum of the counters as it was.
pub pick_total :
    (g : Group) (states : States) (exclude : ℕ → Bool)
    → total_current (pick g states exclude).1.targets ≡ total_current g.targets
unfolding pick
pick_total g states exclude =
    elim (Bool-cases (any_candidate (candidates (target_eligible states) exclude 0 g.targets))) [
      | inl e ↦
          rw e (spun_total g (record g { failing_open = false }) exclude (target_eligible states) e)
      | inr e ↦ elim (Bool-cases (any_candidate (candidates (λ t. true) exclude 0 g.targets))) [
        | inl d ↦ rw (e, d) (spun_total g (record g { failing_open = true }) exclude (λ t. true) d)
        | inr d ↦ rw (e, d)
      ]
    ]

abbrev pub raised : Target → ℤ
raised t = t.current +ℤ pos t.config.weight

-- While some eligible target is not excluded, the one that `pick` returns has the largest counter
-- among them, each raised by its weight.
pub pick_max :
    (g : Group) (states : States) (exclude : ℕ → Bool) (i k : ℕ) (t u : Target)
    → (pick g states exclude).0 ≡ some i
    → get_elem? g.targets i ≡ some t
    → get_elem? g.targets k ≡ some u
    → exclude k ≡ false
    → target_eligible states u ≡ true
    → raised u ≤ℤ raised t
unfolding pick
pick_max g states exclude i k t u picked at_i at_k x p =
    let test = target_eligible states in
    let any = candidate-any g exclude test k (u, at_k, x, p) in
    elim (Option-cases (spun g exclude test).2) [
      | inl nothing ↦ absurd (spun-some g exclude test any nothing)
      | inr ((j, c), found) ↦
          let same : j ≡ i = some-injective j i (
            sym (settle_picks (record g { failing_open = false }) (spun g exclude test) j c found)
            ∙ rw any at picked) in
          elim (spin_raised 0 g.targets (candidates test exclude 0 g.targets) (pos 0) none j c
            found) [
              | inl before ↦ cc
              | inr (n, v, place, at_n, r) ↦
                  let here : n ≡ i = omega arith in
                  let v_t : v ≡ t = some-injective v t (sym at_n ∙ rw here at_i) in
                  let up = (spin_max 0 g.targets _ (pos 0) none j c found).1 in
                  let z : 0 + k ≡ k = omega arith in
                  rw (← v_t, ← r)
                    (Under-candidates c test exclude 0 k g.targets u up at_k (rw z x) p)
            ]
    ]

-- One after another, each with the states and the exclusions of its moment.
pub picks : Group → List (States × (ℕ → Bool)) → Group
picks g [] = g
picks g ((states, exclude) ∷ calls) = picks (pick g states exclude).1 calls

picks_total :
    (g : Group) (calls : List (States × (ℕ → Bool)))
    → total_current (picks g calls).targets ≡ total_current g.targets
unfolding picks
picks_total g [] = refl
picks_total g ((states, exclude) ∷ calls) =
    picks_total (pick g states exclude).1 calls ∙ pick_total g states exclude

build_targets_total :
    (join : String → ℕ → String) (name : String) (configs : List TargetConfig) (states : States)
    → total_current (build_targets join name configs states).0 ≡ pos 0
unfolding build_targets total_current
build_targets_total join name [] states = refl
build_targets_total join name (t ∷ ts) states =
    omega (int_laws, parts_of_eq (build_targets_total join name ts _))

-- From a new group on, the counters of the targets always sum up to zero.
pub picks-new_group :
    (join : String → ℕ → String) (name : String) (configs : List TargetConfig) (states : States)
    (calls : List (States × (ℕ → Bool)))
    → total_current (picks (new_group join name configs states).0 calls).targets ≡ pos 0
unfolding new_group
picks-new_group join name configs states calls =
    picks_total (new_group join name configs states).0 calls
    ∙ build_targets_total join name configs states
