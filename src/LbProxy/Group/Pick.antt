-- ===== src/LbProxy/Group/Pick.antt =====
-- Which target `pick` chooses.
use infrastructure.Prelude.{
  ℕ, zero, suc, ◌+◌, ◌≡◌, refl, ap, sym, ◌∙◌, ◌⊎◌, ◌≢◌, inl, inr, Bool, true, false, List, [], ◌∷◌,
  none, some, arith, length, get_elem?, Bool-cases, Option-cases,
}
use infrastructure.Prelude.Int.{ℤ, pos, ltb_ℤ}
use infrastructure.Prelude.Dict.{value_at}
use infrastructure.LbProxy.Target.{
  Health, unknown, healthy, unhealthy, TargetState, is_usable, eligible,
}
use infrastructure.LbProxy.Group.{
  Target, Group, States, Best, better, target_eligible, candidates, any_candidate, spin, settle,
  pick,
}

-- A candidate is a target that is not excluded and passes the test.
abbrev pub IsCandidate : (Target → Bool) → (ℕ → Bool) → ℕ → List Target → Type 0
IsCandidate test exclude i ts =
    (t : Target) × (get_elem? ts i ≡ some t) × (exclude i ≡ false) × (test t ≡ true)

candidates_sound :
    (test : Target → Bool) (exclude : ℕ → Bool) (i k : ℕ) (ts : List Target)
    → get_elem? (candidates test exclude i ts) k ≡ some true
    → (t : Target) × (get_elem? ts k ≡ some t) × (exclude (i + k) ≡ false) × (test t ≡ true)
unfolding candidates
candidates_sound test exclude i k [] h = cc
candidates_sound test exclude i zero (t ∷ ts) h =
    let e : i + zero ≡ i = omega arith in (t, refl, rw e (ground arith), ground arith)
candidates_sound test exclude i (suc k) (t ∷ ts) h =
    let e : i + suc k ≡ suc i + k = omega arith in
    rw e (candidates_sound test exclude (suc i) k ts h)

candidates_complete :
    (test : Target → Bool) (exclude : ℕ → Bool) (i k : ℕ) (ts : List Target) (t : Target)
    → get_elem? ts k ≡ some t
    → exclude (i + k) ≡ false
    → test t ≡ true
    → any_candidate (candidates test exclude i ts) ≡ true
unfolding candidates any_candidate
candidates_complete test exclude i k [] t e x p = cc
candidates_complete test exclude i zero (u ∷ ts) t e x p =
    let j : i + zero ≡ i = omega arith in let x' = rw j at x in ground arith
candidates_complete test exclude i (suc k) (u ∷ ts) t e x p =
    let j : i + suc k ≡ suc i + k = omega arith in
    let later = candidates_complete test exclude (suc i) k ts t e (rw j at x) p in ground arith

better_cases :
    (i : ℕ) (c : ℤ) (best : Best) → (better i c best ≡ some (i, c)) ⊎ (better i c best ≡ best)
better_cases i c none = inl refl
better_cases i c (some (j, d)) = elim (Bool-cases (ltb_ℤ d c)) [
  | inl e ↦ inl (rw e)
  | inr e ↦ inr (rw e)
]

pub better_from :
    (i j : ℕ) (c d : ℤ) (best : Best)
    → better i c best ≡ some (j, d)
    → (best ≡ some (j, d)) ⊎ ((j ≡ i) × (d ≡ c))
better_from i j c d best h = elim (better_cases i c best) [
  | inl e ↦ inr (ground arith, ground arith)
  | inr e ↦ inl (sym e ∙ h)
]

-- The best of the loop is the one before it or a candidate.
spin_best :
    (i : ℕ) (ts : List Target) (mask : List Bool) (total : ℤ) (best : Best) (j : ℕ) (c : ℤ)
    → (spin i ts mask total best).2 ≡ some (j, c)
    → (best ≡ some (j, c)) ⊎ ((k : ℕ) × (j ≡ i + k) × (get_elem? mask k ≡ some true))
unfolding spin
spin_best i [] mask total best j c h = inl h
spin_best i (t ∷ ts) [] total best j c h = inl h
spin_best i (t ∷ ts) (false ∷ mask) total best j c h =
    elim (spin_best (suc i) ts mask total best j c h) [
      | inl e ↦ inl e
      | inr (k, e, m) ↦ inr (suc k, omega arith, m)
    ]
spin_best i (t ∷ ts) (true ∷ mask) total best j c h = elim (spin_best (suc i) ts mask _ _ j c h) [
  | inl e ↦ elim (better_from i j _ c best e) [
    | inl old ↦ inl old
    | inr (here, same) ↦ inr (0, omega arith, refl)
  ]
  | inr (k, e, m) ↦ inr (suc k, omega arith, m)
]

better-some : (i : ℕ) (c : ℤ) (best : Best) → better i c best ≢ none
better-some i c none h = cc
better-some i c (some (j, d)) h = ground arith

spin-some :
    (i : ℕ) (ts : List Target) (mask : List Bool) (total : ℤ) (best : Best)
    → length mask ≡ length ts
    → (best ≢ none) ⊎ (any_candidate mask ≡ true)
    → (spin i ts mask total best).2 ≢ none
unfolding spin any_candidate
spin-some i [] [] total best n (inl h) e = h e
spin-some i [] [] total best n (inr h) e = cc
spin-some i [] (b ∷ mask) total best n h e = absurd (omega arith)
spin-some i (t ∷ ts) [] total best n h e = absurd (omega arith)
spin-some i (t ∷ ts) (false ∷ mask) total best n h e =
    spin-some (suc i) ts mask total best (omega arith) h e
spin-some i (t ∷ ts) (true ∷ mask) total best n h e =
    spin-some (suc i) ts mask _ _ (omega arith) (inl (better-some i _ best)) e

length-candidates :
    (test : Target → Bool) (exclude : ℕ → Bool) (i : ℕ) (ts : List Target)
    → length (candidates test exclude i ts) ≡ length ts
unfolding candidates
length-candidates test exclude i [] = refl
length-candidates test exclude i (t ∷ ts) = ap suc (length-candidates test exclude (suc i) ts)

pub settle_picks :
    (h : Group) (s : List Target × ℤ × Best) (i : ℕ) (c : ℤ)
    → s.2 ≡ some (i, c)
    → (settle h s).0 ≡ some i
unfolding settle
settle_picks h (ts, total, none) i c e = cc
settle_picks h (ts, total, some (j, d)) i c e = ground arith

module _ (g : Group) (exclude : ℕ → Bool) where
  abbrev pub spun : (Target → Bool) → List Target × ℤ × Best
  spun test = spin 0 g.targets (candidates test exclude 0 g.targets) (pos 0) none

  pub spun-some :
      (test : Target → Bool)
      → any_candidate (candidates test exclude 0 g.targets) ≡ true
      → (spun test).2 ≢ none
  spun-some test e =
      spin-some 0 g.targets _ (pos 0) none (length-candidates test exclude 0 g.targets) (inr e)

  settle-some :
      (h : Group) (test : Target → Bool)
      → any_candidate (candidates test exclude 0 g.targets) ≡ true
      → (i : ℕ) × ((settle h (spun test)).0 ≡ some i) × IsCandidate test exclude i g.targets
  settle-some h test e = elim (Option-cases (spun test).2) [
    | inl nothing ↦ absurd (spun-some test e nothing)
    | inr ((i, c), found) ↦ elim (spin_best 0 g.targets _ (pos 0) none i c found) [
      | inl before ↦ cc
      | inr (k, at, m) ↦
          let same : i ≡ k = omega arith in
          (
            i,
            settle_picks h (spun test) i c found,
            rw same (
                let (t, place, x, p) = candidates_sound test exclude 0 k g.targets m in
                let z : 0 + k ≡ k = omega arith in (t, place, rw z at x, p)),
          )
    ]
  ]

  pub candidate-any :
      (test : Target → Bool) (i : ℕ)
      → IsCandidate test exclude i g.targets
      → any_candidate (candidates test exclude 0 g.targets) ≡ true
  candidate-any test i (t, e, x, p) =
      let z : 0 + i ≡ i = omega arith in
      candidates_complete test exclude 0 i g.targets t e (rw z x) p

false-true : false ≢ true
false-true h = cc

usable_health : (h : Health) → is_usable h ≡ true → h ≢ unhealthy
usable_health unknown p e = cc
usable_health healthy p e = cc
usable_health unhealthy p e = cc

health_usable : (h : Health) → h ≢ unhealthy → is_usable h ≡ true
health_usable unknown n = refl
health_usable healthy n = refl
health_usable unhealthy n = absurd (n refl)

module _ (g : Group) (states : States) (exclude : ℕ → Bool) where
  -- A target that traffic may go to.
  abbrev pub IsHealthyCandidate : ℕ → Type 0
  IsHealthyCandidate i =
      (t : Target) × (s : TargetState) × (get_elem? g.targets i ≡ some t)
      × (exclude i ≡ false)
      × (value_at t.state states ≡ some s)
      × (s.health ≢ unhealthy)

  abbrev pub IsOpenCandidate : ℕ → Type 0
  IsOpenCandidate i = IsCandidate (λ t. true) exclude i g.targets

  eligible-IsHealthyCandidate :
      (i : ℕ) → IsCandidate (target_eligible states) exclude i g.targets → IsHealthyCandidate i
  unfolding target_eligible eligible
  eligible-IsHealthyCandidate i (t, there, x, p) = elim (Option-cases (value_at t.state states)) [
    | inl e ↦ absurd (false-true (rw (e, target_eligible) at p))
    | inr (s, e) ↦ (t, s, there, x, e, usable_health s.health (rw (e, target_eligible) at p))
  ]

  IsHealthyCandidate-eligible :
      (i : ℕ) → IsHealthyCandidate i → IsCandidate (target_eligible states) exclude i g.targets
  unfolding target_eligible eligible
  IsHealthyCandidate-eligible i (t, s, there, x, e, h) =
      (t, there, x, rw (e, target_eligible) (health_usable s.health h))

  -- `pick` returns a target that is neither unhealthy nor excluded, if there is one; otherwise any
  -- target that is not excluded; and nothing exactly when every target is excluded.
  pub pick_choice :
      ((i : ℕ) × ((pick g states exclude).0 ≡ some i) × IsHealthyCandidate i)
      ⊎ ((i : ℕ) × ((pick g states exclude).0 ≡ some i)
          × IsOpenCandidate i
          × ((j : ℕ) → ¬ IsHealthyCandidate j))
      ⊎ (((pick g states exclude).0 ≡ none) × ((j : ℕ) → ¬ IsOpenCandidate j))
  unfolding pick
  pick_choice =
      elim (Bool-cases (any_candidate (candidates (target_eligible states) exclude 0 g.targets))) [
        | inl e ↦
            let (i, picked, c) =
              settle-some g exclude (record g { failing_open = false }) (target_eligible states)
                e in
            inl (i, rw e picked, eligible-IsHealthyCandidate i c)
        | inr e ↦ elim (Bool-cases (any_candidate (candidates (λ t. true) exclude 0 g.targets))) [
          | inl d ↦
              let (i, picked, c) =
                settle-some g exclude (record g { failing_open = true }) (λ t. true) d in
              inr (
                inl (
                  i,
                  rw (e, d) picked,
                  c,
                  λ j k. cc (
                      candidate-any g exclude (target_eligible states) j
                        (IsHealthyCandidate-eligible j k)),
                ))
          | inr d ↦ inr (inr (rw (e, d), λ j k. cc (candidate-any g exclude (λ t. true) j k)))
        ]
      ]
