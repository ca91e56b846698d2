-- ===== src/LbProxy/Group.antt =====
-- internal/lbproxy/pool.go: a target group and its smooth weighted round robin.
-- The target states are shared by address, also across groups and reloads, so they are a store with
-- `stateKey` keys. A target is named by its position in the group. The transports and the log are
-- not modelled.
pub mod Pick
pub mod Balance
use Prim.Native.String.{◌++◌ as text_append}
use infrastructure.Prelude.{
  ℕ, zero, suc, ◌+◌, String, Bool, true, false, not, ◌&&◌, ◌||◌, List, [], ◌∷◌, ◌++◌, Option, none,
  some, if◌then◌else◌,
}
use infrastructure.Prelude.Dict.{value_at, assign}
use infrastructure.Prelude.Int.{ℤ, pos, ◌+ℤ◌, ◌-ℤ◌, ltb_ℤ}
use infrastructure.LbProxy.Target.{TargetState, new_target_state, eligible}

-- `Target`, as configured. `join` is `net.JoinHostPort` of the address and the port.
pub record TargetConfig : Type 0 where
  pub address : String
  pub port : ℕ
  pub weight : ℕ

pub record Target : Type 0 where
  pub config : TargetConfig
  pub state : String
  pub current : ℤ

pub record Group : Type 0 where
  pub name : String
  pub targets : List Target
  pub failing_open : Bool

abbrev pub States : Type 0
States = List (String × TargetState)

module _ (join : String → ℕ → String) where
  unfoldable pub state_key : String → String → ℕ → String
  state_key group address port = text_append group (text_append "|" (join address port))

  -- The loop of `newGroup`, with the targets built and the states.
  unfoldable pub build_targets : String → List TargetConfig → States → List Target × States
  unfolding state_key
  build_targets name [] states = ([], states)
  build_targets name (t ∷ ts) states =
      let key = state_key name t.address t.port in
      let states' : States = elim (value_at key states) [
        | none ↦ assign key new_target_state states
        | some st ↦ states
      ] in
      let (rest, final) = build_targets name ts states' in
      (record { config = t; state = key; current = pos 0 } ∷ rest, final)

  unfoldable pub new_group : String → List TargetConfig → States → Group × States
  unfolding build_targets
  new_group name configs states =
      let (targets, states') = build_targets name configs states in
      (record { name = name; targets = targets; failing_open = false }, states')

-- `t.state.eligible()`; every target's state is in the store.
unfoldable pub target_eligible : States → Target → Bool
target_eligible states t = elim (value_at t.state states) [ none ↦ false | some s ↦ eligible s ]

-- The candidates as a mask over the targets from position `i` on: those that pass `test` and are
-- not excluded.
unfoldable pub candidates : (Target → Bool) → (ℕ → Bool) → ℕ → List Target → List Bool
candidates test exclude i [] = []
candidates test exclude i (t ∷ ts) =
    (not (exclude i) && test t) ∷ candidates test exclude (suc i) ts

-- `len(candidates) > 0`
unfoldable pub any_candidate : List Bool → Bool
any_candidate [] = false
any_candidate (b ∷ bs) = if b then true else any_candidate bs

-- The best target so far: its position and its `current`, which no later round changes.
abbrev pub Best : Type 0
Best = Option (ℕ × ℤ)

abbrev pub better : ℕ → ℤ → Best → Best
better i c none = some (i, c)
better i c (some (j, d)) = if ltb_ℤ d c then some (i, c) else some (j, d)

-- The loop over the candidates, from position `i` on: the targets, the total and the best.
unfoldable pub spin : ℕ → List Target → List Bool → ℤ → Best → List Target × ℤ × Best
spin i [] mask total best = ([], total, best)
spin i (t ∷ ts) [] total best = (t ∷ ts, total, best)
spin i (t ∷ ts) (b ∷ mask) total best =
    let raised = t.current +ℤ pos t.config.weight in
    let (ts', total', best') =
      spin (suc i) ts mask (if b then total +ℤ pos t.config.weight else total)
        (if b then better i raised best else best) in
    ((if b then record t { current = raised } else t) ∷ ts', total', best')

-- `best.current -= total` at a position.
unfoldable pub charge : ℕ → ℤ → List Target → List Target
charge i total [] = []
charge zero total (t ∷ ts) = record t { current = t.current -ℤ total } ∷ ts
charge (suc i) total (t ∷ ts) = t ∷ charge i total ts

unfoldable pub settle : Group → List Target × ℤ × Best → Option ℕ × Group
unfolding charge
settle g (targets, total, none) = (none, record g { targets = targets })
settle g (targets, total, some (i, c)) = (some i, record g { targets = charge i total targets })

unfoldable pub pick : Group → States → (ℕ → Bool) → Option ℕ × Group
unfolding target_eligible candidates any_candidate spin settle
pick g states exclude =
    let healthy = candidates (target_eligible states) exclude 0 g.targets in
    let open_mask = candidates (λ t. true) exclude 0 g.targets in
    if any_candidate healthy
    then settle (record g { failing_open = false }) (spin 0 g.targets healthy (pos 0) none)
    else if any_candidate open_mask
    then settle (record g { failing_open = true }) (spin 0 g.targets open_mask (pos 0) none)
    else (none, g)
