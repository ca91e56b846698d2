-- ===== src/LbProxy/Examples.antt =====
-- Runs of internal/lbproxy/pool.go, and its theorems at concrete inputs.
use infrastructure.Prelude.{
  ℕ, ◌≡◌, ◌<◌, refl, ◌⊎◌, Bool, true, false, ok, All, List, [], ◌∷◌, none, some, String, arith,
}
use infrastructure.Prelude.Int.{pos, ◌+ℤ◌, ◌-ℤ◌}
use infrastructure.Prelude.Dict.{value_at, assign}
use infrastructure.LbProxy.Target.{
  unhealthy, check, traffic, new_target_state, eligible, observe, observe_all,
}
use infrastructure.LbProxy.Target.Streaks.{failed_in_row, dropped_in_row, usable-history}
use infrastructure.LbProxy.Group.{Target, TargetConfig, Group, States, new_group, pick}
use infrastructure.LbProxy.Group.Pick.{IsHealthyCandidate, IsOpenCandidate, pick_choice}
use infrastructure.LbProxy.Group.Balance.{total_current, pick_total, picks, picks-new_group}
use infrastructure.LbProxy.Config.{
  Listener, TargetGroup, Config, accepts, check_target, check_all, refuse_if,
}
use infrastructure.LbProxy.Config.Validate.{
  Library, validate, validate_groups, validate_group, check_backends, validate_listeners,
  validate_listener, check_routes, check_certificates,
}
use infrastructure.LbProxy.Config.Routes.{AreNamedApart}
use infrastructure.LbProxy.Config.Served.{IsServed, validate-IsServed}

-- Three failed connections in a row take a target out.
ejected :
    (observe_all 2 3 new_target_state
      (traffic (some "reset") ∷ traffic (some "reset") ∷ traffic (some "reset") ∷ [])).health
    ≡ unhealthy
unfolding observe_all new_target_state observe
ejected = refl

in_use :
    eligible (observe_all 2 3 new_target_state (check none ∷ traffic (some "reset") ∷ [])) ≡ true
unfolding observe_all new_target_state observe eligible
in_use = refl

usable-history_example :
    (failed_in_row 0 (check none ∷ traffic (some "reset") ∷ []) < 3)
    × (dropped_in_row 0 (check none ∷ traffic (some "reset") ∷ []) < 3)
usable-history_example =
    usable-history 2 3 (omega arith) (check none ∷ traffic (some "reset") ∷ []) in_use

abbrev join_host : String → ℕ → String
join_host address port = address

abbrev two_configs : List TargetConfig
two_configs =
    record { address = "10.0.0.1"; port = 80; weight = 5 }
    ∷ record { address = "10.0.0.2"; port = 80; weight = 1 }
    ∷ []

abbrev web : Group
web = (new_group join_host "web" two_configs []).0

abbrev web_states : States
web_states = (new_group join_host "web" two_configs []).1

abbrev nobody : ℕ → Bool
nobody i = false

abbrev heavy : Target
heavy = record {
  config = record { address = "10.0.0.1"; port = 80; weight = 5 };
  state = "web|10.0.0.1";
  current = pos 0;
}

abbrev light : Target
light = record {
  config = record { address = "10.0.0.2"; port = 80; weight = 1 };
  state = "web|10.0.0.2";
  current = pos 0;
}

first_pick : (pick web web_states nobody).0 ≡ some 0
unfolding new_group pick value_at assign ◌+ℤ◌ ◌-ℤ◌ new_target_state eligible
first_pick = refl

pick_choice_example :
    ((i : ℕ) × ((pick web web_states nobody).0 ≡ some i)
      × IsHealthyCandidate web web_states nobody i)
    ⊎ ((i : ℕ) × ((pick web web_states nobody).0 ≡ some i)
        × IsOpenCandidate web web_states nobody i
        × ((j : ℕ) → ¬ IsHealthyCandidate web web_states nobody j))
    ⊎ (((pick web web_states nobody).0 ≡ none)
        × ((j : ℕ) → ¬ IsOpenCandidate web web_states nobody j))
pick_choice_example = pick_choice web web_states nobody

pick_total_example :
    total_current (pick web web_states nobody).1.targets ≡ total_current web.targets
pick_total_example = pick_total web web_states nobody

picks-new_group_example :
    total_current
      (picks
        (new_group join_host "web" two_configs []).0
        ((web_states, nobody) ∷ (web_states, nobody) ∷ [])).targets
    ≡ pos 0
picks-new_group_example =
    picks-new_group join_host "web" two_configs []
      ((web_states, nobody) ∷ (web_states, nobody) ∷ [])

-- One plain listener on port 80 in front of one group.
abbrev front : Listener
front = record {
  name = "web";
  address = "";
  port = pos 80;
  protocol = "http";
  tls_mode = "";
  certificates = [];
  default_target_group = "pool";
  rules = [];
  egress = none;
}

abbrev pool : TargetGroup
pool = record {
  name = "pool";
  protocol = "http";
  backend_ca_pem = "";
  server_name = "";
  health_check = record {
    protocol = "http";
    path = "/";
    port = pos 0;
    interval_seconds = pos 5;
    timeout_seconds = pos 2;
    healthy_threshold = pos 2;
    unhealthy_threshold = pos 3;
  };
  targets = [];
}

abbrev site : Config
site = record { listeners = front ∷ []; target_groups = pool ∷ [] }

-- A library that accepts every text.
abbrev trusting : Library
trusting = record {
  is_ip = λ a. true;
  is_cidr = λ a. true;
  is_host_port = λ a. true;
  holds_certificate = λ a. true;
  is_key_pair = λ a b. true;
}

site_is_valid : validate trusting site ≡ ok tt
unfolding validate validate_groups validate_group check_backends validate_listeners
    validate_listener check_routes check_certificates check_target check_all accepts refuse_if
    value_at assign
site_is_valid = refl

validate-IsServed_example :
    All (IsServed (pool ∷ [])) (front ∷ []) × AreNamedApart trusting [] (front ∷ [])
validate-IsServed_example = validate-IsServed trusting site site_is_valid
