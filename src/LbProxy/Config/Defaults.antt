-- ===== src/LbProxy/Config/Defaults.antt =====
-- Defaults are set once: a configuration that has them is not changed again.
use infrastructure.Prelude.{◌≡◌, refl, List, [], ◌∷◌, map, String, arith}
use mathlib.Core.Path.{ap₂}
use infrastructure.Prelude.Int.{ℤ}
use infrastructure.LbProxy.Config.{
  Listener, HealthCheck, Backend, TargetGroup, Config, default_text, positive_or, default_listener,
  default_health_check, default_backend, default_group, set_defaults,
}

default_text_twice : (s d : String) → default_text (default_text s d) d ≡ default_text s d
default_text_twice s d = ground arith

positive_or_twice : (n d : ℤ) → positive_or (positive_or n d) d ≡ positive_or n d
positive_or_twice n d = ground arith

map_twice {ℓ} :
    {A : Type ℓ} (f : A → A) (xs : List A) → ((x : A) → f (f x) ≡ f x) → map f (map f xs) ≡ map f xs
map_twice f [] h = refl
map_twice f (x ∷ xs) h = ap₂ (λ y ys. y ∷ ys) (h x) (map_twice f xs h)

module _ (to_lower : String → String) (join_host_port : String → ℤ → String)
    (lower_twice : (s : String) → to_lower (to_lower s) ≡ to_lower s) where
  default_listener_twice :
      (l : Listener)
      → default_listener to_lower join_host_port (default_listener to_lower join_host_port l)
        ≡ default_listener to_lower join_host_port l
  unfolding default_listener
  default_listener_twice l = ground (arith, lower_twice l.protocol)

  default_health_check_twice :
      (p : String) (hc : HealthCheck)
      → default_health_check to_lower join_host_port p
          (default_health_check to_lower join_host_port p hc)
        ≡ default_health_check to_lower join_host_port p hc
  unfolding default_health_check
  default_health_check_twice p hc = ground arith

  default_backend_twice :
      (t : Backend)
      → default_backend to_lower join_host_port (default_backend to_lower join_host_port t)
        ≡ default_backend to_lower join_host_port t
  unfolding default_backend
  default_backend_twice t = ground arith

  default_group_twice :
      (g : TargetGroup)
      → default_group to_lower join_host_port (default_group to_lower join_host_port g)
        ≡ default_group to_lower join_host_port g
  unfolding default_group
  default_group_twice g = ground (
    arith,
    lower_twice g.protocol,
    default_health_check_twice (to_lower g.protocol) g.health_check,
    map_twice (default_backend to_lower join_host_port) g.targets default_backend_twice,
  )

  -- Setting the defaults of a configuration that has them changes nothing, where lower case of lower
  -- case is itself.
  pub set_defaults_twice :
      (c : Config)
      → set_defaults to_lower join_host_port (set_defaults to_lower join_host_port c)
        ≡ set_defaults to_lower join_host_port c
  unfolding set_defaults
  set_defaults_twice c =
      ap₂ (λ ls gs. record { listeners = ls; target_groups = gs })
        (map_twice (default_listener to_lower join_host_port) c.listeners default_listener_twice)
        (map_twice (default_group to_lower join_host_port) c.target_groups default_group_twice)
