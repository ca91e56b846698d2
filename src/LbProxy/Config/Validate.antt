-- ===== src/LbProxy/Config/Validate.antt =====
-- The validation of config.go, on a configuration that has its defaults.
use infrastructure.Prelude.{
  Bool, true, false, not, ◌&&◌, ◌||◌, List, [], ◌∷◌, Option, none, some, String, str_eq,
  if◌then◌else◌, Result, ok, err, failure, ◌>>=◌,
}
use infrastructure.Prelude.Int.{pos, ltb_ℤ}
use infrastructure.Prelude.Dict.{value_at, assign}
use text.Mathlib.Text.{starts_with, find?}
use infrastructure.LbProxy.Config.{
  Rule, EgressPolicy, Listener, Backend, TargetGroup, Config, Checked, is_empty, refuse_if,
  is_backend_protocol, is_egress, one_of, check_all, accepts, check_target, out_of_range, is_nil,
}

-- What the configuration asks of Go's library: an IP address (net.ParseIP), a CIDR (net.ParseCIDR),
-- a host and port (net.SplitHostPort), a PEM text with a certificate, and a certificate with its key.
pub record Library : Type 0 where
  pub is_ip : String → Bool
  pub is_cidr : String → Bool
  pub is_host_port : String → Bool
  pub holds_certificate : String → Bool
  pub is_key_pair : String → String → Bool

abbrev pub contains : String → String → Bool
contains s part = elim (find? s part) [ none ↦ false | some i ↦ true ]

-- Something is left of the domain behind "*.", and it has none of "/: ".
unfoldable pub is_domain : String → Bool
is_domain d =
    not (is_empty d || str_eq d "*." || contains d "/" || contains d ":" || contains d " ")

module _ (lib : Library) where
  -- One target; `ids` are those before it.
  unfoldable pub check_backends : List String → List Backend → Checked
  check_backends ids [] = ok tt
  check_backends ids (t ∷ ts) =
      let rest = check_backends (t.id ∷ ids) ts in
      refuse_if (not (lib.is_ip t.address)) "target address is not an IP" (
        refuse_if (out_of_range t.port) "target port is out of range" (
          refuse_if (ltb_ℤ (pos 1000) t.weight) "target weight exceeds 1000"
            (refuse_if (one_of t.id ids) "target declared twice" rest)))

  unfoldable pub validate_group : TargetGroup → Checked
  unfolding check_backends
  validate_group g =
      let hc = g.health_check in
      refuse_if (is_empty g.name) "a target group needs a name" (
        refuse_if (not (is_backend_protocol g.protocol)) "protocol is not http, https or tcp" (
          refuse_if (not (is_empty g.backend_ca_pem) && not (str_eq g.protocol "https"))
            "backendCaPem needs protocol https"
            (refuse_if
              (not (is_empty g.backend_ca_pem) && not (lib.holds_certificate g.backend_ca_pem))
              "backendCaPem holds no certificate"
              (refuse_if (not (is_backend_protocol hc.protocol))
                "health check protocol is not supported"
                (refuse_if (not (str_eq hc.protocol "tcp") && not (starts_with hc.path "/"))
                  "health check path must start with /"
                  (refuse_if (ltb_ℤ hc.port (pos 0) || ltb_ℤ (pos 65535) hc.port)
                    "health check port is out of range"
                    (refuse_if (ltb_ℤ hc.interval_seconds hc.timeout_seconds)
                      "health check timeout exceeds its interval"
                      (check_backends [] g.targets))))))))

  -- The errors of `compilePolicy`.
  unfoldable pub compile_policy : EgressPolicy → Checked
  compile_policy p = do
    _ ←
        check_all
          (λ c.
            refuse_if (not (lib.is_ip c || lib.is_cidr c))
              "allowed cidr is neither an address nor a CIDR" (ok tt))
          p.allowed_cidrs
    refuse_if (not (is_empty p.resolver) && not (lib.is_host_port p.resolver))
        "resolver is not addr:port" (ok tt)

  unfoldable pub check_policy : EgressPolicy → Checked
  unfolding compile_policy
  check_policy p = do
    _ ←
        check_all (λ d. refuse_if (not (is_domain d)) "allowed domain is not a domain" (ok tt))
          p.allowed_domains
    compile_policy p

  unfoldable pub validate_egress : Listener → Checked
  unfolding check_policy
  validate_egress l = elim l.egress [
    | none ↦ err (failure "needs an egress policy")
    | some p ↦
        refuse_if
          (not (is_empty l.tls_mode)
            || not (is_nil l.certificates)
            || not (is_empty l.default_target_group)
            || not (is_nil l.rules))
          "takes no tls mode, certificates, target group nor rules" (check_policy p)
  ]

  unfoldable pub check_certificates : Listener → Checked
  check_certificates l =
      if str_eq l.protocol "https"
      then refuse_if (is_nil l.certificates) "https needs a certificate" (
          check_all
            (λ c. refuse_if (not (lib.is_key_pair c.cert_pem c.key_pem)) "certificate" (ok tt))
            l.certificates)
      else refuse_if (not (is_nil l.certificates)) "only https serves certificates" (ok tt)

  unfoldable pub check_rule : Listener → List (String × TargetGroup) → List String → Rule → Checked
  check_rule l groups accepted r =
      refuse_if (is_empty r.host && is_empty r.path_prefix) "a rule needs a host or a path prefix" (
        refuse_if (not (is_empty r.path_prefix) && not (starts_with r.path_prefix "/"))
          "path prefix must start with /"
          (refuse_if (str_eq l.protocol "tls" && not (is_empty r.path_prefix))
            "tls rules match the SNI only" (check_target groups accepted r.target_group)))

  unfoldable pub check_routes : Listener → List (String × TargetGroup) → List String → Checked
  unfolding check_rule
  check_routes l groups accepted = do
    _ ← check_certificates l
    _ ← check_target groups accepted l.default_target_group
    refuse_if (str_eq l.protocol "tcp" && not (is_nil l.rules)) "tcp has no rules"
        (check_all (check_rule l groups accepted) l.rules)

  -- The part after the `switch`.
  abbrev pub check_served : Listener → List (String × TargetGroup) → Option (List String) → Checked
  check_served l groups none = err (failure "protocol with tls mode is not supported")
  check_served l groups (some accepted) = check_routes l groups accepted

  abbrev pub has_policy : Listener → Bool
  has_policy l = elim l.egress [ none ↦ false | some p ↦ true ]

  unfoldable pub validate_listener : List (String × TargetGroup) → Listener → Checked
  unfolding validate_egress
  validate_listener groups l = refuse_if (is_empty l.name) "a listener needs a name" (
      refuse_if (not (is_empty l.address) && not (lib.is_ip l.address)) "address is not an IP" (
        refuse_if (out_of_range l.port) "port is out of range" (
          if is_egress l.protocol
          then validate_egress l
          else refuse_if (has_policy l) "only egress listeners take an egress policy"
              (check_served l groups (accepts l.protocol l.tls_mode)))))

  abbrev pub is_declared : String → List (String × TargetGroup) → Bool
  is_declared name groups = elim (value_at name groups) [ none ↦ false | some g ↦ true ]

  -- The groups by name, after `groups`.
  unfoldable pub validate_groups :
      List (String × TargetGroup) → List TargetGroup → Result (List (String × TargetGroup))
  validate_groups groups [] = ok groups
  validate_groups groups (g ∷ gs) =
      let rest = validate_groups (assign g.name g groups) gs in
      do
        _ ← validate_group g
        refuse_if (is_declared g.name groups) "target group declared twice" rest

  -- The listeners after those with `names`.
  unfoldable pub validate_listeners :
      List (String × TargetGroup) → List String → List Listener → Checked
  validate_listeners groups names [] = ok tt
  validate_listeners groups names (l ∷ ls) =
      let rest = validate_listeners groups (l.name ∷ names) ls in
      do
        _ ← validate_listener groups l
        refuse_if (one_of l.name names) "listener declared twice" rest

  unfoldable pub validate : Config → Checked
  unfolding validate_groups validate_listeners
  validate c = do
    groups ← validate_groups [] c.target_groups
    validate_listeners groups [] c.listeners
