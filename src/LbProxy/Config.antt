-- ===== src/LbProxy/Config.antt =====
-- internal/lbproxy/config.go: the configuration of the load balancer's data plane, its defaults and
-- its validation. What Go's library decides of an address, a certificate, a key pair or a
-- CIDR, and its lower case, are parameters. An error is a text without its arguments.
pub mod Validate
pub mod Routes
pub mod Served
pub mod Defaults
use infrastructure.Prelude.{
  Bool, true, false, not, ◌&&◌, ◌||◌, List, [], ◌∷◌, map, Option, none, some, String, str_eq,
  if◌then◌else◌, Result, ok, err, failure, ◌>>=◌,
}
use infrastructure.Prelude.Int.{ℤ, pos, leb_ℤ, ltb_ℤ}
use infrastructure.Prelude.Dict.{value_at, assign}

pub record Certificate : Type 0 where
  pub cert_pem : String
  pub key_pem : String

pub record Rule : Type 0 where
  pub host : String
  pub path_prefix : String
  pub target_group : String

pub record EgressPolicy : Type 0 where
  pub allowed_domains : List String
  pub allowed_cidrs : List String
  pub resolver : String

pub record Listener : Type 0 where
  pub name : String
  pub address : String
  pub port : ℤ
  pub protocol : String
  pub tls_mode : String
  pub certificates : List Certificate
  pub default_target_group : String
  pub rules : List Rule
  pub egress : Option EgressPolicy

pub record HealthCheck : Type 0 where
  pub protocol : String
  pub path : String
  pub port : ℤ
  pub interval_seconds : ℤ
  pub timeout_seconds : ℤ
  pub healthy_threshold : ℤ
  pub unhealthy_threshold : ℤ

-- `Target`
pub record Backend : Type 0 where
  pub id : String
  pub address : String
  pub port : ℤ
  pub weight : ℤ

pub record TargetGroup : Type 0 where
  pub name : String
  pub protocol : String
  pub backend_ca_pem : String
  pub server_name : String
  pub health_check : HealthCheck
  pub targets : List Backend

pub record Config : Type 0 where
  pub listeners : List Listener
  pub target_groups : List TargetGroup

abbrev pub is_empty : String → Bool
is_empty s = str_eq s ""

abbrev pub default_text : String → String → String
default_text s d = if is_empty s then d else s

-- A value that is not positive is replaced.
abbrev pub positive_or : ℤ → ℤ → ℤ
positive_or n d = if leb_ℤ n (pos 0) then d else n

module _ (to_lower : String → String) (join_host_port : String → ℤ → String) where
  unfoldable pub default_listener : Listener → Listener
  default_listener l =
      let protocol = to_lower l.protocol in
      record l {
        protocol = protocol;
        tls_mode =
            if is_empty l.tls_mode
            then (if str_eq protocol "https"
                then "terminate"
                else if str_eq protocol "tls"
                then "passthrough"
                else l.tls_mode)
            else l.tls_mode;
      }

  unfoldable pub default_health_check : String → HealthCheck → HealthCheck
  default_health_check group_protocol hc =
      let protocol = default_text hc.protocol group_protocol in
      record {
        protocol = protocol;
        path = if is_empty hc.path && not (str_eq protocol "tcp") then "/" else hc.path;
        port = hc.port;
        interval_seconds = positive_or hc.interval_seconds (pos 5);
        timeout_seconds = positive_or hc.timeout_seconds (pos 2);
        healthy_threshold = positive_or hc.healthy_threshold (pos 2);
        unhealthy_threshold = positive_or hc.unhealthy_threshold (pos 3);
      }

  unfoldable pub default_backend : Backend → Backend
  default_backend t = record t {
    weight = positive_or t.weight (pos 1);
    id = default_text t.id (join_host_port t.address t.port);
  }

  unfoldable pub default_group : TargetGroup → TargetGroup
  unfolding default_health_check default_backend
  default_group g =
      let protocol = to_lower g.protocol in
      record g {
        protocol = protocol;
        health_check = default_health_check protocol g.health_check;
        targets = map default_backend g.targets;
      }

  unfoldable pub set_defaults : Config → Config
  unfolding default_listener default_group
  set_defaults c = record {
    listeners = map default_listener c.listeners;
    target_groups = map default_group c.target_groups;
  }

-- An `error` result.
abbrev pub Checked : Type 0
Checked = Result Unit

-- `if refused { return fmt.Errorf(…) }`, then the rest.
unfoldable pub refuse_if {ℓ} : {A : Type ℓ} → Bool → String → Result A → Result A
refuse_if refused message rest = if refused then err (failure message) else rest

abbrev pub is_backend_protocol : String → Bool
is_backend_protocol p = str_eq p "http" || str_eq p "https" || str_eq p "tcp"

abbrev pub is_egress : String → Bool
is_egress p = str_eq p "egress-http" || str_eq p "egress-tls" || str_eq p "egress-proxy"

abbrev pub one_of : String → List String → Bool
one_of p [] = false
one_of p (q ∷ qs) = if str_eq p q then true else one_of p qs

-- A test of every entry, the first that fails giving its error.
unfoldable pub check_all {ℓ} : {A : Type ℓ} → (A → Checked) → List A → Checked
check_all check [] = ok tt
check_all check (x ∷ xs) = let rest = check_all check xs in check x >>= λ u. rest

-- The group protocols that a listener can send to; `none` is the default case of the `switch`.
unfoldable pub accepts : String → String → Option (List String)
accepts protocol mode =
    if str_eq protocol "http" && is_empty mode
    then some ("http" ∷ [])
    else if str_eq protocol "https" && str_eq mode "terminate"
    then some ("http" ∷ [])
    else if str_eq protocol "https" && str_eq mode "reencrypt"
    then some ("https" ∷ [])
    else if str_eq protocol "tls" && str_eq mode "passthrough"
    then some ("tcp" ∷ "https" ∷ [])
    else if str_eq protocol "tcp" && is_empty mode
    then some ("tcp" ∷ [])
    else none

-- The closure `check` of a listener's validation.
unfoldable pub check_target : List (String × TargetGroup) → List String → String → Checked
check_target groups accepted name = elim (value_at name groups) [
  | none ↦ err (failure "target group is not declared")
  | some g ↦
      refuse_if (not (one_of g.protocol accepted)) "target group speaks another protocol" (ok tt)
]

abbrev pub out_of_range : ℤ → Bool
out_of_range port = ltb_ℤ port (pos 1) || ltb_ℤ (pos 65535) port

abbrev pub is_nil {ℓ} : {A : Type ℓ} → List A → Bool
is_nil [] = true
is_nil (x ∷ xs) = false
