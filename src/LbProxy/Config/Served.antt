-- ===== src/LbProxy/Config/Served.antt =====
-- Which target groups the listeners of an accepted configuration are served by.
use mathlib.Core.Option.{some-injective}
use infrastructure.Prelude.{
  true, false, ◌&&◌, ◌≡◌, ◌≢◌, ◌⊎◌, inl, inr, subst, List, [], ◌∷◌, none, some, String, str_eq,
  eq_iff, ok, All, Any, arith, Bool-cases,
}
use infrastructure.Prelude.Int.{pos, ◌≤ℤ◌}
use infrastructure.LbProxy.Config.{
  Rule, Listener, TargetGroup, Config, is_empty, is_egress, one_of, accepts, out_of_range,
}
use infrastructure.LbProxy.Config.Validate.{Library, validate}
use infrastructure.LbProxy.Config.Routes.{IsTarget, IsRouted, AreNamedApart, validate-IsRouted}

-- The protocols of a group to which a listener of a protocol and a TLS mode can send what it takes: in
-- the clear where it terminates TLS, over TLS where it encrypts anew, and as it is where it passes TLS
-- or TCP on.
pub data CanServe : String → String → String → Type 0 where
  plain : CanServe "http" "" "http"
  terminated : CanServe "https" "terminate" "http"
  reencrypted : CanServe "https" "reencrypt" "https"
  passed_to_tcp : CanServe "tls" "passthrough" "tcp"
  passed_to_https : CanServe "tls" "passthrough" "https"
  raw : CanServe "tcp" "" "tcp"

CanServe-at :
    (p q m n g h : String)
    → CanServe p m g
    → (str_eq q p && str_eq n m) ≡ true
    → str_eq h g ≡ true
    → CanServe q n h
CanServe-at p q m n g h c e f =
    let q_p : p ≡ q = ground (arith, e, eq_iff q p) in
    let n_m : m ≡ n = ground (arith, e, eq_iff n m) in
    let h_g : g ≡ h = ground (arith, f, eq_iff h g) in
    subst (λ x. CanServe x n h) q_p
      (subst (λ x. CanServe p x h) n_m (subst (λ x. CanServe p m x) h_g c))

only : (g h : String) → one_of h (g ∷ []) ≡ true → str_eq h g ≡ true
only g h e = ground (arith, e)

accepted_by :
    {a b : List String} (g : String) → some a ≡ some b → one_of g b ≡ true → one_of g a ≡ true
accepted_by g e h = rw (some-injective _ _ e) h

not_some {ℓ} : {A : Type ℓ} {a : A} → none ≢ some a
not_some h = cc

accepts-CanServe :
    (p m g : String) (accepted : List String)
    → accepts p m ≡ some accepted
    → one_of g accepted ≡ true
    → CanServe p m g
unfolding accepts
accepts-CanServe p m g accepted e h = elim (Bool-cases (str_eq p "http" && is_empty m)) [
  | inl a ↦ CanServe-at _ p _ m _ g plain a (only _ g (accepted_by g (rw a at e) h))
  | inr a ↦ elim (Bool-cases (str_eq p "https" && str_eq m "terminate")) [
    | inl b ↦ CanServe-at _ p _ m _ g terminated b (only _ g (accepted_by g (rw (a, b) at e) h))
    | inr b ↦ elim (Bool-cases (str_eq p "https" && str_eq m "reencrypt")) [
      | inl c ↦
          CanServe-at _ p _ m _ g reencrypted c (only _ g (accepted_by g (rw (a, b, c) at e) h))
      | inr c ↦ elim (Bool-cases (str_eq p "tls" && str_eq m "passthrough")) [
        | inl d ↦
            let either = accepted_by g (rw (a, b, c, d) at e) h in
            elim (Bool-cases (str_eq g "tcp")) [
              | inl f ↦ CanServe-at _ p _ m _ g passed_to_tcp d f
              | inr f ↦ CanServe-at _ p _ m _ g passed_to_https d (ground (arith, either, f))
            ]
        | inr d ↦ elim (Bool-cases (str_eq p "tcp" && is_empty m)) [
          | inl f ↦
              CanServe-at _ p _ m _ g raw f (only _ g (accepted_by g (rw (a, b, c, d, f) at e) h))
          | inr f ↦ absurd (not_some (rw (a, b, c, d, f) at e))
        ]
      ]
    ]
  ]
]

-- A group of that name is declared, whose protocol the listener can send to.
abbrev pub HasServer : List TargetGroup → Listener → String → Type 0
HasServer gs l name = Any (λ g. (g.name ≡ name) × CanServe l.protocol l.tls_mode g.protocol) gs

IsTarget-HasServer :
    (gs : List TargetGroup) (l : Listener) (accepted : List String) (name : String)
    → accepts l.protocol l.tls_mode ≡ some accepted
    → IsTarget gs accepted name
    → HasServer gs l name
IsTarget-HasServer (g ∷ gs) l accepted name e (inl (named, speaks)) =
    inl (named, accepts-CanServe l.protocol l.tls_mode g.protocol accepted e speaks)
IsTarget-HasServer (g ∷ gs) l accepted name e (inr there) =
    inr (IsTarget-HasServer gs l accepted name e there)
IsTarget-HasServer [] l accepted name e t = t

rules-HasServer :
    (gs : List TargetGroup) (l : Listener) (accepted : List String) (rs : List Rule)
    → accepts l.protocol l.tls_mode ≡ some accepted
    → All (λ r. IsTarget gs accepted r.target_group) rs
    → All (λ r. HasServer gs l r.target_group) rs
rules-HasServer gs l accepted [] e a = tt
rules-HasServer gs l accepted (r ∷ rs) e (t, a) =
    (IsTarget-HasServer gs l accepted r.target_group e t, rules-HasServer gs l accepted rs e a)

-- Where a listener of an accepted configuration sends what it takes.
abbrev pub IsServed : List TargetGroup → Listener → Type 0
IsServed gs l =
    (pos 1 ≤ℤ l.port)
    × (l.port ≤ℤ pos 65535)
    × ((is_egress l.protocol ≡ true)
        ⊎ (HasServer gs l l.default_target_group
            × All (λ r. HasServer gs l r.target_group) l.rules))

module _ (lib : Library) where
  IsRouted-IsServed :
      (gs : List TargetGroup) (l : Listener)
      → out_of_range l.port ≡ false
      → IsRouted lib gs l
      → IsServed gs l
  IsRouted-IsServed gs l p (inl out) = (ground (arith, p), ground (arith, p), inl out)
  IsRouted-IsServed gs l p (inr (accepted, e, target, rules)) = (
    ground (arith, p),
    ground (arith, p),
    inr (
      IsTarget-HasServer gs l accepted l.default_target_group e target,
      rules-HasServer gs l accepted l.rules e rules,
    ),
  )

  listeners-IsServed :
      (gs : List TargetGroup) (ls : List Listener)
      → All (λ l. (out_of_range l.port ≡ false) × IsRouted lib gs l) ls
      → All (IsServed gs) ls
  listeners-IsServed gs [] a = tt
  listeners-IsServed gs (l ∷ ls) ((p, r), a) =
      (IsRouted-IsServed gs l p r, listeners-IsServed gs ls a)

  -- In a configuration that passes validation, the listeners have different names and ports from 1 to
  -- 65535. Each one that is not an egress listener sends its traffic, by default and by every rule, to
  -- a declared target group whose protocol is one that its own protocol and TLS mode can send to.
  pub validate-IsServed :
      (c : Config)
      → validate lib c ≡ ok tt
      → All (IsServed c.target_groups) c.listeners × AreNamedApart lib [] c.listeners
  validate-IsServed c h =
      let (routed, apart) = validate-IsRouted lib c h in
      (listeners-IsServed c.target_groups c.listeners routed, apart)
