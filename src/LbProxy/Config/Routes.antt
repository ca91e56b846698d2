-- ===== src/LbProxy/Config/Routes.antt =====
-- Where the listeners of an accepted configuration send their traffic.
use infrastructure.Prelude.{
  Bool, true, false, not, ◌≡◌, ◌⊎◌, inl, inr, refl, sym, subst, List, [], ◌∷◌, some, String, str_eq,
  eq_iff, Result, ok, err, ok-injective, err-ok, ◌>>=◌, All, Any, arith, Bool-cases, Option-cases,
}
use mathlib.Core.Option.{some-injective}
use infrastructure.Prelude.Dict.{value_at, assign, value_at-assign}
use infrastructure.LbProxy.Config.{
  Rule, Listener, TargetGroup, Config, Checked, refuse_if, is_egress, one_of, check_all, accepts,
  check_target, out_of_range,
}
use infrastructure.LbProxy.Config.Validate.{
  Library, check_rule, check_certificates, check_routes, has_policy, validate_listener,
  validate_group, is_declared, validate_groups, validate_listeners, validate,
}

refuse_if-ok {ℓ} :
    {A : Type ℓ} (refused : Bool) (message : String) (rest : Result A) (a : A)
    → refuse_if refused message rest ≡ ok a
    → (refused ≡ false) × (rest ≡ ok a)
unfolding refuse_if
refuse_if-ok true message rest a h = cc
refuse_if-ok false message rest a h = (refl, h)

>>=-ok {ℓ κ} :
    {A : Type ℓ} {B : Type κ} (r : Result A) (f : A → Result B) (b : B)
    → (r >>= f) ≡ ok b
    → (a : A) × (r ≡ ok a) × (f a ≡ ok b)
>>=-ok (ok a) f b h = (a, refl, h)
>>=-ok (err e) f b h = cc

check_all-ok {ℓ} :
    {A : Type ℓ} (check : A → Checked) (xs : List A)
    → check_all check xs ≡ ok tt
    → All (λ x. check x ≡ ok tt) xs
unfolding check_all
check_all-ok check [] h = tt
check_all-ok check (x ∷ xs) h =
    let (u, first, rest) = >>=-ok (check x) _ tt h in (first, check_all-ok check xs rest)

-- A group of that name is declared, and speaks one of the protocols.
abbrev pub IsTarget : List TargetGroup → List String → String → Type 0
IsTarget gs accepted name = Any (λ g. (g.name ≡ name) × (one_of g.protocol accepted ≡ true)) gs

-- Every group of the map is declared under its name.
abbrev pub IsMapOf : List TargetGroup → List (String × TargetGroup) → Type 0
IsMapOf gs groups =
    (name : String) (g : TargetGroup)
    → value_at name groups ≡ some g
    → (g.name ≡ name) × Any (λ h. h ≡ g) gs

-- `g` is one of the groups.
abbrev pub IsAmong : List TargetGroup → TargetGroup → Type 0
IsAmong gs g = Any (λ h. h ≡ g) gs

IsAmong-more :
    (g : TargetGroup) (gs hs : List TargetGroup) → All (IsAmong gs) hs → All (IsAmong (g ∷ gs)) hs
IsAmong-more g gs [] a = tt
IsAmong-more g gs (h ∷ hs) a = (inr (a.0), IsAmong-more g gs hs (a.1))

IsAmong-self : (gs : List TargetGroup) → All (IsAmong gs) gs
IsAmong-self [] = tt
IsAmong-self (g ∷ gs) = (inl refl, IsAmong-more g gs gs (IsAmong-self gs))

empty-IsMapOf : (gs : List TargetGroup) → IsMapOf gs []
unfolding value_at
empty-IsMapOf gs name g e = absurd (ground (arith, e))

assign-IsMapOf :
    (gs : List TargetGroup) (groups : List (String × TargetGroup)) (g : TargetGroup)
    → IsAmong gs g
    → IsMapOf gs groups
    → IsMapOf gs (assign g.name g groups)
assign-IsMapOf gs groups g a m name h e = elim (Bool-cases (str_eq g.name name)) [
  | inl s ↦
      let e1 : some g ≡ some h = rw (value_at-assign g.name name g groups, s) at e in
      let same : g ≡ h = some-injective _ _ e1 in
      subst (λ x. (x.name ≡ name) × IsAmong gs x) same (ground (arith, s, eq_iff g.name name), a)
  | inr s ↦ m name h (rw (value_at-assign g.name name g groups, s) at e)
]

found-IsTarget :
    (all : List TargetGroup) (g : TargetGroup) (accepted : List String) (name : String)
    → IsAmong all g
    → g.name ≡ name
    → one_of g.protocol accepted ≡ true
    → IsTarget all accepted name
found-IsTarget (h ∷ hs) g accepted name (inl e) named speaks =
    inl (subst (λ x. (x.name ≡ name) × (one_of x.protocol accepted ≡ true)) (sym e) (named, speaks))
found-IsTarget (h ∷ hs) g accepted name (inr r) named speaks =
    inr (found-IsTarget hs g accepted name r named speaks)
found-IsTarget [] g accepted name r named speaks = r

module _ (lib : Library) where
  validate_groups-IsMapOf :
      (all gs : List TargetGroup) (before groups : List (String × TargetGroup))
      → All (IsAmong all) gs
      → IsMapOf all before
      → validate_groups lib before gs ≡ ok groups
      → IsMapOf all groups
  unfolding validate_groups
  validate_groups-IsMapOf all [] before groups a m h = subst (IsMapOf all) (ok-injective h) m
  validate_groups-IsMapOf all (g ∷ gs) before groups a m h =
      let (u, valid, h1) = >>=-ok (validate_group lib g) _ groups h in
      let (fresh, h2) =
        refuse_if-ok (is_declared lib g.name before) _
          (validate_groups lib (assign g.name g before) gs) groups h1 in
      validate_groups-IsMapOf all gs (assign g.name g before) groups (a.1)
        (assign-IsMapOf all before g (a.0) m) h2

  check_target-IsTarget :
      (all : List TargetGroup) (groups : List (String × TargetGroup)) (accepted : List String)
      (name : String)
      → IsMapOf all groups
      → check_target groups accepted name ≡ ok tt
      → IsTarget all accepted name
  unfolding check_target
  check_target-IsTarget all groups accepted name m h = elim (Option-cases (value_at name groups)) [
    | inl e ↦ absurd (err-ok (rw (e, check_target) at h))
    | inr (g, e) ↦
        let (speaks, _) =
          refuse_if-ok (not (one_of g.protocol accepted)) _ (ok tt) tt
            (rw (e, check_target) at h) in
        let (named, found) = m name g e in
        found-IsTarget all g accepted name found named (ground (arith, speaks))
  ]

  -- A listener lets traffic out, or it sends all of it to groups that are declared and speak a
  -- protocol that its own protocol and TLS mode can be sent to.
  abbrev pub IsRouted : List TargetGroup → Listener → Type 0
  IsRouted all l =
      (is_egress l.protocol ≡ true)
      ⊎ ((accepted : List String) × (accepts l.protocol l.tls_mode ≡ some accepted)
          × IsTarget all accepted l.default_target_group
          × All (λ r. IsTarget all accepted r.target_group) l.rules)

  check_rule-IsTarget :
      (all : List TargetGroup) (groups : List (String × TargetGroup)) (accepted : List String)
      (l : Listener)
      → IsMapOf all groups
      → (rs : List Rule) → All (λ r. check_rule lib l groups accepted r ≡ ok tt) rs
      → All (λ r. IsTarget all accepted r.target_group) rs
  unfolding check_rule
  check_rule-IsTarget all groups accepted l m [] a = tt
  check_rule-IsTarget all groups accepted l m (r ∷ rs) (h, a) =
      let (f1, h1) = refuse_if-ok _ _ _ tt h in
      let (f2, h2) = refuse_if-ok _ _ _ tt h1 in
      let (f3, h3) = refuse_if-ok _ _ _ tt h2 in
      (
        check_target-IsTarget all groups accepted r.target_group m h3,
        check_rule-IsTarget all groups accepted l m rs a,
      )

  check_routes-IsRouted :
      (all : List TargetGroup) (groups : List (String × TargetGroup)) (accepted : List String)
      (l : Listener)
      → IsMapOf all groups
      → accepts l.protocol l.tls_mode ≡ some accepted
      → check_routes lib l groups accepted ≡ ok tt
      → IsRouted all l
  unfolding check_routes
  check_routes-IsRouted all groups accepted l m e h =
      let (u, certified, h1) = >>=-ok (check_certificates lib l) _ tt h in
      let (v, target, h2) = >>=-ok (check_target groups accepted l.default_target_group) _ tt h1 in
      let (f, h3) = refuse_if-ok _ _ _ tt h2 in
      inr (
        accepted,
        e,
        check_target-IsTarget all groups accepted l.default_target_group m target,
        check_rule-IsTarget all groups accepted l m l.rules (check_all-ok _ l.rules h3),
      )

  validate_listener-IsRouted :
      (all : List TargetGroup) (groups : List (String × TargetGroup)) (l : Listener)
      → IsMapOf all groups
      → validate_listener lib groups l ≡ ok tt
      → (out_of_range l.port ≡ false) × IsRouted all l
  unfolding validate_listener
  validate_listener-IsRouted all groups l m h =
      let (f1, h1) = refuse_if-ok _ _ _ tt h in
      let (f2, h2) = refuse_if-ok _ _ _ tt h1 in
      let (f3, h3) = refuse_if-ok _ _ _ tt h2 in
      (
        f3,
        elim (Bool-cases (is_egress l.protocol)) [
          | inl e ↦ inl e
          | inr e ↦
              let (f4, h4) = refuse_if-ok (has_policy lib l) _ _ tt (rw e at h3) in
              elim (Option-cases (accepts l.protocol l.tls_mode)) [
                | inl n ↦ absurd (err-ok (rw n at h4))
                | inr (accepted, s) ↦ check_routes-IsRouted all groups accepted l m s (rw s at h4)
              ]
        ],
      )

  -- No listener has a name that is among those before, or the name of another.
  abbrev pub AreNamedApart : List String → List Listener → Type 0
  AreNamedApart names [] = Unit
  AreNamedApart names (l ∷ ls) = (one_of l.name names ≡ false) × AreNamedApart (l.name ∷ names) ls

  validate_listeners-IsRouted :
      (all : List TargetGroup) (groups : List (String × TargetGroup)) (names : List String)
      (ls : List Listener)
      → IsMapOf all groups
      → validate_listeners lib groups names ls ≡ ok tt
      → All (λ l. (out_of_range l.port ≡ false) × IsRouted all l) ls × AreNamedApart names ls
  unfolding validate_listeners
  validate_listeners-IsRouted all groups names [] m h = (tt, tt)
  validate_listeners-IsRouted all groups names (l ∷ ls) m h =
      let (u, valid, h1) = >>=-ok (validate_listener lib groups l) _ tt h in
      let (f, h2) = refuse_if-ok _ _ (validate_listeners lib groups (l.name ∷ names) ls) tt h1 in
      let (routed, apart) = validate_listeners-IsRouted all groups (l.name ∷ names) ls m h2 in
      ((validate_listener-IsRouted all groups l m valid, routed), (f, apart))

-- In a configuration that passes validation, the listeners have different names and ports in range,
-- and each one that is not an egress listener sends its traffic, by default and by every rule, to a
-- declared target group of a protocol that its own protocol and TLS mode accept.
pub validate-IsRouted :
    (lib : Library) (c : Config)
    → validate lib c ≡ ok tt
    → All (λ l. (out_of_range l.port ≡ false) × IsRouted lib c.target_groups l) c.listeners
      × AreNamedApart lib [] c.listeners
unfolding validate
validate-IsRouted lib c h =
    let (groups, declared, h1) = >>=-ok (validate_groups lib [] c.target_groups) _ tt h in
    validate_listeners-IsRouted lib c.target_groups groups [] c.listeners
      (validate_groups-IsMapOf lib c.target_groups c.target_groups [] groups
        (IsAmong-self c.target_groups) (empty-IsMapOf c.target_groups) declared)
      h1
