-- ===== src/State/Paths.antt =====
-- A key never leads out of the base directory.
use Prim.Native.Char.{Char, code}
use Prim.Native.String.{[], ◌∷◌}
use infrastructure.Prelude.{
  Bool, true, ◌||◌, not, false, ◌==◌, refl, List, [], ◌∷◌, String, str_eq, ok, ok-injective, err-ok,
  ◌≡◌, All, arith, Bool-cases, inl, inr,
}
use infrastructure.State.{longer, has_slash, parent, split, clean, join, path_of, resolve}

-- The name of one file or directory: it is not empty, has no slash and stands for no other directory.
abbrev pub is_plain : String → Bool
is_plain part = not (str_eq part "" || str_eq part "." || str_eq part ".." || has_slash part)

abbrev AreWhole : List String → Type 0
AreWhole parts = All (λ p. has_slash p ≡ false) parts

longer-AreWhole :
    (c : Char) (parts : List String)
    → (code c == b'/') ≡ false
    → AreWhole parts
    → AreWhole (longer c parts)
unfolding has_slash
longer-AreWhole c [] e a = (ground (arith, e), tt)
longer-AreWhole c (part ∷ parts) e (h, a) = (ground (arith, e, h), a)

split-AreWhole : (s : String) → AreWhole (split s)
unfolding split has_slash
split-AreWhole [] = (refl, tt)
split-AreWhole (c ∷ s) = elim (Bool-cases (code c == b'/')) [
  | inl e ↦ rw e (refl, split-AreWhole s)
  | inr e ↦ rw e (longer-AreWhole c (split s) e (split-AreWhole s))
]

abbrev pub ArePlain : List String → Type 0
ArePlain parts = All (λ p. is_plain p ≡ true) parts

parent-ArePlain : (above : List String) → ArePlain above → ArePlain (parent above)
parent-ArePlain [] a = a
parent-ArePlain (part ∷ above) a = a.1

clean-ArePlain :
    (parts above : List String) → AreWhole parts → ArePlain above → ArePlain (clean above parts)
unfolding clean
clean-ArePlain [] above w a = a
clean-ArePlain (part ∷ parts) above (whole, w) a =
    elim (Bool-cases (str_eq part "" || str_eq part ".")) [
      | inl skip ↦ rw skip (clean-ArePlain parts above w a)
      | inr keep ↦ elim (Bool-cases (str_eq part "..")) [
        | inl up ↦ rw (keep, up) (clean-ArePlain parts (parent above) w (parent-ArePlain above a))
        | inr down ↦
            rw (keep, down)
              (clean-ArePlain parts (part ∷ above) w (ground (arith, keep, down, whole), a))
      ]
    ]

-- The parts of a path below the base directory, the last first.
pub record IsConfined (path : String) : Type 0 where
  pub last : String
  pub above : List String
  pub joined : join (last ∷ above) ≡ path
  pub plain : ArePlain (last ∷ above)

path_of-IsConfined :
    (parts : List String) (path : String)
    → ArePlain parts
    → path_of parts ≡ ok path
    → IsConfined path
path_of-IsConfined [] path a h = absurd cc
path_of-IsConfined (part ∷ above) path a h = record {
  last = part;
  above = above;
  joined = ok-injective h;
  plain = a;
}

-- A key that the file store accepts is resolved to a path below its base directory, whose parts are
-- neither empty nor "." nor ".." and have no slash, whatever the key holds.
pub resolve-IsConfined : (key path : String) → resolve key ≡ ok path → IsConfined path
unfolding resolve
resolve-IsConfined key path h = elim (Bool-cases (str_eq key "")) [
  | inl e ↦ absurd (err-ok (rw e at h))
  | inr e ↦
      path_of-IsConfined (clean [] (split key)) path
        (clean-ArePlain (split key) [] (split-AreWhole key) tt) (rw e at h)
]
