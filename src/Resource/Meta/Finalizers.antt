-- ===== src/Resource/Meta/Finalizers.antt =====
-- The finalizers of a resource behave as a set, and hold each controller's key once.
use infrastructure.Prelude.{
  ◌≡◌, inl, inr, refl, false, not, ◌&&◌, ◌||◌, List, [], ◌∷◌, ◌++◌, String, str_eq, eq_iff, arith,
  Bool-cases,
}
use infrastructure.Resource.Meta.{
  ObjectMeta, among, has_finalizer, add_finalizer, without, remove_finalizer,
}

pub among-append :
    (name other : String) (fs : List String)
    → among other (fs ++ name ∷ []) ≡ (str_eq name other || among other fs)
unfolding among
among-append name other [] = ground arith
among-append name other (f ∷ fs) = let ih = among-append name other fs in ground (arith, ih)

among-without :
    (name other : String) (fs : List String)
    → among other (without name fs) ≡ (not (str_eq name other) && among other fs)
unfolding among without
among-without name other [] = ground arith
among-without name other (f ∷ fs) =
    let ih = among-without name other fs in
    ground (arith, ih, eq_iff f name, eq_iff f other, eq_iff name other)

-- No finalizer is there twice.
abbrev pub AreDistinct : List String → Type 0
AreDistinct [] = Unit
AreDistinct (f ∷ fs) = (among f fs ≡ false) × AreDistinct fs

AreDistinct-append :
    (name : String) (fs : List String)
    → among name fs ≡ false
    → AreDistinct fs
    → AreDistinct (fs ++ name ∷ [])
unfolding among
AreDistinct-append name [] h d = (refl, tt)
AreDistinct-append name (f ∷ fs) h d = (
  ground (arith, among-append name f fs, eq_iff name f, eq_iff f name, d.0),
  AreDistinct-append name fs (ground arith) (d.1),
)

AreDistinct-without :
    (name : String) (fs : List String) → AreDistinct fs → AreDistinct (without name fs)
unfolding without
AreDistinct-without name [] d = tt
AreDistinct-without name (f ∷ fs) d = elim (Bool-cases (str_eq f name)) [
  | inl e ↦ rw e (AreDistinct-without name fs (d.1))
  | inr e ↦ rw e (ground (arith, among-without name f fs, d.0), AreDistinct-without name fs (d.1))
]

-- Adding a finalizer makes it present and removing one makes it absent, either leaves the presence
-- of the others, and both keep distinct finalizers distinct.
pub finalizers_set :
    (name other : String) (m : ObjectMeta)
    → AreDistinct m.finalizers
    → (has_finalizer other (add_finalizer name m) ≡ (str_eq name other || has_finalizer other m))
      × (has_finalizer other (remove_finalizer name m)
          ≡ (not (str_eq name other) && has_finalizer other m))
      × AreDistinct (add_finalizer name m).finalizers
      × AreDistinct (remove_finalizer name m).finalizers
unfolding has_finalizer add_finalizer remove_finalizer
finalizers_set name other m d = elim (Bool-cases (has_finalizer name m)) [
  | inl e ↦ rw e (
    ground (arith, e, eq_iff name other),
    among-without name other m.finalizers,
    d,
    AreDistinct-without name m.finalizers d,
  )
  | inr e ↦ rw e (
    among-append name other m.finalizers,
    among-without name other m.finalizers,
    AreDistinct-append name m.finalizers e d,
    AreDistinct-without name m.finalizers d,
  )
]
