-- ===== src/Resource/Examples.antt =====
-- A status that was never set, and a resource with one finalizer.
use infrastructure.Prelude.{
  ◌≡◌, ◌≢◌, refl, false, not, ◌&&◌, ◌||◌, [], ◌∷◌, none, some, String, str_eq, eq_iff, arith,
}
use infrastructure.Resource.Condition.{
  condition_true, condition_false, phase_ready, phase_pending, StatusBase, get_condition,
  condition_ready, condition_progressing, set_phase,
}
use infrastructure.Resource.Condition.Phases.{status_of, set_phase_lem}
use infrastructure.Resource.Meta.{ObjectMeta, has_finalizer, add_finalizer, remove_finalizer, among}
use infrastructure.Resource.Meta.Finalizers.{AreDistinct, finalizers_set}

differ : (a b : String) → str_eq a b ≡ false → a ≢ b
differ a b h e = ground (arith, h, e, eq_iff a b)

abbrev unset : StatusBase
unset = record { observed_generation = 0; phase = phase_pending; conditions = [] }

set_phase_example :
    (status_of condition_ready (set_phase 7 phase_ready "Up" "running" unset) ≡ some condition_true)
    × (status_of condition_progressing (set_phase 7 phase_ready "Up" "running" unset)
        ≡ some condition_false)
    × (get_condition "Synced" (set_phase 7 phase_ready "Up" "running" unset)
        ≡ get_condition "Synced" unset)
set_phase_example =
    set_phase_lem 7 phase_ready "Up" "running" unset "Synced" (differ _ _ refl) (differ _ _ refl)

abbrev held : ObjectMeta
held = record { finalizers = "compute" ∷ []; deletion_timestamp = none }

finalizers_set_example :
    (has_finalizer "compute" (add_finalizer "disk" held)
      ≡ (str_eq "disk" "compute" || has_finalizer "compute" held))
    × (has_finalizer "compute" (remove_finalizer "disk" held)
        ≡ (not (str_eq "disk" "compute") && has_finalizer "compute" held))
    × AreDistinct (add_finalizer "disk" held).finalizers
    × AreDistinct (remove_finalizer "disk" held).finalizers
unfolding among
finalizers_set_example = finalizers_set "disk" "compute" held (refl, tt)
