-- ===== src/Rc/Gestures.antt =====
-- What it takes to arm or to disarm by RC: `Rc::run` and `look_for_arm_disarm_signal` of
-- crates/veloxity_core/src/rc.rs.
use veloxity.Base.{ℕ, ◌-◌, ◌<◌, ◌≡◌, ◌⊎◌, true, false}
use veloxity.Float.{Float}
use veloxity.Params.{Params}
use veloxity.Rc.Types.{Rc, arm, switch_on, switch_mapped}
use veloxity.Rc.Handler.{arming_position, disarming_position, held}

module _ {F : Type 0} ⦃fl : Float F⦄ (r : Rc F) (now_ms : ℕ) (params : Params F) where
  -- The arm switch is on, or no channel is mapped to it and the sticks have been held long enough.
  abbrev pub ArmGesture : Type 0
  ArmGesture =
      ((switch_mapped r arm ≡ true) × (switch_on r arm ≡ true))
      ⊎ ((switch_mapped r arm ≡ false)
          × (arming_position r params ≡ true)
          × (1000 < held r (now_ms - r.prev_time_ms) true))

  abbrev pub DisarmGesture : Type 0
  DisarmGesture =
      ((switch_mapped r arm ≡ true) × (switch_on r arm ≡ false))
      ⊎ ((switch_mapped r arm ≡ false)
          × (disarming_position r params ≡ true)
          × (1000 < held r (now_ms - r.prev_time_ms) true))
