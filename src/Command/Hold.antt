-- ===== src/Command/Hold.antt =====
-- How long the angle lockout of crates/veloxity_core/src/command.rs lasts.
use veloxity.Base.{◌≡◌, true, false, List, [], ◌∷◌, arith}
use veloxity.Command.Lockout.{
  LockoutState, inactive, switch_reset_required, LockoutMachine, LockoutInput, step,
  unsafe_angle_requested,
}

-- The machine waits for the attitude switch.
abbrev AwaitsSwitch : LockoutState → Type 0
AwaitsSwitch (switch_reset_required _ _) = Unit {0}
AwaitsSwitch _ = ⊥

-- A multirotor's step with the attitude switch mapped and left in the angle position.
pub record StaysInAngle (i : LockoutInput) : Type 0 where
  pub multirotor : i.fixed_wing ≡ false
  pub mapped : i.att_type_switch_mapped ≡ true
  pub in_angle : i.att_type_switch_rate ≡ false

-- Every step has such an input.
abbrev pub AllStay : List LockoutInput → Type 0
AllStay [] = Unit {0}
AllStay (i ∷ is) = StaysInAngle i × AllStay is

unfoldable pub steps : LockoutMachine → List LockoutInput → LockoutMachine
steps m [] = m
steps m (i ∷ is) = steps (step m i).0 is

-- The rate mode is forced in each of the steps.
abbrev pub AllForced : LockoutMachine → List LockoutInput → Type 0
AllForced m [] = Unit {0}
AllForced m (i ∷ is) = ((step m i).1.force_rc_rate ≡ true) × AllForced (step m i).0 is

step-awaits :
    (m : LockoutMachine) (i : LockoutInput)
    → StaysInAngle i
    → AwaitsSwitch m.state
    → AwaitsSwitch (step m i).0.state × ((step m i).1.force_rc_rate ≡ true)
unfolding step
step-awaits m i h w = ground arith

awaits-AllForced :
    (is : List LockoutInput) (m : LockoutMachine)
    → AllStay is
    → AwaitsSwitch m.state
    → AllForced m is
awaits-AllForced [] m h w = tt
awaits-AllForced (i ∷ is) m h w =
    let (still, forced) = step-awaits m i h.0 w in
    (forced, awaits-AllForced is (step m i).0 h.1 still)

step-denies :
    (m : LockoutMachine) (i : LockoutInput)
    → StaysInAngle i
    → m.denial_active ≡ false
    → unsafe_angle_requested i ≡ true
    → AwaitsSwitch (step m i).0.state
unfolding step
step-denies m i h d u = ground arith

-- In consecutive steps of the lockout, which failsafe passes do not take and passes with the lockout
-- disabled reset: where no denial is active, the step on a multirotor that denies an unsafe request
-- for angles, with the attitude switch mapped and in the angle position, forces the rate mode, and so
-- does every later one on a multirotor with the switch mapped and still in the angle position, also
-- after the estimator has recovered.
pub denied-AllForced :
    (m : LockoutMachine) (i : LockoutInput) (is : List LockoutInput)
    → StaysInAngle i
    → m.denial_active ≡ false
    → unsafe_angle_requested i ≡ true
    → AllStay is
    → AllForced m (i ∷ is)
unfolding step
denied-AllForced m i is h d u stay =
    (ground arith, awaits-AllForced is (step m i).0 stay (step-denies m i h d u))

-- With a healthy estimator, the attitude switch in the rate position and the mode parameter set to
-- rate, the lockout becomes idle and forces no rate mode.
pub recovery_releases :
    (m : LockoutMachine) (i : LockoutInput)
    → i.estimator_unhealthy ≡ false
    → i.att_type_switch_rate ≡ true
    → i.param_mode_rate ≡ true
    → ((step m i).0.state ≡ inactive) × ((step m i).1.force_rc_rate ≡ false)
unfolding step
recovery_releases m i healthy sw p = ground arith
