-- ===== src/Command/AngleLockout.antt =====
-- The estimator's angle lockout and the command that is flown:
-- `estimator_mode_safety`, `interpret_rc` and the muxing of crates/veloxity_core/src/command.rs.
use veloxity.Base.{ℕ, ◌*◌, ◌≡◌, true, false, some, arith}
use veloxity.Float.{Float}
use veloxity.Params.{Params, get_by_id, is_nonzero_int, param_fixed_wing}
use veloxity.StateMachine.Flags.{unhealthy_estimator, contains}
use veloxity.StateMachine.Manager.{StateManager, is_in_failsafe, get_errors}
use veloxity.Rc.Types.{Rc, x, stick, take_new_command}
use veloxity.Command.Types.{rate, angle, is_angle}
use veloxity.Command.Lockout.{LockoutOutput, inactive, step, unsafe_angle_requested}
use veloxity.Command.Manager.{CommandManager, update_offboard_timeout}
use veloxity.Command.Interpret.{interpret_rc, selected_type}
use veloxity.Command.Mux.{
  offboard_angle_requested, estimator_angle_lockout_enabled, lockout_input, estimator_mode_safety,
  do_muxing, do_attitude_muxing, do_throttle_muxing, stick_deviated, deviation_param, lag_param,
  att_switch_override,
}
use veloxity.Command.Run.{check_link, prepare, resolve, run}
use veloxity.Command.Failsafe.{run_outside_failsafe}
use veloxity.Command.Offboard.{prepare-offboard}

abbrev IsMultirotor : {F : Type 0} → Params F → Type 0
IsMultirotor params = is_nonzero_int (get_by_id params param_fixed_wing) ≡ false

-- The lockout is switched on, the airframe is a multirotor, and the estimator is unhealthy.
pub record IsGuarded {F : Type 0} (params : Params F) (s : StateManager) : Type 0 where
  pub multirotor : is_nonzero_int (get_by_id params param_fixed_wing) ≡ false
  pub enabled : estimator_angle_lockout_enabled params ≡ true
  pub unhealthy : contains (get_errors s) unhealthy_estimator ≡ true

module _ {F : Type 0} ⦃fl : Float F⦄ (params : Params F) (r : Rc F) where
  interpret_rc-rate :
      (c : CommandManager F)
      → IsMultirotor params
      → let c' = interpret_rc c r params (some rate) in
        (c'.rc_command.qx.control_type ≡ rate) × (c'.rc_command.qy.control_type ≡ rate)
  unfolding interpret_rc
  interpret_rc-rate c h = ground arith

module _ {F : Type 0} ⦃fl : Float F⦄ (c : CommandManager F) (now_ms : ℕ) (params : Params F)
    (r : Rc F) (s : StateManager) where
  abbrev fresh : CommandManager F
  fresh = update_offboard_timeout c (now_ms * 1000) params

  abbrev safety : LockoutOutput
  safety = (prepare c now_ms params r s).1

  prepare-rate :
      IsMultirotor params
      → safety.force_rc_rate ≡ true
      → let c' = (prepare c now_ms params r s).0 in
        (c'.rc_command.qx.control_type ≡ rate) × (c'.rc_command.qy.control_type ≡ rate)
  unfolding prepare
  prepare-rate m f = ground (
    arith,
    interpret_rc-rate params (take_new_command r).1 (estimator_mode_safety fresh params r s).0,
  )

  prepare-force : IsGuarded params s → safety.force_rc_attitude ≡ offboard_angle_requested fresh
  unfolding prepare estimator_mode_safety step lockout_input
  prepare-force g = ground arith

  -- Where the lockout acts with an unhealthy estimator, the roll and pitch that are flown are not
  -- angles, whichever input they come from.
  pub angle_locked_out :
      IsGuarded params s
      → safety.force_rc_rate ≡ true
      → let c' = (resolve c now_ms params r s).command in
        (is_angle c'.combined_command.qx.control_type ≡ false)
        × (is_angle c'.combined_command.qy.control_type ≡ false)
  unfolding resolve do_muxing do_attitude_muxing do_throttle_muxing offboard_angle_requested
  angle_locked_out g f =
      ground
        (arith, prepare-rate g.multirotor f, prepare-force g, prepare-offboard c now_ms params r s)

  -- The lockout acts on every request for angles that it is told of.
  pub unsafe-locked :
      IsGuarded params s
      → unsafe_angle_requested (lockout_input fresh params r s) ≡ true
      → safety.force_rc_rate ≡ true
  unfolding prepare estimator_mode_safety step lockout_input
  unsafe-locked g u = ground arith

  -- The companion commands rates on active channels, the override switch is off, and a deviated
  -- roll stick takes the roll channel while the RC mode is angle.
  pub record IsStickOverride : Type 0 where
    pub idle : c.rc_angle_mode_lockout.state ≡ inactive
    pub x_active : fresh.offboard_command.qx.active ≡ true
    pub x_not_angle : is_angle fresh.offboard_command.qx.control_type ≡ false
    pub y_active : fresh.offboard_command.qy.active ≡ true
    pub y_not_angle : is_angle fresh.offboard_command.qy.control_type ≡ false
    pub switch_off : att_switch_override r ≡ false
    pub fresh_rc : r.new_command ≡ true
    pub angle_mode : selected_type r params ≡ angle
    pub deviated :
        stick_deviated
          (stick r x)
          (deviation_param params)
          (lag_param params)
          now_ms
          c.last_stick_override_time.x
        ≡ true

module _ {F : Type 0} ⦃fl : Float F⦄ (c : CommandManager F) (now_ms : ℕ) (params : Params F)
    (r : Rc F) (s : StateManager) where
  -- The state after the check of the link, which is what the rest of the run sees.
  abbrev linked : StateManager
  linked = check_link r (now_ms * 1000) params s

  -- Outside failsafe, on a multirotor with the lockout enabled and the estimator unhealthy, when the
  -- companion requests angles, or RC does and is the attitude source, then a run flies neither roll
  -- nor pitch as an angle, whichever input they come from.
  pub angle_refused :
      is_in_failsafe linked ≡ false
      → IsGuarded params linked
      → unsafe_angle_requested (lockout_input (fresh c now_ms params r s) params r linked) ≡ true
      → let c' = (run c now_ms params r s).command in
        (is_angle c'.combined_command.qx.control_type ≡ false)
        × (is_angle c'.combined_command.qy.control_type ≡ false)
  angle_refused flying g u =
      let s' = linked in
      rw (run_outside_failsafe c now_ms params r s flying)
        (angle_locked_out c now_ms params r s' g (unsafe-locked c now_ms params r s' g u))
