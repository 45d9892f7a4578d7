-- ===== src/Command/Mux.antt =====
-- Which command is flown: `estimator_mode_safety`, the muxing functions and `run` of
-- crates/veloxity_core/src/command.rs.
use Prim.Native.Nat.{bit_or}
use veloxity.Base.{ℕ, Bool, true, false, not, ◌&&◌, ◌||◌, ◌==◌, ltb, if◌then◌else◌}
use veloxity.Base.Int.{pos, eqb_ℤ, as_u32}
use veloxity.Float.{Float}
use veloxity.Params.{
  Params, ParamValue, int, get_by_id, int_or, float_or, is_nonzero_int, param_fixed_wing,
  param_rc_f_axis, param_rc_override_deviation, param_override_lag_time,
  param_rc_override_take_min_throttle, param_rc_attitude_mode, param_est_angle_lockout,
}
use veloxity.StateMachine.Flags.{unhealthy_estimator, contains}
use veloxity.StateMachine.Manager.{StateManager, get_errors}
use veloxity.Rc.Types.{
  Rc, x, y, z, att_override, throttle_override, att_type, stick, switch_on, switch_mapped,
}
use veloxity.Rc.Handler.{saturating_add_u32}
use veloxity.Command.Types.{
  ControlChannel, CombinedControl, is_angle, override_no_override, override_att_switch,
  override_thr_switch, override_x, override_y, override_z, override_t, override_offboard_x_inactive,
  override_offboard_y_inactive, override_offboard_z_inactive, override_offboard_t_inactive,
}
use veloxity.Command.Lockout.{LockoutInput, LockoutOutput, no_output, reset_machine, step}
use veloxity.Command.Manager.{CommandManager}

-- `if b { mask |= bit }`
abbrev pub with_bit : Bool → ℕ → ℕ → ℕ
with_bit b bit mask = if b then bit_or mask bit else mask

module _ {F : Type 0} where
  abbrev is_rate_mode : ParamValue F → Bool
  is_rate_mode (int v) = eqb_ℤ v (pos 0)
  is_rate_mode _ = false

  -- `param_rc_attitude_mode_is_rate`
  unfoldable pub param_mode_is_rate : Params F → Bool
  param_mode_is_rate params = is_rate_mode (get_by_id params param_rc_attitude_mode)

  unfoldable pub rc_angle_mode_selected : Params F → Rc F → Bool
  rc_angle_mode_selected params r =
      if switch_mapped r att_type then switch_on r att_type else not (param_mode_is_rate params)

  unfoldable pub estimator_angle_lockout_enabled : Params F → Bool
  estimator_angle_lockout_enabled params = is_nonzero_int (get_by_id params param_est_angle_lockout)

  abbrev pub angle_requested : ControlChannel F → Bool
  angle_requested c = c.active && is_angle c.control_type

  unfoldable pub offboard_angle_requested : CommandManager F → Bool
  offboard_angle_requested c =
      angle_requested c.offboard_command.qx || angle_requested c.offboard_command.qy

  unfoldable pub att_switch_override : Rc F → Bool
  att_switch_override r = switch_mapped r att_override && switch_on r att_override

  unfoldable pub rc_attitude_source_requested : CommandManager F → Rc F → Bool
  rc_attitude_source_requested c r =
      att_switch_override r
      || (not c.offboard_command.qx.active || not c.offboard_command.qy.active)

  unfoldable pub lockout_input : CommandManager F → Params F → Rc F → StateManager → LockoutInput
  lockout_input c params r s = record {
    fixed_wing = is_nonzero_int (get_by_id params param_fixed_wing);
    estimator_unhealthy = contains (get_errors s) unhealthy_estimator;
    offboard_angle_requested = offboard_angle_requested c;
    rc_angle_requested = rc_angle_mode_selected params r;
    rc_attitude_source_requested = rc_attitude_source_requested c r;
    att_type_switch_mapped = switch_mapped r att_type;
    att_type_switch_rate = not (switch_on r att_type);
    param_mode_rate = param_mode_is_rate params;
  }

  -- `EstimatorModeSafety` has the fields of the lockout's output.
  unfoldable pub estimator_mode_safety :
      CommandManager F → Params F → Rc F → StateManager → CommandManager F × LockoutOutput
  estimator_mode_safety c params r s =
      if is_nonzero_int (get_by_id params param_fixed_wing)
        || not (estimator_angle_lockout_enabled params)
      then (record c { rc_angle_mode_lockout = reset_machine }, no_output)
      else (let (lockout, safety) = step c.rc_angle_mode_lockout (lockout_input c params r s) in
          (record c { rc_angle_mode_lockout = lockout }, safety))

module _ {F : Type 0} ⦃fl : Float F⦄ where
  -- `attitude_stick_deviated` for a stick's value and its last override time.
  unfoldable pub stick_deviated : F → F → ℕ → ℕ → ℕ → Bool
  stick_deviated v deviation lag_time_ms now_ms last =
      ltb now_ms (saturating_add_u32 last lag_time_ms) || not (fl.le (fl.abs v) deviation)

  -- The time is set only where the lag has passed and the stick is beyond the deviation.
  unfoldable pub override_time : F → F → ℕ → ℕ → ℕ → ℕ
  override_time v deviation lag_time_ms now_ms last =
      if ltb now_ms (saturating_add_u32 last lag_time_ms)
      then last
      else if fl.le (fl.abs v) deviation
      then last
      else now_ms

  abbrev pub deviation_param : Params F → F
  deviation_param params =
      float_or (get_by_id params param_rc_override_deviation) (fl.decimal (pos 1) 1)

  abbrev pub lag_param : Params F → ℕ
  lag_param params = as_u32 (int_or (get_by_id params param_override_lag_time) (pos 200))

  unfoldable pub do_attitude_muxing :
      CommandManager F → Params F → Rc F → ℕ → Bool → CommandManager F × ℕ
  do_attitude_muxing c params r now_ms force_rc_attitude =
      let deviation = deviation_param params in
      let lag = lag_param params in
      let last = c.last_stick_override_time in
      let switch_override = att_switch_override r in
      let x_deviated = stick_deviated (stick r x) deviation lag now_ms last.x in
      let y_deviated = stick_deviated (stick r y) deviation lag now_ms last.y in
      let z_deviated = stick_deviated (stick r z) deviation lag now_ms last.z in
      let off = c.offboard_command in
      let m0 =
        if switch_override || force_rc_attitude
        then override_att_switch
        else override_no_override in
      let m1 =
        with_bit (not off.qx.active) override_offboard_x_inactive
          (with_bit x_deviated override_x m0) in
      let m2 =
        with_bit (not off.qy.active) override_offboard_y_inactive
          (with_bit y_deviated override_y m1) in
      let m3 =
        with_bit (not off.qz.active) override_offboard_z_inactive
          (with_bit z_deviated override_z m2) in
      (
        record c {
          last_stick_override_time = record {
            x = override_time (stick r x) deviation lag now_ms last.x;
            y = override_time (stick r y) deviation lag now_ms last.y;
            z = override_time (stick r z) deviation lag now_ms last.z;
          };
          combined_command = record (c.combined_command) {
            qx =
                if force_rc_attitude || (switch_override || (x_deviated || not off.qx.active))
                then c.rc_command.qx
                else off.qx;
            qy =
                if force_rc_attitude || (switch_override || (y_deviated || not off.qy.active))
                then c.rc_command.qy
                else off.qy;
            qz =
                if switch_override || (z_deviated || not off.qz.active)
                then c.rc_command.qz
                else off.qz;
          };
        },
        m3,
      )

  -- The RC throttle and the offboard channel of the axis that the parameter names.
  abbrev pub throttle_channel : CombinedControl F → Params F → ControlChannel F
  throttle_channel c params =
      let axis = as_u32 (int_or (get_by_id params param_rc_f_axis) (pos 200)) in
      if axis == 0 then c.fx else if axis == 1 then c.fy else c.fz

  -- `ParamValue::Int(val) => val != 0, _ => true`
  abbrev pub take_min_throttle : ParamValue F → Bool
  take_min_throttle (int v) = not (eqb_ℤ v (pos 0))
  take_min_throttle _ = true

  unfoldable pub throttle_mask : CommandManager F → Params F → Rc F → ℕ
  throttle_mask c params r =
      let rc_throttle = throttle_channel c.rc_command params in
      let offboard_throttle = throttle_channel c.offboard_command params in
      let take_min = take_min_throttle (get_by_id params param_rc_override_take_min_throttle) in
      let m0 =
        with_bit (switch_mapped r throttle_override && switch_on r throttle_override)
          override_thr_switch override_no_override in
      if offboard_throttle.active
      then with_bit (take_min && fl.lt rc_throttle.value offboard_throttle.value) override_t m0
      else bit_or m0 override_offboard_t_inactive

  unfoldable pub do_throttle_muxing : CommandManager F → Params F → Rc F → CommandManager F × ℕ
  do_throttle_muxing c params r =
      let mask = throttle_mask c params r in
      let source =
        if not (mask == override_no_override) then c.rc_command else c.offboard_command in
      (
        record c {
          combined_command = record (c.combined_command) {
            fx = source.fx;
            fy = source.fy;
            fz = source.fz;
          };
        },
        mask,
      )

  unfoldable pub do_muxing : CommandManager F → Params F → Rc F → ℕ → Bool → CommandManager F
  do_muxing c params r now_ms force_rc_attitude =
      let (c1, attitude_mask) = do_attitude_muxing c params r now_ms force_rc_attitude in
      let (c2, force_mask) = do_throttle_muxing c1 params r in
      record c2 {
        rc_override = bit_or attitude_mask force_mask;
        rc_attitude_override = not (attitude_mask == override_no_override);
        rc_throttle_override = not (force_mask == override_no_override);
        combined_command = record (c2.combined_command) {
          passthrough = c2.offboard_command.passthrough;
        };
      }
