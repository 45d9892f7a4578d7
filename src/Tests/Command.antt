-- ===== src/Tests/Command.antt =====
-- The command manager's theorems at concrete inputs.
use veloxity.Base.{◌≡◌, ◌⊎◌, refl, true, false, [], ◌∷◌, arith}
use veloxity.Base.Int.{ℤ, pos}
use veloxity.Float.{nought}
use veloxity.Params.{
  Params, int, float, get_by_id, float_or, param_failsafe_throttle, param_est_angle_lockout,
  param_rc_attitude_mode, param_offboard_timeout,
}
use veloxity.StateMachine.Flags.{no_error, unhealthy_estimator, invalid_failsafe, contains}
use veloxity.StateMachine.Machine.{armed, preflight}
use veloxity.StateMachine.Manager.{StateManager, is_armed, is_in_failsafe, get_errors}
use veloxity.Rc.Types.{stick, switch_mapped, Rc}
use veloxity.Command.Types.{is_angle, mode_rollrate_pitchrate_yawrate_throttle, OffboardControlMsg}
use veloxity.Command.Lockout.{LockoutInput, inactive, reset_machine, step}
use veloxity.Command.Manager.{
  deactivate, offboard_deadline_us, update_offboard_timeout, CommandManager, new,
  set_new_offboard_command, update_failsafe_config,
}
use veloxity.Command.Mux.{
  stick_deviated, param_mode_is_rate, rc_angle_mode_selected, att_switch_override,
  rc_attitude_source_requested, offboard_angle_requested, lockout_input,
  estimator_angle_lockout_enabled,
}
use veloxity.Command.Run.{check_link, failsafe_command, resolve, run}
use veloxity.Command.Failsafe.{IsAccepted, run_link_lost, failsafe_config}
use veloxity.Command.AngleLockout.{angle_refused}
use veloxity.Command.Offboard.{IsExpired, IsRcFlown, timeout_flies_rc}
use veloxity.Command.Sources.{FollowsBits, override_bits}
use veloxity.Command.Hold.{AllForced, denied-AllForced, recovery_releases}
use veloxity.Command.Bypass.{stick-flies_angle}
use veloxity.Rc.Input.{channels_in_range, check_rc_health}
use veloxity.Command.Interpret.{selected_type}
use veloxity.Tests.Data.{hundredths, zero_params, with_param, manager, held_sticks}

-- The lockout is on and the attitude mode is angle.
abbrev lockout_params : Params ℤ
lockout_params =
    with_param (with_param zero_params param_est_angle_lockout (int (pos 1))) param_rc_attitude_mode
      (int (pos 1))

abbrev unhealthy : StateManager
unhealthy = manager (armed unhealthy_estimator)

-- Rates for every axis.
abbrev rate_msg : OffboardControlMsg ℤ
rate_msg = record {
  mode = mode_rollrate_pitchrate_yawrate_throttle;
  ignore = record {
    fx = false;
    fy = false;
    fz = false;
    qx = false;
    qy = false;
    qz = false;
    pass_0 = false;
    pass_1 = false;
    pass_2 = false;
    pass_3 = false;
  };
  qx = pos 1;
  qy = pos 2;
  qz = pos 3;
  fx = pos 4;
  fy = pos 5;
  fz = pos 6;
  passthrough = record { c0 = pos 0; c1 = pos 0; c2 = pos 0; c3 = pos 0 };
}

abbrev offboard : CommandManager ℤ
offboard = set_new_offboard_command new 400000 rate_msg

abbrev late_params : Params ℤ
late_params = with_param zero_params param_offboard_timeout (int (pos 100))

-- A command that is late at 450 ms.
abbrev late_offboard : CommandManager ℤ
late_offboard = set_new_offboard_command new 300000 rate_msg

run_link_lost_example :
    let ran = run new 1000 zero_params held_sticks (manager (armed no_error)) in
    (ran.command.combined_command ≡ failsafe_command new zero_params)
    × (is_armed ran.state ≡ true)
    × (is_in_failsafe ran.state ≡ true)
unfolding is_armed check_rc_health
run_link_lost_example =
    run_link_lost new 1000 zero_params held_sticks (manager (armed no_error)) refl refl

angle_refused_example :
    let c' = (run new 50 lockout_params held_sticks unhealthy).command in
    (is_angle c'.combined_command.qx.control_type ≡ false)
    × (is_angle c'.combined_command.qy.control_type ≡ false)
unfolding check_link check_rc_health channels_in_range is_in_failsafe get_by_id
    estimator_angle_lockout_enabled contains get_errors lockout_input offboard_angle_requested
    update_offboard_timeout offboard_deadline_us new deactivate rc_attitude_source_requested
    att_switch_override switch_mapped rc_angle_mode_selected param_mode_is_rate
angle_refused_example =
    angle_refused new 50 lockout_params held_sticks unhealthy refl
      (record { multirotor = refl; enabled = refl; unhealthy = refl }) refl

stick-flies_angle_example :
    is_angle
      (resolve offboard 400 lockout_params
        (record held_sticks {
          new_command = true;
          stick_values = record { x = pos 90; y = pos 0; z = pos 0; f = pos 0 };
        })
        unhealthy).command.combined_command.qx.control_type
    ≡ true
unfolding get_by_id estimator_angle_lockout_enabled contains get_errors set_new_offboard_command new
    update_offboard_timeout offboard_deadline_us att_switch_override switch_mapped selected_type
    stick_deviated stick
stick-flies_angle_example =
    stick-flies_angle offboard 400 lockout_params
      (record held_sticks {
        new_command = true;
        stick_values = record { x = pos 90; y = pos 0; z = pos 0; f = pos 0 };
      })
      unhealthy (record { multirotor = refl; enabled = refl; unhealthy = refl })
      (record {
        idle = refl;
        x_active = refl;
        x_not_angle = refl;
        y_active = refl;
        y_not_angle = refl;
        switch_off = refl;
        fresh_rc = refl;
        angle_mode = refl;
        deviated = refl;
      })

timeout_flies_rc_example :
    let c' = (run late_offboard 450 late_params held_sticks (manager (armed no_error))).command in
    IsExpired c'.offboard_command × IsRcFlown c'
unfolding check_link check_rc_health channels_in_range is_in_failsafe set_new_offboard_command
    get_by_id
timeout_flies_rc_example =
    timeout_flies_rc late_offboard 450 late_params held_sticks (manager (armed no_error)) 100 refl
      refl (omega arith)

override_bits_example :
    FollowsBits (run offboard 400 zero_params held_sticks (manager (armed no_error))).command
unfolding check_link check_rc_health channels_in_range is_in_failsafe get_by_id
override_bits_example =
    override_bits offboard 400 zero_params held_sticks (manager (armed no_error)) refl

-- Every stick is centred.
abbrev centred : Rc ℤ
centred = record held_sticks {
  stick_values = record { x = pos 0; y = pos 0; z = pos 0; f = pos 0 };
}

failsafe_config_example :
    let params = with_param zero_params param_failsafe_throttle (float (pos 130)) in
    let (c', s') = update_failsafe_config new params (manager (preflight no_error)) in
    let configured = float_or (get_by_id params param_failsafe_throttle) nought in
    let m = c'.multirotor_failsafe_command in
    ((m.fx.value ≡ nought) ⊎ ((m.fx.value ≡ configured) × IsAccepted params))
    × ((m.fy.value ≡ nought) ⊎ ((m.fy.value ≡ configured) × IsAccepted params))
    × ((m.fz.value ≡ nought) ⊎ ((m.fz.value ≡ configured) × IsAccepted params))
    × (c'.fixedwing_failsafe_command.fx.value ≡ nought)
    × (c'.fixedwing_failsafe_command.fy.value ≡ nought)
    × (c'.fixedwing_failsafe_command.fz.value ≡ nought)
    × ((contains (get_errors s') invalid_failsafe ≡ false) ⊎ (¬ IsAccepted params))
    × ((contains (get_errors s') invalid_failsafe ≡ true) ⊎ IsAccepted params)
failsafe_config_example =
    failsafe_config new (with_param zero_params param_failsafe_throttle (float (pos 130)))
      (manager (preflight no_error))

abbrev denied : LockoutInput
denied = record {
  fixed_wing = false;
  estimator_unhealthy = true;
  offboard_angle_requested = false;
  rc_angle_requested = true;
  rc_attitude_source_requested = true;
  att_type_switch_mapped = true;
  att_type_switch_rate = false;
  param_mode_rate = true;
}

abbrev recovered : LockoutInput
recovered = record denied { estimator_unhealthy = false }

denied-AllForced_example : AllForced reset_machine (denied ∷ recovered ∷ recovered ∷ [])
denied-AllForced_example =
    denied-AllForced reset_machine denied (recovered ∷ recovered ∷ [])
      (record { multirotor = refl; mapped = refl; in_angle = refl }) refl refl
      (
        record { multirotor = refl; mapped = refl; in_angle = refl },
        (record { multirotor = refl; mapped = refl; in_angle = refl }, tt),
      )

recovery_releases_example :
    let i = record recovered { att_type_switch_rate = true } in
    ((step (step reset_machine denied).0 i).0.state ≡ inactive)
    × ((step (step reset_machine denied).0 i).1.force_rc_rate ≡ false)
recovery_releases_example =
    recovery_releases (step reset_machine denied).0
      (record recovered { att_type_switch_rate = true }) refl refl refl
