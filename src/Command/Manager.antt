-- ===== src/Command/Manager.antt =====
-- `CommandManager` of crates/veloxity_core/src/command.rs: its state, the failsafe configuration, and
-- the offboard command with its timeout.
use veloxity.Base.{
  ℕ, ◌+◌, ◌*◌, ◌/◌, ◌%◌, ◌^◌, Bool, true, false, not, ◌&&◌, ◌||◌, leb, if◌then◌else◌,
}
use veloxity.Base.Int.{pos, eqb_ℤ, as_u32}
use veloxity.Float.{Float, nought, unit}
use veloxity.Params.{
  Params, ParamValue, get_by_id, int_or, float_or, is_nonzero_int, param_failsafe_throttle,
  param_fixed_wing, param_rc_f_axis, param_offboard_timeout,
}
use veloxity.StateMachine.Flags.{invalid_failsafe}
use veloxity.StateMachine.Machine.{error_occurred, error_cleared}
use veloxity.StateMachine.Manager.{StateManager, update}
use veloxity.Command.Types.{
  ControlType, rate, angle, throttle, passthrough, ControlChannel, CombinedControl,
  OffboardControlMode, mode_pass_through, mode_rollrate_pitchrate_yawrate_throttle,
  mode_roll_pitch_yawrate_throttle, OffboardControlMsg, default_control,
}
use veloxity.Command.Lockout.{LockoutMachine, reset_machine}

-- The times of the last overrides by the x, y and z sticks.
pub record OverrideTimes : Type 0 where
  pub x : ℕ
  pub y : ℕ
  pub z : ℕ

pub record CommandManager (F : Type 0) : Type 0 where
  pub rc_command : CombinedControl F
  pub offboard_command : CombinedControl F
  pub combined_command : CombinedControl F
  pub multirotor_failsafe_command : CombinedControl F
  pub fixedwing_failsafe_command : CombinedControl F
  pub last_offboard_command_us : ℕ  -- u64
  pub last_stick_override_time : OverrideTimes  -- u32
  pub rc_throttle_override : Bool
  pub rc_attitude_override : Bool
  pub rc_override : ℕ  -- u16
  pub rc_angle_mode_lockout : LockoutMachine

module _ {F : Type 0} ⦃fl : Float F⦄ where
  abbrev active_channel : ControlType → ControlChannel F
  active_channel type = record { active = true; control_type = type; value = nought }

  unfoldable pub new : CommandManager F
  new = record {
    rc_command = default_control;
    offboard_command = default_control;
    combined_command = default_control;
    multirotor_failsafe_command = record default_control {
      qx = active_channel angle;
      qy = active_channel angle;
      qz = active_channel rate;
      fx = active_channel throttle;
      fy = active_channel throttle;
      fz = active_channel throttle;
    };
    fixedwing_failsafe_command = record default_control {
      qx = active_channel passthrough;
      qy = active_channel passthrough;
      qz = active_channel passthrough;
      fx = active_channel passthrough;
      fy = active_channel passthrough;
      fz = active_channel passthrough;
    };
    last_offboard_command_us = 0;
    last_stick_override_time = record { x = 0; y = 0; z = 0 };
    rc_throttle_override = false;
    rc_attitude_override = false;
    rc_override = 0;
    rc_angle_mode_lockout = reset_machine;
  }

  abbrev pub with_value : ControlChannel F → F → ControlChannel F
  with_value c v = record c { value = v }

  -- The value goes to the axis that the parameter names, 0.0 to the others.
  abbrev pub on_axis : CombinedControl F → ParamValue F → F → CombinedControl F
  on_axis c axis v =
      let on_x = eqb_ℤ (int_or axis (pos 2)) (pos 0) in
      let on_y = eqb_ℤ (int_or axis (pos 2)) (pos 1) in
      record c {
        fx = with_value c.fx (if on_x then v else nought);
        fy = with_value c.fy (if on_y then v else nought);
        fz = with_value c.fz (if on_x || on_y then nought else v);
      }

  unfoldable pub update_failsafe_config :
      CommandManager F → Params F → StateManager → CommandManager F × StateManager
  update_failsafe_config c params s =
      let configured = float_or (get_by_id params param_failsafe_throttle) nought in
      let is_fixed_wing = is_nonzero_int (get_by_id params param_fixed_wing) in
      let refused = not is_fixed_wing && (fl.lt configured nought || fl.lt unit configured) in
      let failsafe_throttle = if refused then nought else configured in
      (
        record c {
          multirotor_failsafe_command =
              on_axis c.multirotor_failsafe_command (get_by_id params param_rc_f_axis)
                failsafe_throttle;
          fixedwing_failsafe_command = record (c.fixedwing_failsafe_command) {
            fx = with_value c.fixedwing_failsafe_command.fx nought;
            fy = with_value c.fixedwing_failsafe_command.fy nought;
            fz = with_value c.fixedwing_failsafe_command.fz nought;
          };
        },
        if refused
            then update s (error_occurred invalid_failsafe) params
            else update s (error_cleared invalid_failsafe) params,
      )

-- The control types that a message's mode gives the x and y attitude channels, the z one and the
-- force channels.
abbrev pub attitude_type : OffboardControlMode → ControlType
attitude_type mode_pass_through = passthrough
attitude_type mode_rollrate_pitchrate_yawrate_throttle = rate
attitude_type mode_roll_pitch_yawrate_throttle = angle

abbrev pub yaw_type : OffboardControlMode → ControlType
yaw_type mode_pass_through = passthrough
yaw_type mode_rollrate_pitchrate_yawrate_throttle = rate
yaw_type mode_roll_pitch_yawrate_throttle = rate

abbrev pub force_type : OffboardControlMode → ControlType
force_type mode_pass_through = passthrough
force_type mode_rollrate_pitchrate_yawrate_throttle = throttle
force_type mode_roll_pitch_yawrate_throttle = throttle

module _ {F : Type 0} where
  abbrev pub inactive_channel : ControlChannel F → ControlChannel F
  inactive_channel c = record c { active = false }

  unfoldable pub deactivate : CombinedControl F → CombinedControl F
  deactivate c = record c {
    qx = inactive_channel c.qx;
    qy = inactive_channel c.qy;
    qz = inactive_channel c.qz;
    fx = inactive_channel c.fx;
    fy = inactive_channel c.fy;
    fz = inactive_channel c.fz;
    passthrough = record {
      c0 = inactive_channel c.passthrough.c0;
      c1 = inactive_channel c.passthrough.c1;
      c2 = inactive_channel c.passthrough.c2;
      c3 = inactive_channel c.passthrough.c3;
    };
  }

  -- The u64 sum wraps as in a release build.
  unfoldable pub offboard_deadline_us : CommandManager F → Params F → ℕ
  offboard_deadline_us c params =
      let timeout_ms = as_u32 (int_or (get_by_id params param_offboard_timeout) (pos 100)) in
      (c.last_offboard_command_us + timeout_ms * 1000) % 2 ^ 64

  unfoldable pub update_offboard_timeout : CommandManager F → ℕ → Params F → CommandManager F
  update_offboard_timeout c now_us params =
      if leb now_us (offboard_deadline_us c params)
      then c
      else record c { offboard_command = deactivate c.offboard_command }

  abbrev commanded : Bool → ControlType → F → ControlChannel F
  commanded ignored type v = record { active = not ignored; control_type = type; value = v }

  unfoldable pub set_new_offboard_command :
      CommandManager F → ℕ → OffboardControlMsg F → CommandManager F
  set_new_offboard_command c now_us msg = record c {
    last_offboard_command_us = now_us;
    offboard_command = record {
      stamp_ms = now_us / 1000 % 2 ^ 32;
      qx = commanded msg.ignore.qx (attitude_type msg.mode) msg.qx;
      qy = commanded msg.ignore.qy (attitude_type msg.mode) msg.qy;
      qz = commanded msg.ignore.qz (yaw_type msg.mode) msg.qz;
      fx = commanded msg.ignore.fx (force_type msg.mode) msg.fx;
      fy = commanded msg.ignore.fy (force_type msg.mode) msg.fy;
      fz = commanded msg.ignore.fz (force_type msg.mode) msg.fz;
      passthrough = record {
        c0 = commanded msg.ignore.pass_0 passthrough msg.passthrough.c0;
        c1 = commanded msg.ignore.pass_1 passthrough msg.passthrough.c1;
        c2 = commanded msg.ignore.pass_2 passthrough msg.passthrough.c2;
        c3 = commanded msg.ignore.pass_3 passthrough msg.passthrough.c3;
      };
    };
  }
