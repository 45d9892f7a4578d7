-- ===== src/Command/Interpret.antt =====
-- `interpret_rc` of crates/veloxity_core/src/command.rs: the sticks as a command.
use veloxity.Base.{true, Option, none, some, if◌then◌else◌}
use veloxity.Base.Int.{pos, eqb_ℤ}
use veloxity.Float.{Float, unit}
use veloxity.Params.{
  Params, ParamId, get_by_id, int_or, float_or, is_nonzero_int, param_rc_f_axis, param_fixed_wing,
  param_rc_attitude_mode, param_rc_max_rollrate, param_rc_max_pitchrate, param_rc_max_roll,
  param_rc_max_pitch, param_rc_max_yawrate,
}
use veloxity.Rc.Types.{Rc, x, y, z, f, att_type, stick, switch_on, switch_mapped}
use veloxity.Command.Types.{
  ControlType, rate, angle, throttle, passthrough, ControlChannel, CombinedControl,
}
use veloxity.Command.Manager.{CommandManager, on_axis}

module _ {F : Type 0} where
  -- The roll and pitch type that is not forced: the switch, if mapped, or else the parameter.
  unfoldable pub selected_type : Rc F → Params F → ControlType
  selected_type r params =
      if switch_mapped r att_type
      then if switch_on r att_type then angle else rate
      else if eqb_ℤ (int_or (get_by_id params param_rc_attitude_mode) (pos 200)) (pos 0)
      then rate
      else angle

  abbrev pub roll_pitch_type : Option ControlType → Rc F → Params F → ControlType
  roll_pitch_type (some forced) r params = forced
  roll_pitch_type none r params = selected_type r params

module _ {F : Type 0} ⦃fl : Float F⦄ where
  -- The scale of the roll or pitch stick: the rate's or the angle's maximum.
  abbrev scaled : ControlType → Params F → ParamId → ParamId → F → F
  scaled rate params max_rate max_angle v = fl.mul v (float_or (get_by_id params max_rate) unit)
  scaled angle params max_rate max_angle v = fl.mul v (float_or (get_by_id params max_angle) unit)
  scaled _ params max_rate max_angle v = v

  abbrev with_type : ControlType → F → ControlChannel F
  with_type type v = record { active = true; control_type = type; value = v }

  abbrev retyped : ControlType → ControlChannel F → ControlChannel F
  retyped type c = record c { active = true; control_type = type }

  -- The force channels: the F stick goes to the axis that the parameter names.
  abbrev forces : ControlType → CombinedControl F → Rc F → Params F → CombinedControl F
  forces type c r params =
      let placed = on_axis c (get_by_id params param_rc_f_axis) (stick r f) in
      record placed {
        fx = retyped type placed.fx;
        fy = retyped type placed.fy;
        fz = retyped type placed.fz;
      }

  unfoldable pub interpreted :
      CombinedControl F → Rc F → Params F → Option ControlType → CombinedControl F
  interpreted c r params forced =
      if is_nonzero_int (get_by_id params param_fixed_wing)
      then record (forces passthrough c r params) {
        qx = with_type passthrough (stick r x);
        qy = with_type passthrough (stick r y);
        qz = with_type passthrough (stick r z);
      }
      else (let type = roll_pitch_type forced r params in
          record (forces throttle c r params) {
            qx =
                with_type type
                  (scaled type params param_rc_max_rollrate param_rc_max_roll (stick r x));
            qy =
                with_type type
                  (scaled type params param_rc_max_pitchrate param_rc_max_pitch (stick r y));
            qz =
                with_type rate
                  (fl.mul (stick r z) (float_or (get_by_id params param_rc_max_yawrate) unit));
          })

  unfoldable pub interpret_rc :
      CommandManager F → Rc F → Params F → Option ControlType → CommandManager F
  unfolding interpreted
  interpret_rc m r params forced = record m {
    rc_command = interpreted m.rc_command r params forced;
  }
