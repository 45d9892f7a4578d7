-- ===== src/Rc/Config.antt =====
-- How the parameters map sticks and switches to channels: `init`, `init_sticks`,
-- `update_switch_mappings` and `param_change_callback` of crates/veloxity_core/src/rc.rs.
use veloxity.Base.{Bool, true, false, ◌&&◌, ◌||◌, ◌==◌, if◌then◌else◌}
use veloxity.Base.Int.{ℤ, pos, ltb_ℤ, eqb_ℤ}
use veloxity.Params.{
  Params, ParamId, get_by_id, int_or, param_rc_x_channel, param_rc_y_channel, param_rc_z_channel,
  param_rc_f_channel, param_rc_num_channels, param_rc_arm_channel,
  param_rc_attitude_override_channel, param_rc_throttle_override_channel,
  param_rc_att_control_type_channel, param_rc_output_kill_channel, param_rc_switch_5_direction,
  param_rc_switch_6_direction, param_rc_switch_7_direction, param_rc_switch_8_direction,
}
use veloxity.Rc.Types.{Rc, StickConfig, SwitchConfig}

unfoldable pub is_stick_param : ParamId → Bool
is_stick_param id =
    id == param_rc_x_channel
    || id == param_rc_y_channel
    || id == param_rc_z_channel
    || id == param_rc_f_channel

unfoldable pub is_switch_param : ParamId → Bool
is_switch_param id =
    id == param_rc_attitude_override_channel
    || id == param_rc_throttle_override_channel
    || id == param_rc_att_control_type_channel
    || id == param_rc_arm_channel
    || id == param_rc_output_kill_channel
    || id == param_rc_switch_5_direction
    || id == param_rc_switch_6_direction
    || id == param_rc_switch_7_direction
    || id == param_rc_switch_8_direction

module _ {F : Type 0} where
  stick_config : Params F → ParamId → ℤ → Bool → StickConfig
  stick_config params id default one_sided = record {
    channel = int_or (get_by_id params id) default;
    one_sided = one_sided;
  }

  unfoldable pub init_sticks : Rc F → Params F → Rc F
  unfolding stick_config
  init_sticks r params = record r {
    sticks = record {
      x = stick_config params param_rc_x_channel (pos 0) false;
      y = stick_config params param_rc_y_channel (pos 1) false;
      z = stick_config params param_rc_z_channel (pos 3) false;
      f = stick_config params param_rc_f_channel (pos 2) true;
    };
  }

  -- Only channels 4 to 7 have a direction parameter.
  unfoldable pub switch_direction : Params F → ℤ → ℤ
  switch_direction params channel =
      if eqb_ℤ channel (pos 4)
      then int_or (get_by_id params param_rc_switch_5_direction) (pos 1)
      else if eqb_ℤ channel (pos 5)
      then int_or (get_by_id params param_rc_switch_6_direction) (pos 1)
      else if eqb_ℤ channel (pos 6)
      then int_or (get_by_id params param_rc_switch_7_direction) (pos 1)
      else if eqb_ℤ channel (pos 7)
      then int_or (get_by_id params param_rc_switch_8_direction) (pos 1)
      else pos 1

  unfoldable pub switch_config : Params F → ParamId → SwitchConfig
  switch_config params id =
      let rc_num_channels = int_or (get_by_id params param_rc_num_channels) (pos 6) in
      let channel_num = int_or (get_by_id params id) (pos 255) in
      record {
        channel = channel_num;
        mapped = ltb_ℤ (pos 3) channel_num && ltb_ℤ channel_num rc_num_channels;
        direction = switch_direction params channel_num;
      }

  unfoldable pub update_switch_mappings : Rc F → Params F → Rc F
  unfolding switch_config
  update_switch_mappings r params = record r {
    switches = record {
      arm = switch_config params param_rc_arm_channel;
      att_override = switch_config params param_rc_attitude_override_channel;
      throttle_override = switch_config params param_rc_throttle_override_channel;
      att_type = switch_config params param_rc_att_control_type_channel;
      output_kill = switch_config params param_rc_output_kill_channel;
    };
  }

  unfoldable pub init : Rc F → Params F → Rc F
  unfolding init_sticks update_switch_mappings
  init r params = record (update_switch_mappings (init_sticks r params) params) {
    new_command = false;
  }

  unfoldable pub param_change_callback : Rc F → ParamId → Params F → Rc F
  unfolding init_sticks update_switch_mappings
  param_change_callback r id params =
      if is_stick_param id
      then init_sticks r params
      else if is_switch_param id
      then update_switch_mappings r params
      else r
