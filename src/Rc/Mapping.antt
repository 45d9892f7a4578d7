-- ===== src/Rc/Mapping.antt =====
-- The stick and switch mappings of crates/veloxity_core/src/rc.rs follow the parameters.
use veloxity.Base.{◌≡◌, ◌≢◌, refl, sym, ◌∙◌, inl, inr, true, false, ◌==◌, arith, Bool-cases}
use veloxity.Base.Int.{ℤ}
use veloxity.Params.{
  Params, ParamId, ParamValue, set_by_id, get_by_id-set_ne, param_rc_x_channel, param_rc_y_channel,
  param_rc_z_channel, param_rc_f_channel, param_rc_num_channels, param_rc_arm_channel,
  param_rc_attitude_override_channel, param_rc_throttle_override_channel,
  param_rc_att_control_type_channel, param_rc_output_kill_channel, param_rc_switch_5_direction,
  param_rc_switch_6_direction, param_rc_switch_7_direction, param_rc_switch_8_direction,
}
use veloxity.Rc.Types.{Rc}
use veloxity.Rc.Config.{
  is_stick_param, is_switch_param, switch_direction, switch_config, init_sticks,
  update_switch_mappings, init, param_change_callback,
}

-- The mappings are those that initialisation gives for these parameters.
pub record IsConfigured {F : Type 0} (r : Rc F) (params : Params F) : Type 0 where
  pub sticks : r.sticks ≡ (init_sticks r params).sticks
  pub switches : r.switches ≡ (update_switch_mappings r params).switches

module _ {F : Type 0} where
  pub init-IsConfigured : (r : Rc F) (params : Params F) → IsConfigured (init r params) params
  unfolding init
  init-IsConfigured r params = record { sticks = refl; switches = refl }

not_switch_param :
    (id : ParamId)
    → is_switch_param id ≡ false
    → ((id == param_rc_switch_5_direction) ≡ false)
      × ((id == param_rc_switch_6_direction) ≡ false)
      × ((id == param_rc_switch_7_direction) ≡ false)
      × ((id == param_rc_switch_8_direction) ≡ false)
unfolding is_switch_param
not_switch_param id h = ground arith

pub stick-not_switch : (id : ParamId) → is_stick_param id ≡ true → is_switch_param id ≡ false
unfolding is_stick_param is_switch_param
stick-not_switch id h = ground arith

module _ {F : Type 0} (r : Rc F) (params : Params F) (id : ParamId) (value : ParamValue F) where
  init_sticks-set :
      is_stick_param id ≡ false
      → (init_sticks r (set_by_id params id value)).sticks ≡ (init_sticks r params).sticks
  unfolding init_sticks is_stick_param
  init_sticks-set h = ground (
    arith,
    get_by_id-set_ne params id param_rc_x_channel value,
    get_by_id-set_ne params id param_rc_y_channel value,
    get_by_id-set_ne params id param_rc_z_channel value,
    get_by_id-set_ne params id param_rc_f_channel value,
  )

  direction-set :
      (channel : ℤ)
      → is_switch_param id ≡ false
      → switch_direction (set_by_id params id value) channel ≡ switch_direction params channel
  unfolding switch_direction
  direction-set channel h =
      let other = not_switch_param id h in
      cc (
        get_by_id-set_ne params id param_rc_switch_5_direction value other.0,
        get_by_id-set_ne params id param_rc_switch_6_direction value other.1,
        get_by_id-set_ne params id param_rc_switch_7_direction value other.2,
        get_by_id-set_ne params id param_rc_switch_8_direction value other.3,
      )

  switch_config-set :
      (channel : ParamId)
      → (id == channel) ≡ false
      → is_switch_param id ≡ false
      → (id == param_rc_num_channels) ≡ false
      → switch_config (set_by_id params id value) channel ≡ switch_config params channel
  unfolding switch_config
  switch_config-set channel c h n = rw (
    get_by_id-set_ne params id channel value c,
    get_by_id-set_ne params id param_rc_num_channels value n,
    direction-set _ h,
  )

  update_switch_mappings-set :
      is_switch_param id ≡ false
      → (id == param_rc_num_channels) ≡ false
      → (update_switch_mappings r (set_by_id params id value)).switches
        ≡ (update_switch_mappings r params).switches
  unfolding update_switch_mappings is_switch_param
  update_switch_mappings-set h n = ground (
    arith,
    switch_config-set param_rc_arm_channel,
    switch_config-set param_rc_attitude_override_channel,
    switch_config-set param_rc_throttle_override_channel,
    switch_config-set param_rc_att_control_type_channel,
    switch_config-set param_rc_output_kill_channel,
  )

  -- Where the mappings are those of the parameters and any parameter but the number of channels is set,
  -- the callback makes them those of the new parameters.
  pub callback-IsConfigured :
      id ≢ param_rc_num_channels
      → IsConfigured r params
      → let params' = set_by_id params id value in
        IsConfigured (param_change_callback r id params') params'
  unfolding param_change_callback
  callback-IsConfigured ne h =
      let n : (id == param_rc_num_channels) ≡ false = ground arith in
      elim (Bool-cases (is_stick_param id)) [
        | inl moved ↦ rw (moved) (record {
          sticks = refl;
          switches = h.switches ∙ sym (update_switch_mappings-set (stick-not_switch id moved) n);
        })
        | inr kept ↦ elim (Bool-cases (is_switch_param id)) [
          | inl moved ↦
              rw (kept, moved)
                (record { sticks = h.sticks ∙ sym (init_sticks-set kept); switches = refl })
          | inr same ↦
              rw (kept, same)
                (record {
                  sticks = h.sticks ∙ sym (init_sticks-set kept);
                  switches = h.switches ∙ sym (update_switch_mappings-set same n);
                })
        ]
      ]
