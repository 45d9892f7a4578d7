-- ===== src/Command/Bypass.antt =====
-- The stick override is not seen by the angle lockout of crates/veloxity_core/src/command.rs.
use veloxity.Base.{ℕ, ◌≡◌, true, false, arith}
use veloxity.Float.{Float}
use veloxity.Params.{Params}
use veloxity.StateMachine.Manager.{StateManager}
use veloxity.Rc.Types.{Rc, stick, switch_on, switch_mapped, take_new_command}
use veloxity.Command.Types.{is_angle}
use veloxity.Command.Lockout.{step}
use veloxity.Command.Manager.{CommandManager, update_offboard_timeout}
use veloxity.Command.Interpret.{interpret_rc, selected_type}
use veloxity.Command.Mux.{
  offboard_angle_requested, rc_attitude_source_requested, lockout_input, estimator_mode_safety,
  do_muxing, do_attitude_muxing, do_throttle_muxing, att_switch_override,
}
use veloxity.Command.Run.{prepare, resolve}
use veloxity.Command.AngleLockout.{IsGuarded, IsStickOverride}

module _ {F : Type 0} ⦃fl : Float F⦄ (c : CommandManager F) (now_ms : ℕ) (params : Params F)
    (r : Rc F) (s : StateManager) where
  prepare-open :
      IsGuarded params s
      → IsStickOverride c now_ms params r s
      → let (c', safety) = prepare c now_ms params r s in
        (is_angle c'.rc_command.qx.control_type ≡ true)
        × (safety.force_rc_rate ≡ false)
        × (safety.force_rc_attitude ≡ false)
        × (c'.last_stick_override_time ≡ c.last_stick_override_time)
  unfolding prepare estimator_mode_safety step lockout_input offboard_angle_requested
      rc_attitude_source_requested interpret_rc take_new_command selected_type switch_on
      switch_mapped update_offboard_timeout
  prepare-open g o = ground arith

  -- On a multirotor with the lockout enabled but idle and the estimator unhealthy, when the
  -- companion commands rates on active roll and pitch channels, the attitude override switch is
  -- off, the RC mode is angle and a new RC command has come, then a deviated roll stick makes the
  -- flown roll command an angle.
  pub stick-flies_angle :
      IsGuarded params s
      → IsStickOverride c now_ms params r s
      → is_angle (resolve c now_ms params r s).command.combined_command.qx.control_type ≡ true
  unfolding resolve do_muxing do_attitude_muxing do_throttle_muxing take_new_command stick
      att_switch_override switch_on switch_mapped
  stick-flies_angle g o = ground (arith, prepare-open g o, o.deviated, o.switch_off, o.x_active)
