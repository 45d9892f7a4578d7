-- ===== src/Command/Run.antt =====
-- `CommandManager::run` of crates/veloxity_core/src/command.rs, and its getters.
use veloxity.Base.{ℕ, ◌*◌, Bool, false, not, ◌||◌, none, some, ◌==◌, if◌then◌else◌}
use veloxity.Float.{Float}
use veloxity.Params.{Params, get_by_id, is_nonzero_int, param_fixed_wing}
use veloxity.StateMachine.Flags.{rc_lost}
use veloxity.StateMachine.Machine.{error_occurred}
use veloxity.StateMachine.Manager.{StateManager, update, is_in_failsafe}
use veloxity.Rc.Types.{Rc, take_new_command}
use veloxity.Rc.Input.{check_rc_health}
use veloxity.Command.Types.{ControlType, rate, CombinedControl, override_no_override}
use veloxity.Command.Lockout.{LockoutOutput}
use veloxity.Command.Manager.{CommandManager, update_offboard_timeout}
use veloxity.Command.Interpret.{interpret_rc}
use veloxity.Command.Mux.{estimator_mode_safety, do_muxing}

-- What `run` returns and what it changes.
pub record Ran (F : Type 0) : Type 0 where
  pub force_rc_attitude_mode_rate : Bool
  pub command : CommandManager F
  pub rc : Rc F
  pub state : StateManager

module _ {F : Type 0} ⦃fl : Float F⦄ where
  unfoldable pub check_link : Rc F → ℕ → Params F → StateManager → StateManager
  check_link r now_us params s =
      if not (check_rc_health r now_us params) then update s (error_occurred rc_lost) params else s

  abbrev pub failsafe_command : CommandManager F → Params F → CombinedControl F
  failsafe_command c params =
      if is_nonzero_int (get_by_id params param_fixed_wing)
      then c.fixedwing_failsafe_command
      else c.multirotor_failsafe_command

  -- `run` after the failsafe exit and up to the muxing: the offboard timeout, the estimator's mode
  -- safety and the reading of the sticks.
  unfoldable pub prepare :
      CommandManager F → ℕ → Params F → Rc F → StateManager → CommandManager F × LockoutOutput
  prepare c now_ms params r s =
      let (c', safety) =
        estimator_mode_safety (update_offboard_timeout c (now_ms * 1000) params) params r s in
      let (has_new_rc, r') = take_new_command r in
      (
        if has_new_rc || safety.force_rc_rate
            then interpret_rc c' r' params (if safety.force_rc_rate then some rate else none)
            else c',
        safety,
      )

  -- The part of `run` after the failsafe exit.
  unfoldable pub resolve : CommandManager F → ℕ → Params F → Rc F → StateManager → Ran F
  resolve c now_ms params r s =
      let (c', safety) = prepare c now_ms params r s in
      let r' = (take_new_command r).1 in
      record {
        force_rc_attitude_mode_rate = safety.force_param_rate;
        command = do_muxing c' params r' now_ms safety.force_rc_attitude;
        rc = r';
        state = s;
      }

  unfoldable pub run : CommandManager F → ℕ → Params F → Rc F → StateManager → Ran F
  unfolding check_link resolve
  run c now_ms params r s =
      let s' = check_link r (now_ms * 1000) params s in
      if is_in_failsafe s'
      then record {
        force_rc_attitude_mode_rate = false;
        command = record c { combined_command = failsafe_command c params };
        rc = r;
        state = s';
      }
      else resolve c now_ms params r s'

module _ {F : Type 0} where
  unfoldable pub get_control_mode : CommandManager F → ControlType
  get_control_mode c = c.combined_command.qx.control_type

  unfoldable pub rc_override_active : CommandManager F → Bool
  rc_override_active c = not (c.rc_override == override_no_override)

  unfoldable pub is_offboard_active : CommandManager F → Bool
  is_offboard_active c =
      let off = c.offboard_command in
      off.qx.active
      || (off.qy.active || (off.qz.active || (off.fx.active || (off.fy.active || off.fz.active))))
