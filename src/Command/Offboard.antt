-- ===== src/Command/Offboard.antt =====
-- The offboard command and its timeout: crates/veloxity_core/src/command.rs.
use veloxity.Base.{ℕ, Bool, Option, none, some, ◌+◌, ◌*◌, ◌<◌, ◌≤◌, ◌≡◌, refl, false, arith}
use veloxity.Float.{Float}
use veloxity.Params.{Params, int, get_by_id, param_offboard_timeout}
use veloxity.Base.Int.{pos}
use veloxity.StateMachine.Manager.{StateManager, is_in_failsafe}
use veloxity.Rc.Types.{Rc, take_new_command}
use veloxity.Command.Types.{ControlType, rate, CombinedControl}
use veloxity.Command.Manager.{
  CommandManager, deactivate, offboard_deadline_us, update_offboard_timeout,
}
use veloxity.Command.Interpret.{interpret_rc}
use veloxity.Command.Mux.{
  do_muxing, do_attitude_muxing, do_throttle_muxing, throttle_mask, estimator_mode_safety,
}
use veloxity.Command.Run.{check_link, prepare, resolve, run}
use veloxity.Command.Failsafe.{run_outside_failsafe}

-- None of the six axes is active.
pub record IsExpired {F : Type 0} (off : CombinedControl F) : Type 0 where
  pub qx : off.qx.active ≡ false
  pub qy : off.qy.active ≡ false
  pub qz : off.qz.active ≡ false
  pub fx : off.fx.active ≡ false
  pub fy : off.fy.active ≡ false
  pub fz : off.fz.active ≡ false

-- What is flown is the RC command on all six axes.
pub record IsRcFlown {F : Type 0} (c : CommandManager F) : Type 0 where
  pub qx : c.combined_command.qx ≡ c.rc_command.qx
  pub qy : c.combined_command.qy ≡ c.rc_command.qy
  pub qz : c.combined_command.qz ≡ c.rc_command.qz
  pub fx : c.combined_command.fx ≡ c.rc_command.fx
  pub fy : c.combined_command.fy ≡ c.rc_command.fy
  pub fz : c.combined_command.fz ≡ c.rc_command.fz

module _ {F : Type 0} ⦃fl : Float F⦄ (params : Params F) (r : Rc F) where
  pub do_muxing-offboard :
      (c : CommandManager F) (now_ms : ℕ) (force : Bool)
      → (do_muxing c params r now_ms force).offboard_command ≡ c.offboard_command
  unfolding do_muxing do_attitude_muxing do_throttle_muxing
  do_muxing-offboard c now_ms force = ground arith

  pub do_muxing-rc :
      (c : CommandManager F) (now_ms : ℕ) (force : Bool)
      → (do_muxing c params r now_ms force).rc_command ≡ c.rc_command
  unfolding do_muxing do_attitude_muxing do_throttle_muxing
  do_muxing-rc c now_ms force = ground arith

  do_muxing-IsRcFlown :
      (c : CommandManager F) (now_ms : ℕ) (force : Bool)
      → IsExpired c.offboard_command
      → IsRcFlown (do_muxing c params r now_ms force)
  unfolding do_muxing do_attitude_muxing do_throttle_muxing throttle_mask
  do_muxing-IsRcFlown c now_ms force h = ground arith

  pub safety-offboard :
      (c : CommandManager F) (s : StateManager)
      → (estimator_mode_safety c params r s).0.offboard_command ≡ c.offboard_command
  unfolding estimator_mode_safety
  safety-offboard c s = ground arith

  pub interpret_rc-offboard :
      (c : CommandManager F) (forced : Option ControlType)
      → (interpret_rc c r params forced).offboard_command ≡ c.offboard_command
  unfolding interpret_rc
  interpret_rc-offboard c forced = refl

deactivate-IsExpired : {F : Type 0} (off : CombinedControl F) → IsExpired (deactivate off)
unfolding deactivate
deactivate-IsExpired off = ground arith

module _ {F : Type 0} ⦃fl : Float F⦄ (c : CommandManager F) (now_ms : ℕ) (params : Params F)
    (r : Rc F) (s : StateManager) where
  pub prepare-offboard :
      (prepare c now_ms params r s).0.offboard_command
      ≡ (update_offboard_timeout c (now_ms * 1000) params).offboard_command
  unfolding prepare
  prepare-offboard =
      let fresh = update_offboard_timeout c (now_ms * 1000) params in
      let (c', safety) = estimator_mode_safety fresh params r s in
      ground (
        arith,
        safety-offboard params r fresh s,
        interpret_rc-offboard params (take_new_command r).1 c' (some rate),
        interpret_rc-offboard params (take_new_command r).1 c' none,
      )

  update_offboard_timeout-IsExpired :
      offboard_deadline_us c params < now_ms * 1000
      → IsExpired (update_offboard_timeout c (now_ms * 1000) params).offboard_command
  unfolding update_offboard_timeout
  update_offboard_timeout-IsExpired late = ground (arith, deactivate-IsExpired c.offboard_command)

  resolve-IsRcFlown :
      offboard_deadline_us c params < now_ms * 1000
      → let c' = (resolve c now_ms params r s).command in
        IsExpired c'.offboard_command × IsRcFlown c'
  unfolding resolve
  resolve-IsRcFlown late =
      let (c', safety) = prepare c now_ms params r s in
      let r' = (take_new_command r).1 in
      let expired : IsExpired c'.offboard_command =
        rw (prepare-offboard) (update_offboard_timeout-IsExpired late) in
      (
        rw (do_muxing-offboard params r' c' now_ms safety.force_rc_attitude) expired,
        do_muxing-IsRcFlown params r' c' now_ms safety.force_rc_attitude expired,
      )

module _ {F : Type 0} ⦃fl : Float F⦄ (c : CommandManager F) (now_ms : ℕ) (params : Params F)
    (r : Rc F) (s : StateManager) where
  deadline-not_after :
      (timeout_ms : ℕ)
      → get_by_id params param_offboard_timeout ≡ int (pos timeout_ms)
      → offboard_deadline_us c params ≤ c.last_offboard_command_us + timeout_ms * 1000
  unfolding offboard_deadline_us
  deadline-not_after timeout_ms e = rw e (omega arith)

  -- Outside failsafe, when more than the timeout parameter's milliseconds have passed since the last
  -- offboard command, a run leaves no offboard axis active, and all six axes that it flies are those
  -- of the RC command. The parameter is an integer that is not negative.
  pub timeout_flies_rc :
      (timeout_ms : ℕ)
      → is_in_failsafe (check_link r (now_ms * 1000) params s) ≡ false
      → get_by_id params param_offboard_timeout ≡ int (pos timeout_ms)
      → c.last_offboard_command_us + timeout_ms * 1000 < now_ms * 1000
      → let c' = (run c now_ms params r s).command in IsExpired c'.offboard_command × IsRcFlown c'
  timeout_flies_rc timeout_ms flying set late =
      let not_after = deadline-not_after timeout_ms set in
      rw (run_outside_failsafe c now_ms params r s flying) (
        resolve-IsRcFlown c now_ms params r (check_link r (now_ms * 1000) params s)
          (omega (arith, not_after, late)))
