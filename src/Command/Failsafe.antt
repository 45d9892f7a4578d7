-- ===== src/Command/Failsafe.antt =====
-- What is flown in failsafe, and how the failsafe throttle is configured:
-- crates/veloxity_core/src/command.rs.
use veloxity.Base.{ℕ, ◌*◌, ◌≡◌, ◌⊎◌, refl, true, false, if◌then◌else◌, arith}
use veloxity.Float.{Float, nought, unit}
use veloxity.Params.{
  Params, get_by_id, float_or, is_nonzero_int, param_failsafe_throttle, param_fixed_wing,
}
use veloxity.StateMachine.Flags.{ErrorFlag, invalid_failsafe, insert, remove, contains}
use veloxity.StateMachine.Machine.{error_occurred, error_cleared}
use veloxity.StateMachine.Manager.{StateManager, is_armed, is_in_failsafe, get_errors}
use veloxity.StateMachine.Errors.{get_errors-update}
use veloxity.StateMachine.Failsafe.{rc_lost-failsafe}
use veloxity.Rc.Types.{Rc}
use veloxity.Rc.Input.{check_rc_health}
use veloxity.Command.Manager.{CommandManager, update_failsafe_config}
use veloxity.Command.Run.{check_link, failsafe_command, resolve, run}

module _ {F : Type 0} ⦃fl : Float F⦄ (c : CommandManager F) (now_ms : ℕ) (params : Params F)
    (r : Rc F) (s : StateManager) where
  -- In failsafe the failsafe command of the airframe is flown, whatever RC and the companion ask,
  -- and nothing else of the manager changes.
  pub run_in_failsafe :
      is_in_failsafe (check_link r (now_ms * 1000) params s) ≡ true
      → ((run c now_ms params r s).command
          ≡ record c { combined_command = failsafe_command c params })
        × ((run c now_ms params r s).rc ≡ r)
        × ((run c now_ms params r s).force_rc_attitude_mode_rate ≡ false)
  unfolding run
  run_in_failsafe h = ground arith

  -- Outside failsafe a run is the offboard timeout, the reading of the sticks and the muxing.
  pub run_outside_failsafe :
      is_in_failsafe (check_link r (now_ms * 1000) params s) ≡ false
      → run c now_ms params r s ≡ resolve c now_ms params r (check_link r (now_ms * 1000) params s)
  unfolding run
  run_outside_failsafe h = rw h refl

  -- When the RC link of an armed vehicle fails the health check, the run flies the failsafe command
  -- of the airframe and leaves the vehicle armed and in failsafe.
  pub run_link_lost :
      is_armed s ≡ true
      → check_rc_health r (now_ms * 1000) params ≡ false
      → let ran = run c now_ms params r s in
        (ran.command.combined_command ≡ (
          if is_nonzero_int (get_by_id params param_fixed_wing)
          then c.fixedwing_failsafe_command
          else c.multirotor_failsafe_command))
        × (is_armed ran.state ≡ true)
        × (is_in_failsafe ran.state ≡ true)
  unfolding run
  run_link_lost armed lost = ground (arith, rc_lost-failsafe s params armed)

-- A configured value that the airframe accepts: for a multirotor one that is not outside [0, 1].
abbrev pub IsAccepted : {F : Type 0} ⦃fl : Float F⦄ → Params F → Type 0
IsAccepted ⦃fl⦄ params =
    let v = float_or (get_by_id params param_failsafe_throttle) nought in
    (is_nonzero_int (get_by_id params param_fixed_wing) ≡ true)
    ⊎ ((fl.lt v nought ≡ false) × (fl.lt unit v ≡ false))

contains-insert : (a : ErrorFlag) → contains (insert a invalid_failsafe) invalid_failsafe ≡ true
unfolding contains insert
contains-insert a = ground arith

contains-remove : (a : ErrorFlag) → contains (remove a invalid_failsafe) invalid_failsafe ≡ false
unfolding contains remove
contains-remove a = ground arith

module _ {F : Type 0} ⦃fl : Float F⦄ (c : CommandManager F) (params : Params F)
    (s : StateManager) where
  -- Each force channel of the multirotor failsafe command is 0.0 or the configured throttle, the
  -- latter only where it is accepted; the fixed-wing ones are 0.0; and the failsafe error stands
  -- exactly when the throttle was refused.
  pub failsafe_config :
      let (c', s') = update_failsafe_config c params s in
      let configured = float_or (get_by_id params param_failsafe_throttle) nought in
      let m = c'.multirotor_failsafe_command in
      ((m.fx.value ≡ nought) ⊎ ((m.fx.value ≡ configured) × IsAccepted params))
      × ((m.fy.value ≡ nought) ⊎ ((m.fy.value ≡ configured) × IsAccepted params))
      × ((m.fz.value ≡ nought) ⊎ ((m.fz.value ≡ configured) × IsAccepted params))
      × (c'.fixedwing_failsafe_command.fx.value ≡ nought)
      × (c'.fixedwing_failsafe_command.fy.value ≡ nought)
      × (c'.fixedwing_failsafe_command.fz.value ≡ nought)
      × ((contains (get_errors s') invalid_failsafe ≡ false) ⊎ (¬ IsAccepted params))
      × ((contains (get_errors s') invalid_failsafe ≡ true) ⊎ IsAccepted params)
  unfolding update_failsafe_config
  failsafe_config = grind (
    arith,
    contains-insert (get_errors s),
    contains-remove (get_errors s),
    get_errors-update s params (error_occurred invalid_failsafe),
    get_errors-update s params (error_cleared invalid_failsafe),
  )
