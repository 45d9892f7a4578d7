-- ===== src/StateMachine/Machine.antt =====
-- `Event` and `StateMachine` of crates/veloxity_core/src/state_machine.rs, one `on_event` for each
-- state. The unit marker of `State<S>` is the constructor.
use veloxity.Base.{Bool, true, false, not, if◌then◌else◌}
use veloxity.Params.{
  Params, get_by_id, is_nonzero_int, param_calibrate_gyro_on_arm, param_allow_unhealthy_estimator,
}
use veloxity.StateMachine.Flags.{
  ErrorFlag, no_error, rc_lost, unhealthy_estimator, uncalibrated_imu, insert, remove, is_empty,
  equals,
}

pub data Event : Type 0 where
  initialized request_arm request_disarm calibration_complete calibration_failed : Event
  hardfault_rearm_requested : Event
  error_occurred error_cleared : ErrorFlag → Event

pub data StateMachine : Type 0 where
  init preflight calibrating armed failsafe error_present error_failsafe : ErrorFlag → StateMachine

unfoldable pub new_machine : StateMachine
new_machine = init no_error

unfoldable pub machine_errors : StateMachine → ErrorFlag
machine_errors (init flags) = flags
machine_errors (preflight flags) = flags
machine_errors (calibrating flags) = flags
machine_errors (armed flags) = flags
machine_errors (failsafe flags) = flags
machine_errors (error_present flags) = flags
machine_errors (error_failsafe flags) = flags

unfoldable pub set_machine_errors : StateMachine → ErrorFlag → StateMachine
set_machine_errors (init _) flags = init flags
set_machine_errors (preflight _) flags = preflight flags
set_machine_errors (calibrating _) flags = calibrating flags
set_machine_errors (armed _) flags = armed flags
set_machine_errors (failsafe _) flags = failsafe flags
set_machine_errors (error_present _) flags = error_present flags
set_machine_errors (error_failsafe _) flags = error_failsafe flags

unfoldable pub machine_armed : StateMachine → Bool
machine_armed (armed _) = true
machine_armed (failsafe _) = true
machine_armed _ = false

unfoldable pub machine_in_failsafe : StateMachine → Bool
machine_in_failsafe (failsafe _) = true
machine_in_failsafe (error_failsafe _) = true
machine_in_failsafe _ = false

unfoldable pub machine_in_error_state : StateMachine → Bool
machine_in_error_state (error_present _) = true
machine_in_error_state (error_failsafe _) = true
machine_in_error_state _ = false

init_event : ErrorFlag → Event → StateMachine
init_event flags initialized = preflight flags
init_event flags _ = init flags

armed_event : ErrorFlag → Event → StateMachine
armed_event flags request_disarm =
    if not (is_empty flags) then error_present flags else preflight flags
armed_event flags (error_occurred flag) =
    if equals flag rc_lost then failsafe flags else armed flags
armed_event flags _ = armed flags

calibrating_event : ErrorFlag → Event → StateMachine
calibrating_event flags calibration_complete = armed (remove flags uncalibrated_imu)
calibrating_event flags calibration_failed = preflight flags
calibrating_event flags (error_occurred _) = error_present flags
calibrating_event flags hardfault_rearm_requested = armed flags
calibrating_event flags _ = calibrating flags

failsafe_event : ErrorFlag → Event → StateMachine
failsafe_event flags (error_cleared flag) =
    if equals flag rc_lost then armed flags else failsafe flags
failsafe_event flags request_disarm = error_failsafe flags
failsafe_event flags hardfault_rearm_requested = armed flags
failsafe_event flags _ = failsafe flags

error_failsafe_event : ErrorFlag → Event → StateMachine
error_failsafe_event flags hardfault_rearm_requested = armed flags
error_failsafe_event flags (error_cleared flag) =
    if equals flag rc_lost
    then if is_empty flags then preflight flags else error_present flags
    else if is_empty flags
    then preflight flags
    else error_failsafe flags
error_failsafe_event flags _ = error_failsafe flags

-- The error bits are updated before the transition reads them.
unfoldable pub record_error : StateMachine → Event → StateMachine
unfolding set_machine_errors machine_errors
record_error m (error_occurred flag) = set_machine_errors m (insert (machine_errors m) flag)
record_error m (error_cleared flag) = set_machine_errors m (remove (machine_errors m) flag)
record_error m _ = m

module _ {F : Type 0} where
  arm_from_preflight : ErrorFlag → Params F → StateMachine
  arm_from_preflight flags params =
      if is_nonzero_int (get_by_id params param_calibrate_gyro_on_arm)
      then calibrating (remove flags uncalibrated_imu)
      else armed flags

  unfoldable pub arming_blocking_errors : ErrorFlag → Params F → ErrorFlag
  arming_blocking_errors flags params =
      if is_nonzero_int (get_by_id params param_allow_unhealthy_estimator)
      then remove flags unhealthy_estimator
      else flags

  preflight_event : ErrorFlag → Event → Params F → StateMachine
  unfolding arm_from_preflight
  preflight_event flags request_arm params = arm_from_preflight flags params
  preflight_event flags hardfault_rearm_requested params = armed flags
  preflight_event flags (error_occurred _) params = error_present flags
  preflight_event flags _ params = preflight flags

  error_present_event : ErrorFlag → Event → Params F → StateMachine
  unfolding arm_from_preflight arming_blocking_errors
  error_present_event flags request_arm params =
      if is_empty (arming_blocking_errors flags params)
      then arm_from_preflight flags params
      else error_present flags
  error_present_event flags hardfault_rearm_requested params = armed flags
  error_present_event flags (error_cleared _) params =
      if is_empty flags then preflight flags else error_present flags
  error_present_event flags _ params = error_present flags

  unfoldable pub transition : StateMachine → Event → Params F → StateMachine
  unfolding init_event preflight_event calibrating_event armed_event failsafe_event
      error_present_event error_failsafe_event
  transition (init flags) event params = init_event flags event
  transition (preflight flags) event params = preflight_event flags event params
  transition (calibrating flags) event params = calibrating_event flags event
  transition (armed flags) event params = armed_event flags event
  transition (failsafe flags) event params = failsafe_event flags event
  transition (error_present flags) event params = error_present_event flags event params
  transition (error_failsafe flags) event params = error_failsafe_event flags event

  unfoldable pub update_machine : StateMachine → Event → Params F → StateMachine
  unfolding transition record_error
  update_machine m event params = transition (record_error m event) event params
