-- ===== src/StateMachine/Manager.antt =====
-- `StateManager` of crates/veloxity_core/src/state_machine.rs: the machine behind the arming-safety
-- gate. Log calls only append text to the log queue and are left out.
use veloxity.Base.{Bool, true, false, not, ◌&&◌, if◌then◌else◌}
use veloxity.Params.{Params, get_by_id, is_nonzero_int, param_rc_override_take_min_throttle}
use veloxity.StateMachine.Flags.{ErrorFlag, no_error, contains, is_empty}
use veloxity.StateMachine.Machine.{
  Event, request_arm, error_occurred, error_cleared, StateMachine, preflight, calibrating,
  error_present, new_machine, machine_errors, machine_armed, machine_in_failsafe,
  machine_in_error_state, arming_blocking_errors, update_machine,
}

pub record ArmingSafety : Type 0 where
  pub rc_throttle_low : Bool
  pub rc_throttle_override_switch_on : Bool

pub record StateManager : Type 0 where
  pub machine : StateMachine
  pub arming_safety : ArmingSafety

unfoldable pub new : StateManager
unfolding new_machine
new = record {
  machine = new_machine;
  arming_safety = record { rc_throttle_low = false; rc_throttle_override_switch_on = false };
}

abbrev pub is_calibrating_machine : StateMachine → Bool
is_calibrating_machine (calibrating _) = true
is_calibrating_machine _ = false

unfoldable pub is_calibrating : StateManager → Bool
is_calibrating s = is_calibrating_machine s.machine

unfoldable pub update_arming_safety : StateManager → Bool → Bool → StateManager
update_arming_safety s low override_on = record s {
  arming_safety = record { rc_throttle_low = low; rc_throttle_override_switch_on = override_on };
}

abbrev is_request_arm : Event → Bool
is_request_arm request_arm = true
is_request_arm _ = false

unfoldable pub get_errors : StateManager → ErrorFlag
unfolding machine_errors
get_errors s = machine_errors s.machine

unfoldable pub is_armed : StateManager → Bool
unfolding machine_armed
is_armed s = machine_armed s.machine

unfoldable pub is_in_failsafe : StateManager → Bool
unfolding machine_in_failsafe
is_in_failsafe s = machine_in_failsafe s.machine

unfoldable pub is_in_error_state : StateManager → Bool
unfolding machine_in_error_state
is_in_error_state s = machine_in_error_state s.machine

module _ {F : Type 0} where
  unfoldable pub arming_safety_allows_arm : StateManager → Params F → Bool
  arming_safety_allows_arm s params =
      let take_min = is_nonzero_int (get_by_id params param_rc_override_take_min_throttle) in
      if not s.arming_safety.rc_throttle_low
      then false
      else if not take_min && not s.arming_safety.rc_throttle_override_switch_on
      then false
      else true

  abbrev pub attempt_can_transition : StateMachine → Params F → Bool
  attempt_can_transition (preflight _) params = true
  attempt_can_transition (error_present flags) params =
      is_empty (arming_blocking_errors flags params)
  attempt_can_transition _ params = false

  unfoldable pub update : StateManager → Event → Params F → StateManager
  unfolding arming_safety_allows_arm update_machine
  update s event params =
      if is_request_arm event
        && attempt_can_transition s.machine params
        && not (arming_safety_allows_arm s params)
      then s
      else record s { machine = update_machine s.machine event params }

  unfoldable pub set_error_flag : StateManager → ErrorFlag → Bool → Params F → StateManager
  unfolding get_errors update
  set_error_flag s flag is_present params =
      let already_present = contains (get_errors s) flag in
      if is_present
      then if not already_present then update s (error_occurred flag) params else s
      else if already_present
      then update s (error_cleared flag) params
      else s

  -- `update_leds` is empty in the source.
  unfoldable pub run : StateManager → Params F → StateManager
  unfolding get_errors update
  run s params =
      if is_empty (get_errors s)
      then update s (error_cleared no_error) params
      else update s (error_occurred (get_errors s)) params
