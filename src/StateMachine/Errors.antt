-- ===== src/StateMachine/Errors.antt =====
-- How events change the error bits, and what `StateManager::run` of
-- crates/veloxity_core/src/state_machine.rs leaves behind.
use veloxity.Base.{◌≡◌, Bool, true, false, not, ◌&&◌, arith, if◌then◌else◌}
use veloxity.Params.{Params}
use veloxity.StateMachine.Flags.{
  ErrorFlag, rc_lost, uncalibrated_imu, insert, remove, is_empty, equals,
}
use veloxity.StateMachine.Flags.Laws.{
  insert_self, remove-no_error, equals-no_error, equals_of_is_empty,
}
use veloxity.StateMachine.Machine.{
  Event, StateMachine, init, preflight, calibrating, armed, failsafe, error_present, error_failsafe,
  request_arm, calibration_complete, error_occurred, error_cleared,
}
use veloxity.StateMachine.Manager.{
  StateManager, ArmingSafety, is_armed, is_calibrating, get_errors, update, run,
}

-- What each event that is not refused does to the error bits: the calibration bit is dropped where a
-- calibration starts or ends well.
abbrev pub expected_errors : Bool → Bool → ErrorFlag → Event → ErrorFlag
expected_errors before after old (error_occurred flag) = insert old flag
expected_errors before after old (error_cleared flag) = remove old flag
expected_errors before after old request_arm =
    if not before && after then remove old uncalibrated_imu else old
expected_errors before after old calibration_complete =
    if before then remove old uncalibrated_imu else old
expected_errors before after old _ = old

module _ {F : Type 0} (s : StateManager) (params : Params F) where
  -- An event that raises an error adds its bits, one that clears an error drops them, a start of the
  -- gyro calibration and the end of a running one drop the calibration bit, and every other event
  -- leaves the error bits as they are.
  pub get_errors-update :
      (event : Event)
      → let s' = update s event params in
        get_errors s' ≡ expected_errors (is_calibrating s) (is_calibrating s') (get_errors s) event
  unfolding update get_errors is_calibrating
  get_errors-update (error_occurred flag) = ground arith
  get_errors-update request_arm = ground arith
  get_errors-update _ = ground arith

-- No state is left that the errors contradict.
abbrev pub IsSettled : StateMachine → Type 0
IsSettled (preflight flags) = is_empty flags ≡ true
IsSettled (calibrating flags) = is_empty flags ≡ true
IsSettled (error_present flags) = is_empty flags ≡ false
IsSettled (error_failsafe flags) = is_empty flags ≡ false
IsSettled (armed flags) = equals flags rc_lost ≡ false
IsSettled _ = Unit {0}

abbrev with_machine : StateMachine → ArmingSafety → StateManager
with_machine m safety = record { machine = m; arming_safety = safety }

module _ {F : Type 0} (safety : ArmingSafety) (params : Params F) where
  run_at-IsSettled : (m : StateMachine) → IsSettled (run (with_machine m safety) params).machine
  unfolding run
  run_at-IsSettled (init flags) = ground (arith, insert_self flags)
  run_at-IsSettled (failsafe flags) = ground (arith, insert_self flags, equals-no_error)
  run_at-IsSettled (preflight flags) =
      ground (arith, insert_self flags, remove-no_error flags, equals-no_error)
  run_at-IsSettled (calibrating flags) =
      ground (arith, insert_self flags, remove-no_error flags, equals-no_error)
  run_at-IsSettled (armed flags) =
      ground (arith, insert_self flags, remove-no_error flags, equals_of_is_empty flags)
  run_at-IsSettled (error_present flags) =
      ground (arith, insert_self flags, remove-no_error flags, equals-no_error)
  run_at-IsSettled (error_failsafe flags) =
      ground (arith, insert_self flags, remove-no_error flags, equals-no_error)

  run_at-eq_self :
      (m : StateMachine) → IsSettled m → run (with_machine m safety) params ≡ with_machine m safety
  unfolding run
  run_at-eq_self (init flags) h =
      ground (arith, insert_self flags, remove-no_error flags, equals-no_error)
  run_at-eq_self (failsafe flags) h =
      ground (arith, insert_self flags, remove-no_error flags, equals-no_error)
  run_at-eq_self (preflight flags) h =
      ground (arith, insert_self flags, remove-no_error flags, equals-no_error)
  run_at-eq_self (calibrating flags) h =
      ground (arith, insert_self flags, remove-no_error flags, equals-no_error)
  run_at-eq_self (armed flags) h =
      ground (arith, insert_self flags, remove-no_error flags, equals-no_error)
  run_at-eq_self (error_present flags) h =
      ground (arith, insert_self flags, remove-no_error flags, equals-no_error)
  run_at-eq_self (error_failsafe flags) h =
      ground (arith, insert_self flags, remove-no_error flags, equals-no_error)

run_of_IsSettled :
    {F : Type 0} (s : StateManager) (params : Params F) → IsSettled s.machine → run s params ≡ s
run_of_IsSettled s params h = run_at-eq_self s.arming_safety params s.machine h

module _ {F : Type 0} (s : StateManager) (params : Params F) where
  -- After a pass of the manager there is no error while calibrating or ready to arm, there is one
  -- in the two error states, and while armed the errors are not the loss of the link alone. The
  -- pass keeps the error bits and whether the vehicle is armed, and a second pass changes nothing.
  pub run_settles :
      let s' = run s params in
      IsSettled s'.machine
      × (run s' params ≡ s')
      × (get_errors s' ≡ get_errors s)
      × (is_armed s' ≡ is_armed s)
  unfolding run is_armed
  run_settles = (
    run_at-IsSettled s.arming_safety params s.machine,
    run_of_IsSettled (run s params) params (run_at-IsSettled s.arming_safety params s.machine),
    ground (arith, insert_self (get_errors s), remove-no_error (get_errors s), equals-no_error),
    ground (arith, insert_self (get_errors s), remove-no_error (get_errors s), equals-no_error),
  )
