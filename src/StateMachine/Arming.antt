-- ===== src/StateMachine/Arming.antt =====
-- When the state machine of crates/veloxity_core/src/state_machine.rs becomes armed, and when it
-- stops being so.
use veloxity.Base.{◌≡◌, ◌↔◌, true, false, arith}
use veloxity.Params.{Params, get_by_id, is_nonzero_int, param_calibrate_gyro_on_arm}
use veloxity.StateMachine.Flags.{is_empty}
use veloxity.StateMachine.Machine.{
  Event, StateMachine, init, request_arm, request_disarm, calibration_complete,
  hardfault_rearm_requested, preflight, error_present, arming_blocking_errors,
}
use veloxity.StateMachine.Manager.{
  StateManager, is_armed, is_calibrating, arming_safety_allows_arm, update,
}

-- The states from which a request to arm can succeed.
abbrev pub CanRequestArm : {F : Type 0} → StateMachine → Params F → Type 0
CanRequestArm (preflight _) params = Unit {0}
CanRequestArm (error_present flags) params = is_empty (arming_blocking_errors flags params) ≡ true
CanRequestArm _ params = ⊥

-- A hardfault re-arm is refused only before the boot sequence has ended.
abbrev pub HasStarted : StateMachine → Type 0
HasStarted (init _) = ⊥
HasStarted _ = Unit {0}

-- What arms a disarmed vehicle.
abbrev pub ArmCause : {F : Type 0} → StateManager → Event → Params F → Type 0
ArmCause s request_arm params =
    CanRequestArm s.machine params
    × (arming_safety_allows_arm s params ≡ true)
    × (is_nonzero_int (get_by_id params param_calibrate_gyro_on_arm) ≡ false)
ArmCause s calibration_complete params = is_calibrating s ≡ true
ArmCause s hardfault_rearm_requested params = HasStarted s.machine
ArmCause s _ params = ⊥

module _ {F : Type 0} (s : StateManager) (params : Params F) where
  -- An event arms a disarmed vehicle exactly when it is a request that the state, the arming-safety
  -- gate and the gyro-calibration parameter allow, the end of a running calibration, or a
  -- hardfault re-arm after the boot sequence.
  pub armed_iff :
      (event : Event)
      → is_armed s ≡ false
      → (is_armed (update s event params) ≡ true) ↔ ArmCause s event params
  unfolding update is_armed is_calibrating
  armed_iff request_arm before = ground arith
  armed_iff calibration_complete before = ground arith
  armed_iff hardfault_rearm_requested before = ground arith
  armed_iff _ before = ground arith

  -- An event disarms an armed vehicle exactly when it is a request to disarm.
  pub disarmed_iff :
      (event : Event)
      → is_armed s ≡ true
      → (is_armed (update s event params) ≡ false) ↔ (event ≡ request_disarm)
  unfolding update is_armed
  disarmed_iff event before = ground arith
