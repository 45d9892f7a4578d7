-- ===== src/Tests/StateMachine.antt =====
-- The state machine's theorems at concrete inputs.
use veloxity.Base.{◌≡◌, ◌↔◌, ◌⊎◌, refl, true, false}
use veloxity.Base.Int.{ℤ}
use veloxity.StateMachine.Flags.{no_error, rc_lost, unhealthy_estimator, contains, is_empty, equals}
use veloxity.StateMachine.Machine.{
  preflight, armed, error_present, initialized, request_arm, request_disarm, error_occurred,
}
use veloxity.StateMachine.Manager.{
  new, is_armed, is_in_failsafe, is_in_error_state, get_errors, update, run,
}
use veloxity.StateMachine.Arming.{ArmCause, armed_iff, disarmed_iff}
use veloxity.StateMachine.Errors.{IsSettled, run_settles}
use veloxity.StateMachine.Failsafe.{Reach, Step, Reach-errors}
use veloxity.Tests.Data.{zero_params, manager}

armed_iff_example :
    (is_armed (update (manager (preflight no_error)) request_arm zero_params) ≡ true)
    ↔ ArmCause (manager (preflight no_error)) request_arm zero_params
unfolding is_armed
armed_iff_example = armed_iff (manager (preflight no_error)) zero_params request_arm refl

disarmed_iff_example :
    (is_armed (update (manager (armed unhealthy_estimator)) request_disarm zero_params) ≡ false)
    ↔ (request_disarm ≡ request_disarm)
unfolding is_armed
disarmed_iff_example =
    disarmed_iff (manager (armed unhealthy_estimator)) zero_params request_disarm refl

run_settles_example :
    let s' = run (manager (error_present no_error)) zero_params in
    IsSettled s'.machine
    × (run s' zero_params ≡ s')
    × (get_errors s' ≡ get_errors (manager (error_present no_error)))
    × (is_armed s' ≡ is_armed (manager (error_present no_error)))
run_settles_example = run_settles (manager (error_present no_error)) zero_params

-- A boot, a lost link on the ground, and a pass of the loop.
lost_on_ground : Reach ℤ (
    run
      (update (update new initialized zero_params) (error_occurred rc_lost) zero_params)
      zero_params)
unfolding is_empty equals
lost_on_ground =
    Reach.next
      (Reach.next (Reach.next Reach.start (Step.handle new initialized zero_params tt))
        (Step.raise _ rc_lost zero_params (record { nonempty = refl; alone = refl })))
      (Step.tick _ zero_params)

Reach-errors_example :
    let s =
      run
        (update (update new initialized zero_params) (error_occurred rc_lost) zero_params)
        zero_params in
    ((is_in_failsafe s ≡ false) ⊎ (contains (get_errors s) rc_lost ≡ true))
    × ((is_in_error_state s ≡ false) ⊎ (is_empty (get_errors s) ≡ false))
Reach-errors_example = Reach-errors lost_on_ground
