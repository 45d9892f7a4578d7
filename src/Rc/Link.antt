-- ===== src/Rc/Link.antt =====
-- What a frame with the link lost does, and what it takes to arm or disarm by RC:
-- `Rc::run` of crates/veloxity_core/src/rc.rs.
use veloxity.Base.{ℕ, ◌*◌, ◌≡◌, ◌⊎◌, inl, inr, refl, true, false, Bool-cases, arith}
use veloxity.Float.{Float}
use veloxity.Params.{Params}
use veloxity.StateMachine.Flags.{rc_lost, insert}
use veloxity.StateMachine.Machine.{error_occurred, error_cleared}
use veloxity.StateMachine.Manager.{StateManager, is_armed, is_in_failsafe, get_errors, update}
use veloxity.StateMachine.Errors.{get_errors-update}
use veloxity.StateMachine.Failsafe.{rc_lost-failsafe}
use veloxity.Rc.Types.{Rc}
use veloxity.Rc.Input.{check_rc_health}
use veloxity.Rc.Handler.{run}

pub is_armed-error :
    {F : Type 0} (s : StateManager) (params : Params F)
    → is_armed (update s (error_occurred rc_lost) params) ≡ is_armed s
unfolding update is_armed
is_armed-error s params = ground arith

pub is_armed-clear :
    {F : Type 0} (s : StateManager) (params : Params F)
    → is_armed (update s (error_cleared rc_lost) params) ≡ is_armed s
unfolding update is_armed
is_armed-clear s params = ground arith

module _ {F : Type 0} ⦃fl : Float F⦄ (r : Rc F) (now_ms : ℕ) (params : Params F)
    (s : StateManager) where
  -- A frame that fails the health check stores no command and moves no stick; it leaves an armed
  -- vehicle armed, in failsafe, and a disarmed one disarmed; and it adds the RC error.
  pub run_lost :
      check_rc_health r (now_ms * 1000) params ≡ false
      → let (r', s') = run r now_ms params s in
        (r' ≡ record r { new_command = false })
        × (is_armed s' ≡ is_armed s)
        × ((is_armed s ≡ false) ⊎ (is_in_failsafe s' ≡ true))
        × (get_errors s' ≡ insert (get_errors s) rc_lost)
  unfolding run
  run_lost h = rw h (
    refl,
    is_armed-error s params,
    elim (Bool-cases (is_armed s)) [
      | inl armed ↦ inr (rc_lost-failsafe s params armed).1
      | inr disarmed ↦ inl disarmed
    ],
    get_errors-update s params (error_occurred rc_lost),
  )
