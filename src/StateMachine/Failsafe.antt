-- ===== src/StateMachine/Failsafe.antt =====
-- Loss of the RC link in crates/veloxity_core/src/state_machine.rs, and what holds of every manager
-- that the operations of the code can reach.
use veloxity.Base.{◌≡◌, ◌⊎◌, Bool, true, false, arith}
use veloxity.Params.{Params}
use veloxity.StateMachine.Flags.{ErrorFlag, rc_lost, insert, remove, contains, is_empty, equals}
use veloxity.StateMachine.Flags.Laws.{
  insert_self, remove-no_error, equals-no_error, equals_rc_lost, is_empty-insert, rc_lost_insert,
  rc_lost_remove, remove-insert, rc_lost_of_equals, is_empty_of_rc_lost, contains_iff,
}
use veloxity.StateMachine.Machine.{
  Event, StateMachine, init, preflight, calibrating, armed, failsafe, error_present, error_failsafe,
  error_occurred, error_cleared, machine_errors,
}
use veloxity.StateMachine.Manager.{
  StateManager, ArmingSafety, new, is_armed, is_in_failsafe, is_in_error_state, get_errors, update,
  set_error_flag, run, update_arming_safety,
}

module _ {F : Type 0} (s : StateManager) (params : Params F) where
  -- Losing the link keeps an armed vehicle armed and puts it in failsafe, with the loss recorded.
  pub rc_lost-failsafe :
      is_armed s ≡ true
      → let s' = update s (error_occurred rc_lost) params in
        (is_armed s' ≡ true)
        × (is_in_failsafe s' ≡ true)
        × (contains (get_errors s') rc_lost ≡ true)
  unfolding update is_armed is_in_failsafe get_errors
  rc_lost-failsafe h = ground (
    arith,
    equals_rc_lost,
    contains_iff (insert (get_errors s) rc_lost),
    rc_lost_insert (get_errors s) rc_lost,
  )

  -- A link that comes back undoes the loss: the vehicle is armed as before, less the RC error.
  pub rc_lost-recovers :
      (flags : ErrorFlag)
      → s.machine ≡ armed flags
      → (update (update s (error_occurred rc_lost) params) (error_cleared rc_lost) params)
        ≡ record s { machine = armed (remove flags rc_lost) }
  unfolding update
  rc_lost-recovers flags h = ground (arith, equals_rc_lost, remove-insert flags rc_lost)

-- An error that the code raises or clears is a named one, so it is not empty, and it is the loss of
-- the link or does not hold it.
pub record IsNamed (flag : ErrorFlag) : Type 0 where
  pub nonempty : is_empty flag ≡ false
  pub alone : flag.rc_lost ≡ equals flag rc_lost

-- The events that carry no error.
abbrev pub IsPlain : Event → Type 0
IsPlain (error_occurred _) = ⊥
IsPlain (error_cleared _) = ⊥
IsPlain _ = Unit {0}

-- What the rest of the code does to a manager.
pub data Step (F : Type 0) : StateManager → StateManager → Type 0 where
  handle :
      (s : StateManager) (event : Event) (params : Params F)
      → IsPlain event
      → Step F s (update s event params)
  raise :
      (s : StateManager) (error : ErrorFlag) (params : Params F)
      → IsNamed error
      → Step F s (update s (error_occurred error) params)
  clear :
      (s : StateManager) (error : ErrorFlag) (params : Params F)
      → IsNamed error
      → Step F s (update s (error_cleared error) params)
  report :
      (s : StateManager) (error : ErrorFlag) (present : Bool) (params : Params F)
      → IsNamed error
      → Step F s (set_error_flag s error present params)
  tick : (s : StateManager) (params : Params F) → Step F s (run s params)
  move_sticks :
      (s : StateManager) (low override_on : Bool)
      → Step F s (update_arming_safety s low override_on)

pub data Reach (F : Type 0) : StateManager → Type 0 where
  start : Reach F new
  next : {s t : StateManager} → Reach F s → Step F s t → Reach F t

abbrev pub Consistent : StateMachine → Type 0
Consistent (failsafe flags) = flags.rc_lost ≡ true
Consistent (error_failsafe flags) = flags.rc_lost ≡ true
Consistent (error_present flags) = is_empty flags ≡ false
Consistent _ = Unit {0}

abbrev with_machine : StateMachine → ArmingSafety → StateManager
with_machine m a = record { machine = m; arming_safety = a }

module _ {F : Type 0} (a : ArmingSafety) (params : Params F) where
  update-plain :
      (m : StateMachine) (event : Event)
      → IsPlain event
      → Consistent m
      → Consistent (update (with_machine m a) event params).machine
  unfolding update
  update-plain (init flags) event p h = ground arith
  update-plain _ event p h = ground arith

  update-occurred :
      (m : StateMachine) (e : ErrorFlag)
      → IsNamed e
      → Consistent m
      → Consistent (update (with_machine m a) (error_occurred e) params).machine
  unfolding update
  update-occurred (armed flags) e n h = ground (arith, rc_lost_insert flags e)
  update-occurred (failsafe flags) e n h = ground (arith, rc_lost_insert flags e)
  update-occurred (error_failsafe flags) e n h = ground (arith, rc_lost_insert flags e)
  update-occurred (error_present flags) e n h = ground (arith, is_empty-insert flags e)
  update-occurred (preflight flags) e n h = ground (arith, is_empty-insert flags e)
  update-occurred (calibrating flags) e n h = ground (arith, is_empty-insert flags e)
  update-occurred (init flags) e n h = ground arith

  update-cleared :
      (m : StateMachine) (e : ErrorFlag)
      → e.rc_lost ≡ equals e rc_lost
      → Consistent m
      → Consistent (update (with_machine m a) (error_cleared e) params).machine
  unfolding update
  update-cleared (failsafe flags) e n h = ground (arith, rc_lost_remove flags e)
  update-cleared (error_failsafe flags) e n h = ground (arith, rc_lost_remove flags e)
  update-cleared _ e n h = ground arith

  run-Consistent :
      (m : StateMachine) → Consistent m → Consistent (run (with_machine m a) params).machine
  unfolding run
  run-Consistent (init flags) h =
      ground (arith, insert_self flags, remove-no_error flags, equals-no_error)
  run-Consistent (armed flags) h =
      ground (arith, insert_self flags, equals-no_error, rc_lost_of_equals flags)
  run-Consistent m h =
      ground
        (arith, insert_self (machine_errors m), remove-no_error (machine_errors m), equals-no_error)

  report-Consistent :
      (m : StateMachine) (e : ErrorFlag) (present : Bool)
      → IsNamed e
      → Consistent m
      → Consistent (set_error_flag (with_machine m a) e present params).machine
  unfolding set_error_flag
  report-Consistent m e present n h =
      let raised = update-occurred m e n h in
      let cleared = update-cleared m e n.alone h in ground arith

Step-Consistent :
    {F : Type 0} {s t : StateManager} → Step F s t → Consistent s.machine → Consistent t.machine
Step-Consistent (handle s event params p) h =
    update-plain s.arming_safety params s.machine event p h
Step-Consistent (raise s e params n) h = update-occurred s.arming_safety params s.machine e n h
Step-Consistent (clear s e params n) h = update-cleared s.arming_safety params s.machine e n.alone h
Step-Consistent (report s e present params n) h =
    report-Consistent s.arming_safety params s.machine e present n h
Step-Consistent (tick s params) h = run-Consistent s.arming_safety params s.machine h
Step-Consistent (move_sticks s low override_on) h = unfold update_arming_safety in h

pub Reach-Consistent : {F : Type 0} {s : StateManager} → Reach F s → Consistent s.machine
unfolding new
Reach-Consistent start = tt
Reach-Consistent (next r st) = Step-Consistent st (Reach-Consistent r)

-- A manager that the code can reach is in failsafe only with the RC link lost, and in an error state
-- only with an error to show.
pub Reach-errors :
    {F : Type 0} {s : StateManager}
    → Reach F s
    → ((is_in_failsafe s ≡ false) ⊎ (contains (get_errors s) rc_lost ≡ true))
      × ((is_in_error_state s ≡ false) ⊎ (is_empty (get_errors s) ≡ false))
unfolding is_in_failsafe is_in_error_state get_errors
Reach-errors {s = s} r =
    let c = Reach-Consistent r in
    ground (arith, contains_iff (get_errors s), is_empty_of_rc_lost (get_errors s))
