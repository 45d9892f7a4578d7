-- ===== src/Tests/Queues.antt =====
-- The theorems on the log queue, the event queues and their users at concrete inputs.
use veloxity.Base.{
  ℕ, ◌≡◌, refl, Bool, true, false, List, [], ◌∷◌, ◌++◌, Option, none, some, length, take, replicate,
  ltb, if◌then◌else◌, arith,
}
use veloxity.Base.Int.{ℤ, pos}
use veloxity.StateMachine.Flags.{no_error, imu_not_responding, contains}
use veloxity.StateMachine.Machine.{armed, preflight}
use veloxity.StateMachine.Manager.{is_armed, is_in_failsafe, get_errors}
use veloxity.Rc.Types.{RcPacket}
use veloxity.Rc.Input.{check_rc_health, receive}
use veloxity.Command.Manager
use veloxity.Command.Run.{failsafe_command}
use veloxity.Events.Deque.{Deque, IsDeque}
use veloxity.Events.Queue.{EventQueue}
use veloxity.Log.Text.{info, warning, as_str, max_log_len, log_entry}
use veloxity.Log.Queue.{new}
use veloxity.Log.Truncation.{concat, log_entry_text}
use veloxity.Log.Refinement.{Call, log_call, pop_call, outputs, expected, log_queue_refines}
use veloxity.Sensors.Latch.{Check, checked, imu_error}
use veloxity.Companion.Inputs.{CompanionLinkState, apply_companion_heartbeats}
use veloxity.Companion.Drained.{heartbeats_applied}
use veloxity.Pipeline.Change.{ParamChanged}
use veloxity.Pipeline.Run.{Ctx, run_rc_command_state}
use veloxity.Pipeline.LinkLoss.{lost_link_fails_safe}
use veloxity.Tests.Data.{hundredths, zero_params, manager, held_sticks}

-- A queue of at most two items, as a list.
abbrev pushed_back : {T : Type 0} → List T → T → List T × Bool
pushed_back d x = if ltb (length d) 2 then (d ++ x ∷ [], true) else (d, false)

abbrev popped_front : {T : Type 0} → List T → List T × Option T
popped_front [] = ([], none)
popped_front (x ∷ xs) = (xs, some x)

abbrev pub pair_deque : {T : Type 0} → Deque T (List T)
pair_deque = record {
  empty = [];
  push_back = pushed_back;
  pop_front = popped_front;
  clear = λ d. [];
  len = length;
  iter = λ d. d;
}

abbrev pub pair_deque_laws : {T : Type 0} → IsDeque {T = T} pair_deque
pair_deque_laws = record {
  capacity = 2;
  items = λ d. d;
  items-empty = refl;
  items-clear = λ d. refl;
  items-iter = λ d. refl;
  length-items = λ d. refl;
  push_room = λ d x h. ground arith;
  push_full = λ d x h. ground arith;
  pop_none = λ d e. ground arith;
  pop_some = λ d x xs e. ground arith;
}

abbrev calls : List Call
calls =
    log_call info ((65 ∷ 66 ∷ []) ∷ (67 ∷ []) ∷ [])
    ∷ log_call warning ((68 ∷ []) ∷ [])
    ∷ pop_call
    ∷ pop_call
    ∷ pop_call
    ∷ []

log_queue_refines_example : outputs new calls ≡ expected [] calls
log_queue_refines_example = log_queue_refines calls

log_entry_text_example :
    as_str (log_entry info (replicate 40 65 ∷ replicate 20 66 ∷ [])).message
    ≡ take max_log_len (concat (replicate 40 65 ∷ replicate 20 66 ∷ []))
log_entry_text_example = log_entry_text info (replicate 40 65 ∷ replicate 20 66 ∷ [])

-- A late check, a sample, and two checks of which the second is late.
abbrev checks : List Check
checks = (150000, false) ∷ (160000, true) ∷ (250000, false) ∷ (270000, false) ∷ []

imu_error_example :
    let (s', seen') =
      checked zero_params 100000 ((20000, true) ∷ checks) (manager (preflight no_error)) 0 in
    (contains (get_errors s') imu_not_responding ≡ true) × (seen' ≡ 160000)
imu_error_example =
    imu_error zero_params 100000 checks (manager (preflight no_error)) 20000 0 (omega arith)
      (ground arith)

abbrev heartbeats : EventQueue (List ℕ)
heartbeats = record { items = 3 ∷ 5 ∷ [] }

abbrev silent : CompanionLinkState ℕ
silent = record { connected = false; last_heartbeat = none }

heartbeats_applied_example :
    let (q', link') = apply_companion_heartbeats pair_deque heartbeats silent in
    (q'.items ≡ []) × (link'.connected ≡ true) × (link'.last_heartbeat ≡ some 5)
heartbeats_applied_example = heartbeats_applied pair_deque pair_deque_laws heartbeats silent

abbrev lost_packet : RcPacket ℤ
lost_packet = record {
  header = record { timestamp = 7; status = 0 };
  n_chan = 8;
  chan = replicate 24 (pos 50);
  lol = true;
}

abbrev flying : Ctx ℤ (List (ParamChanged ℤ))
flying = record {
  rc = held_sticks;
  command = Manager.new;
  state = manager (armed no_error);
  params = zero_params;
  param_events = none;
}

lost_link_fails_safe_example :
    let ctx' = run_rc_command_state pair_deque flying 100 (some lost_packet) in
    (ctx'.command.combined_command ≡ failsafe_command flying.command zero_params)
    × (is_armed ctx'.state ≡ true)
    × (is_in_failsafe ctx'.state ≡ true)
    × (ctx'.params ≡ zero_params)
unfolding is_armed check_rc_health receive
lost_link_fails_safe_example =
    lost_link_fails_safe pair_deque flying 100 (some lost_packet) refl refl
