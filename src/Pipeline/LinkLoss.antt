-- ===== src/Pipeline/LinkLoss.antt =====
-- A pass of crates/veloxity_core/src/rc/command_state.rs with the RC link lost.
use veloxity.Base.{
  ℕ, ◌*◌, ◌≡◌, refl, ap, ◌∙◌, true, false, Option, none, some, if◌then◌else◌, arith,
}
use veloxity.Float.{Float}
use veloxity.Params.{Params, get_by_id, is_nonzero_int, param_fixed_wing}
use veloxity.StateMachine.Flags.Laws.{insert_self, remove-no_error, equals-no_error}
use veloxity.StateMachine.Manager.{StateManager, is_armed, is_in_failsafe, get_errors}
use veloxity.StateMachine.Manager
use veloxity.StateMachine.Failsafe.{rc_lost-failsafe}
use veloxity.Rc.Types.{Rc, RcPacket}
use veloxity.Rc.Input.{receive, check_rc_health}
use veloxity.Rc.Link.{run_lost}
use veloxity.Command.Manager.{CommandManager}
use veloxity.Command.Run.{failsafe_command, check_link}
use veloxity.Command.Run
use veloxity.Command.Failsafe.{run_link_lost}
use veloxity.Events.Deque.{Deque}
use veloxity.Pipeline.Change.{ParamChanged}
use veloxity.Pipeline.Run.{Ctx, take_packet, run_rc_command_state}

-- The handler that a pass reads: with the packet's channels, if one came.
abbrev pub heard : {F : Type 0} → Rc F → Option (RcPacket F) → Rc F
heard rc none = rc
heard rc (some packet) = receive rc packet

-- The manager's own pass changes neither.
run-modes :
    {F : Type 0} (s : StateManager) (params : Params F)
    → is_armed s ≡ true
    → is_in_failsafe s ≡ true
    → (is_armed (Manager.run s params) ≡ true) × (is_in_failsafe (Manager.run s params) ≡ true)
unfolding Manager.run is_armed is_in_failsafe
run-modes s params a f =
    ground (arith, insert_self (get_errors s), remove-no_error (get_errors s), equals-no_error)

check_rc_health-flag :
    {F : Type 0} ⦃fl : Float F⦄ (rc : Rc F) (now_ms : ℕ) (params : Params F)
    → check_rc_health (record rc { new_command = false }) (now_ms * 1000) params
      ≡ check_rc_health rc (now_ms * 1000) params
unfolding check_rc_health
check_rc_health-flag rc now_ms params = refl

module _ {F : Type 0} ⦃fl : Float F⦄ (rc : Rc F) (now_ms : ℕ) (params : Params F)
    (s : StateManager) where
  -- The handler's own pass leaves the lost link lost and the vehicle armed.
  take_packet-lost :
      (fresh : Option (RcPacket F))
      → is_armed s ≡ true
      → check_rc_health (heard rc fresh) (now_ms * 1000) params ≡ false
      → let (rc', s') = take_packet rc now_ms params s fresh in
        (check_rc_health rc' (now_ms * 1000) params ≡ false) × (is_armed s' ≡ true)
  unfolding take_packet
  take_packet-lost none armed lost = (lost, armed)
  take_packet-lost (some packet) armed lost =
      let (kept, same, mode, bits) = run_lost (receive rc packet) now_ms params s lost in
      (
        ap (λ r. check_rc_health r (now_ms * 1000) params) kept
            ∙ check_rc_health-flag (receive rc packet) now_ms params
            ∙ lost,
        same ∙ armed,
      )

  run-not_forced :
      (c : CommandManager F)
      → is_armed s ≡ true
      → check_rc_health rc (now_ms * 1000) params ≡ false
      → (Run.run c now_ms params rc s).force_rc_attitude_mode_rate ≡ false
  unfolding Run.run check_link
  run-not_forced c armed lost = ground (arith, rc_lost-failsafe s params armed)

module _ {F D : Type 0} ⦃fl : Float F⦄ (dq : Deque (ParamChanged F) D) (ctx : Ctx F D) (now_ms : ℕ)
    (fresh : Option (RcPacket F)) where
  -- In a pass in which the RC link fails the health check, with a new packet or without one, an armed
  -- vehicle flies the failsafe command of its airframe, stays armed, and is in failsafe; and the
  -- parameters stay as they are.
  pub lost_link_fails_safe :
      is_armed ctx.state ≡ true
      → check_rc_health (heard ctx.rc fresh) (now_ms * 1000) ctx.params ≡ false
      → let ctx' = run_rc_command_state dq ctx now_ms fresh in
        (ctx'.command.combined_command ≡ (
          if is_nonzero_int (get_by_id ctx.params param_fixed_wing)
          then ctx.command.fixedwing_failsafe_command
          else ctx.command.multirotor_failsafe_command))
        × (is_armed ctx'.state ≡ true)
        × (is_in_failsafe ctx'.state ≡ true)
        × (ctx'.params ≡ ctx.params)
  unfolding run_rc_command_state
  lost_link_fails_safe armed lost =
      let (rc, s) = take_packet ctx.rc now_ms ctx.params ctx.state fresh in
      let (still_lost, still_armed) =
        take_packet-lost ctx.rc now_ms ctx.params ctx.state fresh armed lost in
      let (flown, a, f) = run_link_lost ctx.command now_ms ctx.params rc s still_armed still_lost in
      let free = run-not_forced rc now_ms ctx.params s ctx.command still_armed still_lost in
      let modes = run-modes (Run.run ctx.command now_ms ctx.params rc s).state ctx.params a f in
      rw free (flown, modes.0, modes.1, refl)
