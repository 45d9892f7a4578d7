-- ===== src/Pipeline/Run.antt =====
-- `run_rc_command_state` of crates/veloxity_core/src/rc/command_state.rs.
use veloxity.Base.{ℕ, Option, none, some, if◌then◌else◌}
use veloxity.Base.Int.{pos}
use veloxity.Float.{Float}
use veloxity.Params.{Params, int, set_by_id, param_rc_attitude_mode}
use veloxity.StateMachine.Manager.{StateManager}
use veloxity.StateMachine.Manager
use veloxity.Rc.Types.{Rc, RcPacket}
use veloxity.Rc.Input.{receive}
use veloxity.Rc.Handler
use veloxity.Command.Manager.{CommandManager}
use veloxity.Command.Run
use veloxity.Events.Deque.{Deque}
use veloxity.Events.Queue.{EventQueue}
use veloxity.Pipeline.Change.{ParamChanged, set_param_and_emit_change}

-- What a pass changes; the event queue may be absent.
pub record Ctx (F D : Type 0) : Type 0 where
  pub rc : Rc F
  pub command : CommandManager F
  pub state : StateManager
  pub params : Params F
  pub param_events : Option (EventQueue D)

module _ {F : Type 0} ⦃fl : Float F⦄ where
  unfoldable pub take_packet :
      Rc F → ℕ → Params F → StateManager → Option (RcPacket F) → Rc F × StateManager
  take_packet rc now_ms params state none = (rc, state)
  take_packet rc now_ms params state (some packet) =
      Handler.run (receive rc packet) now_ms params state

module _ {F D : Type 0} ⦃fl : Float F⦄ (dq : Deque (ParamChanged F) D) where
  unfoldable pub force_rate_mode :
      Params F → Option (EventQueue D) → Params F × Option (EventQueue D)
  force_rate_mode params none = (set_by_id params param_rc_attitude_mode (int (pos 0)), none)
  force_rate_mode params (some changes) =
      let (params', changes') =
        set_param_and_emit_change dq params changes param_rc_attitude_mode (int (pos 0)) in
      (params', some changes')

  unfoldable pub run_rc_command_state : Ctx F D → ℕ → Option (RcPacket F) → Ctx F D
  unfolding take_packet force_rate_mode
  run_rc_command_state ctx now_ms fresh_rc =
      let (rc, state) = take_packet ctx.rc now_ms ctx.params ctx.state fresh_rc in
      let ran = Run.run ctx.command now_ms ctx.params rc state in
      let (params, param_events) =
        if ran.force_rc_attitude_mode_rate
        then force_rate_mode ctx.params ctx.param_events
        else (ctx.params, ctx.param_events) in
      record {
        rc = ran.rc;
        command = ran.command;
        state = Manager.run ran.state params;
        params = params;
        param_events = param_events;
      }
