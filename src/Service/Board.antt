-- ===== src/Service/Board.antt =====
-- The board command requests of crates/veloxity_core/src/command/service.rs, over the trait of
-- crates/veloxity_core/src/board.rs, which each board implements and which is a parameter here.
use veloxity.Base.{Bool, true, false, not, ◌&&◌, ◌||◌, if◌then◌else◌}
use veloxity.Params.{Params}
use veloxity.Events.Deque.{Deque}
use veloxity.Events.Queue.{EventQueue}
use veloxity.Events.Response.{
  RosflightCmd, read_params, write_params, reboot, reboot_to_bootloader, CommResponse,
  rosflight_cmd_failed, rosflight_cmd_success, emit_cmd_ack,
}
use veloxity.Companion.Inputs.{drain_all}

-- `B` is the board with its storage. A call returns the changed board first.
pub record BoardIo (F B : Type 0) : Type 0 where
  pub reboot : B → B
  pub reboot_to_bootloader : B → B
  pub read_params : B → Params F → B × Params F × Bool
  pub write_params : B → Params F → B × Bool

-- What a board command request can change.
pub record BoardService (F B Dr : Type 0) : Type 0 where
  pub params : Params F
  pub full_refresh : Bool
  pub board : B
  pub responses : EventQueue Dr

unfoldable pub is_reboot : RosflightCmd → Bool
is_reboot reboot = true
is_reboot reboot_to_bootloader = true
is_reboot _ = false

unfoldable pub is_read : RosflightCmd → Bool
is_read read_params = true
is_read _ = false

module _ {F P B Dr : Type 0} (io : BoardIo F B) (dr : Deque (CommResponse P) Dr) where
  unfoldable pub restart_board : RosflightCmd → B → B
  restart_board reboot board = io.reboot board
  restart_board reboot_to_bootloader board = io.reboot_to_bootloader board
  restart_board _ board = board

  -- The second `match`, with whether the command completed.
  unfoldable pub perform : RosflightCmd → BoardService F B Dr → BoardService F B Dr × Bool
  perform read_params s =
      let (board, params, completed) = io.read_params s.board s.params in
      (record s { board = board; params = params }, completed)
  perform write_params s =
      let (board, completed) = io.write_params s.board s.params in
      (record s { board = board }, completed)
  perform _ s = (s, false)

  unfoldable pub acknowledge : RosflightCmd → BoardService F B Dr × Bool → BoardService F B Dr
  unfolding is_read
  acknowledge command (s, completed) = record s {
    full_refresh = (completed && is_read command) || s.full_refresh;
    responses =
        emit_cmd_ack dr s.responses command
          (if completed then rosflight_cmd_success else rosflight_cmd_failed);
  }

  -- The early branch for a restart.
  unfoldable pub restart : RosflightCmd → BoardService F B Dr → BoardService F B Dr
  unfolding restart_board
  restart command s = record s {
    responses = emit_cmd_ack dr s.responses command rosflight_cmd_success;
    board = restart_board command s.board;
  }

  unfoldable pub board_request : Bool → BoardService F B Dr → RosflightCmd → BoardService F B Dr
  unfolding is_reboot restart perform acknowledge
  board_request is_armed s command =
      if not is_armed && is_reboot command
      then restart command s
      else acknowledge command (if is_armed then (s, false) else perform command s)

  unfoldable pub apply_board_command_requests :
      {Dq : Type 0}
      → Deque RosflightCmd Dq
      → Bool
      → EventQueue Dq
      → BoardService F B Dr
      → EventQueue Dq × BoardService F B Dr
  unfolding board_request
  apply_board_command_requests dq is_armed = drain_all dq (board_request is_armed)
