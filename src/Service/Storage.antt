-- ===== src/Service/Storage.antt =====
-- What board command requests do to the parameters and the board:
-- crates/veloxity_core/src/command/service.rs.
use veloxity.Base.{
  ◌≡◌, refl, sym, ap, ◌∙◌, Bool, true, false, ◌&&◌, ◌||◌, if◌then◌else◌, List, [], ◌∷◌, arith,
}
use veloxity.Params.{Params}
use veloxity.Events.Deque.{Deque, IsDeque}
use veloxity.Events.Queue.{EventQueue}
use veloxity.Events.Response.{RosflightCmd, CommResponse, emit_cmd_ack}
use veloxity.Companion.Drained.{fold, drain_all-fold}
use veloxity.Service.Board.{
  BoardIo, BoardService, is_reboot, is_read, restart, perform, acknowledge, board_request,
  apply_board_command_requests,
}
use veloxity.Service.Requests.{refuse_all}

module _ {F P B Dr : Type 0} (io : BoardIo F B) (dr : Deque (CommResponse P) Dr) where
  fold-refused :
      (commands : List RosflightCmd) (s : BoardService F B Dr)
      → fold (board_request io dr true) s commands
        ≡ record s { responses = refuse_all dr s.responses commands }
  unfolding fold refuse_all board_request acknowledge emit_cmd_ack
  fold-refused [] s = refl
  fold-refused (c ∷ cs) s = fold-refused cs (board_request io dr true s c)

  -- While armed, the queued board commands are all taken and each is answered as failed; the vehicle
  -- is not restarted and the parameters and the storage are not touched. The queues' own behaviour is
  -- assumed.
  pub armed_refuses_board_commands :
      {Dq : Type 0} (dq : Deque RosflightCmd Dq) (laws : IsDeque dq) (requests : EventQueue Dq)
      (s : BoardService F B Dr)
      → let (requests', s') = apply_board_command_requests io dr dq true requests s in
        (laws.items requests'.items ≡ [])
        × (s' ≡ record s { responses = refuse_all dr s.responses (laws.items requests.items) })
  unfolding apply_board_command_requests
  armed_refuses_board_commands dq laws requests s =
      let (emptied, folded) = drain_all-fold dq laws (board_request io dr true) requests s in
      (emptied, folded ∙ fold-refused (laws.items requests.items) s)

  -- A failed read leaves the table as it was.
  abbrev pub ReadIsAtomic : Type 0
  ReadIsAtomic =
      (board : B) (params : Params F)
      → let (board', params', completed) = io.read_params board params in
        completed ≡ false → params' ≡ params

  -- The table is the old one, or all parameters are marked as changed.
  abbrev IsAnnounced : Params F → BoardService F B Dr → Type 0
  IsAnnounced params s = s.full_refresh ≡ false → s.params ≡ params

  perform-refresh :
      (command : RosflightCmd) (s : BoardService F B Dr)
      → (perform io dr command s).0.full_refresh ≡ s.full_refresh
  unfolding perform
  perform-refresh command s = ground (arith, command)

  perform-atomic :
      ReadIsAtomic
      → (command : RosflightCmd) (s : BoardService F B Dr)
      → (perform io dr command s).1 && is_read command ≡ false
      → (perform io dr command s).0.params ≡ s.params
  unfolding perform is_read
  perform-atomic atomic command s h = ground (arith, command, h, atomic s.board s.params)

  announced :
      (params : Params F) (s s' : BoardService F B Dr) (marked : Bool)
      → s'.full_refresh ≡ marked || s.full_refresh
      → (marked ≡ false → s'.params ≡ s.params)
      → IsAnnounced params s
      → IsAnnounced params s'
  announced params s s' marked e kept h clear =
      kept (grind (arith, e, clear)) ∙ h (grind (arith, e, clear))

  board_request-IsAnnounced :
      ReadIsAtomic
      → (is_armed : Bool) (params : Params F) (s : BoardService F B Dr) (command : RosflightCmd)
      → IsAnnounced params s
      → IsAnnounced params (board_request io dr is_armed s command)
  unfolding board_request acknowledge restart
  board_request-IsAnnounced atomic true params s command = λ h clear. h clear
  board_request-IsAnnounced atomic false params s command =
      elim (is_reboot command)
        as (λ b.
          IsAnnounced params s
          → IsAnnounced params (
              if b
              then restart io dr command s
              else acknowledge io dr command (perform io dr command s))) [
                | true ↦ λ h clear. h clear
                | false ↦
                    announced params s (acknowledge io dr command (perform io dr command s))
                      ((perform io dr command s).1 && is_read command)
                      (ap (λ b. ((perform io dr command s).1 && is_read command) || b)
                        (perform-refresh command s))
                      (perform-atomic atomic command s)
              ]

  fold-IsAnnounced :
      ReadIsAtomic
      → (is_armed : Bool) (params : Params F) (commands : List RosflightCmd)
        (s : BoardService F B Dr)
      → IsAnnounced params s
      → IsAnnounced params (fold (board_request io dr is_armed) s commands)
  unfolding fold
  fold-IsAnnounced atomic is_armed params [] s h = h
  fold-IsAnnounced atomic is_armed params (c ∷ cs) s h =
      fold-IsAnnounced atomic is_armed params cs (board_request io dr is_armed s c)
        (board_request-IsAnnounced atomic is_armed params s c h)

  -- If no full refresh is pending after the queued board commands, armed or not, the parameters are
  -- the ones from before, where a board whose read fails leaves the parameters as they were.
  pub board_commands_announced :
      {Dq : Type 0} (dq : Deque RosflightCmd Dq) (laws : IsDeque dq) (is_armed : Bool)
      (requests : EventQueue Dq) (s : BoardService F B Dr)
      → ReadIsAtomic
      → (apply_board_command_requests io dr dq is_armed requests s).1.full_refresh ≡ false
      → (apply_board_command_requests io dr dq is_armed requests s).1.params ≡ s.params
  unfolding apply_board_command_requests
  board_commands_announced dq laws is_armed requests s atomic clear =
      let folded = (drain_all-fold dq laws (board_request io dr is_armed) requests s).1 in
      ap (λ r. r.params) folded
      ∙ fold-IsAnnounced atomic is_armed s.params (laws.items requests.items) s (λ clean. refl)
          (sym (ap (λ r. r.full_refresh) folded) ∙ clear)
