-- ===== src/Tests/Service.antt =====
-- The theorems on the command service and the log drain at concrete inputs.
use veloxity.Base.{ℕ, ◌≡◌, refl, true, false, List, [], ◌∷◌, inl, replicate, arith}
use veloxity.Base.Int.{ℤ, pos}
use veloxity.Events.Queue.{len, pop, EventQueue}
use veloxity.Pipeline.Change.{ParamChanged}
use veloxity.Params.{Params, float, param_acc_x_bias}
use veloxity.Events.Response.{
  RosflightCmd, gyro_calibration, baro_calibration, write_params, reboot, CommResponse, statustext,
}
use veloxity.Service.Board.{BoardIo, BoardService, apply_board_command_requests}
use veloxity.Service.Calibration.{Service, apply_calibration_requests}
use veloxity.Service.Requests.{refuse_all, armed_refuses_calibration}
use veloxity.Service.Storage.{board_commands_announced}
use veloxity.Companion.Inputs.{drain_all}
use veloxity.Log.Text.{LogEntry, info}
use veloxity.Log.Queue.{LogQueue}
use veloxity.Log.Ring.{entries}
use veloxity.Log.Drain.{to_statustext, drain_logs_to_comm_responses}
use veloxity.Log.Forwarding.{oldest_forwarded}
use veloxity.Tests.Data.{with_param, hundredths, zero_params}
use veloxity.Tests.Queues.{pair_deque, pair_deque_laws}

abbrev service : Service ℤ (List (ParamChanged ℤ)) (List (CommResponse ℕ))
service = record {
  params = with_param zero_params param_acc_x_bias (float (pos 3));
  changes = record { items = [] };
  flags = record {
    gyro = false;
    accel = false;
    baro = false;
    pitot = false;
    gyro_failed = true;
    accel_failed = true;
    baro_failed = false;
    pitot_failed = false;
  };
  responses = record { items = [] };
}

abbrev requests : EventQueue (List RosflightCmd)
requests = record { items = gyro_calibration ∷ baro_calibration ∷ [] }

armed_refuses_calibration_example :
    let (requests', s') =
      apply_calibration_requests pair_deque pair_deque pair_deque true requests service in
    (requests'.items ≡ [])
    × (s' ≡ record service {
      responses =
          refuse_all pair_deque service.responses (gyro_calibration ∷ baro_calibration ∷ []);
    })
armed_refuses_calibration_example =
    armed_refuses_calibration pair_deque pair_deque pair_deque pair_deque_laws requests service

-- A board whose storage is one table, and which stays as it is when it restarts.
abbrev table_board : BoardIo ℤ (Params ℤ)
table_board = record {
  reboot = λ board. board;
  reboot_to_bootloader = λ board. board;
  read_params = λ board params. (board, board, true);
  write_params = λ board params. (params, true);
}

abbrev board_service : BoardService ℤ (Params ℤ) (List (CommResponse ℕ))
board_service = record {
  params = zero_params;
  full_refresh = false;
  board = with_param zero_params param_acc_x_bias (float (pos 3));
  responses = record { items = [] };
}

abbrev board_requests : EventQueue (List RosflightCmd)
board_requests = record { items = write_params ∷ reboot ∷ [] }

board_commands_announced_example :
    let (requests', s') =
      apply_board_command_requests table_board pair_deque pair_deque false board_requests
        board_service in
    s'.params ≡ zero_params
unfolding apply_board_command_requests drain_all pop len
board_commands_announced_example =
    board_commands_announced table_board pair_deque pair_deque pair_deque_laws false board_requests
      board_service (λ board params failed. ground (arith, failed)) refl

abbrev entry : LogEntry
entry = record { severity = info; message = record { buffer = 65 ∷ 66 ∷ replicate 48 0; len = 2 } }

abbrev one_logged : LogQueue
one_logged = record { storage = entry ∷ replicate 15 entry; head = 1; tail = 0; full = false }

abbrev no_responses : EventQueue (List (CommResponse ℕ))
no_responses = record { items = [] }

oldest_forwarded_example :
    let (log', responses', drained) =
      drain_logs_to_comm_responses pair_deque true one_logged no_responses in
    (entries log' ≡ []) × (responses'.items ≡ statustext (to_statustext entry) ∷ []) × (drained ≡ 1)
unfolding entries
oldest_forwarded_example =
    oldest_forwarded pair_deque pair_deque_laws one_logged no_responses entry []
      (record { sized = refl; head_in = omega arith; tail_in = omega arith; met = inl refl }) refl
