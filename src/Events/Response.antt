-- ===== src/Events/Response.antt =====
-- The responses of crates/veloxity_core/src/events.rs and the command messages of
-- crates/veloxity_core/src/comm/messages.rs. `P` stands for the payloads that no modelled code reads.
use veloxity.Base.{ℕ, List}
use veloxity.Events.Deque.{Deque}
use veloxity.Events.Queue.{EventQueue, push_or_log}
use veloxity.Log.Text.{Severity}

pub data RosflightCmd : Type 0 where
  rc_calibration accel_calibration gyro_calibration baro_calibration : RosflightCmd
  airspeed_calibration read_params write_params set_param_defaults : RosflightCmd
  reboot reboot_to_bootloader send_version reset_origin send_all_config_infos : RosflightCmd

pub data RosflightCmdResponse : Type 0 where
  rosflight_cmd_failed rosflight_cmd_success : RosflightCmdResponse

pub record RosflightCmdAckMsg : Type 0 where
  pub command : RosflightCmd
  pub success : RosflightCmdResponse

pub record StatustextMsg : Type 0 where
  pub severity : Severity
  pub text : List ℕ

pub data CommResponse (P : Type 0) : Type 0 where
  param_value version hard_error : P → CommResponse P
  statustext : StatustextMsg → CommResponse P
  cmd_ack : RosflightCmdAckMsg → CommResponse P

unfoldable pub emit_cmd_ack :
    {P D : Type 0}
    → Deque (CommResponse P) D
    → EventQueue D
    → RosflightCmd
    → RosflightCmdResponse
    → EventQueue D
emit_cmd_ack dq responses command success =
    (push_or_log dq responses (cmd_ack (record { command = command; success = success }))).0
