-- ===== src/Service/Calibration.antt =====
-- The calibration requests of crates/veloxity_core/src/command/service.rs, and the calibration flags
-- of crates/veloxity_core/src/sensors/processors.rs.
use veloxity.Base.{Bool, true, false, if◌then◌else◌}
use veloxity.Float.{Float, nought}
use veloxity.Params.{
  Params, ParamId, float, param_acc_x_bias, param_acc_y_bias, param_acc_z_bias, param_gyro_x_bias,
  param_gyro_y_bias, param_gyro_z_bias, param_diff_press_bias,
}
use veloxity.Events.Deque.{Deque}
use veloxity.Events.Queue.{EventQueue}
use veloxity.Events.Response.{
  RosflightCmd, accel_calibration, gyro_calibration, baro_calibration, airspeed_calibration,
  CommResponse, rosflight_cmd_failed, rosflight_cmd_success, emit_cmd_ack,
}
use veloxity.Companion.Inputs.{drain_all}
use veloxity.Pipeline.Change.{ParamChanged, set_param_and_emit_change}

-- The eight bits of the u16; `IMU` is `GYRO` and `ACCEL`.
pub record CalibrationFlags : Type 0 where
  pub gyro : Bool
  pub accel : Bool
  pub baro : Bool
  pub pitot : Bool
  pub gyro_failed : Bool
  pub accel_failed : Bool
  pub baro_failed : Bool
  pub pitot_failed : Bool

-- What a calibration request can change.
pub record Service (F Dc Dr : Type 0) : Type 0 where
  pub params : Params F
  pub changes : EventQueue Dc
  pub flags : CalibrationFlags
  pub responses : EventQueue Dr

module _ {F P Dc Dr : Type 0} ⦃fl : Float F⦄ (dc : Deque (ParamChanged F) Dc)
    (dr : Deque (CommResponse P) Dr) where
  unfoldable pub zero_param : ParamId → Service F Dc Dr → Service F Dc Dr
  zero_param id s =
      let (params, changes) = set_param_and_emit_change dc s.params s.changes id (float nought) in
      record s { params = params; changes = changes }

  unfoldable pub zero_gyro_biases : Service F Dc Dr → Service F Dc Dr
  unfolding zero_param
  zero_gyro_biases s =
      zero_param param_gyro_z_bias (zero_param param_gyro_y_bias (zero_param param_gyro_x_bias s))

  unfoldable pub zero_accel_biases : Service F Dc Dr → Service F Dc Dr
  unfolding zero_param
  zero_accel_biases s =
      zero_param param_acc_z_bias (zero_param param_acc_y_bias (zero_param param_acc_x_bias s))

  unfoldable pub start_calibration : RosflightCmd → Service F Dc Dr → Service F Dc Dr
  unfolding zero_gyro_biases zero_accel_biases
  start_calibration accel_calibration s = zero_accel_biases (
      zero_gyro_biases (record s {
        flags = record (s.flags) {
          gyro_failed = false;
          accel_failed = false;
          gyro = true;
          accel = true;
        };
      }))
  start_calibration gyro_calibration s =
      zero_gyro_biases (record s { flags = record (s.flags) { gyro_failed = false; gyro = true } })
  start_calibration baro_calibration s = record s {
    flags = record (s.flags) { baro_failed = false; baro = true };
  }
  start_calibration airspeed_calibration s =
      zero_param param_diff_press_bias
        (record s { flags = record (s.flags) { pitot_failed = false; pitot = true } })
  start_calibration _ s = s

  unfoldable pub calibration_request : Bool → Service F Dc Dr → RosflightCmd → Service F Dc Dr
  unfolding start_calibration
  calibration_request is_armed s command =
      if is_armed
      then record s { responses = emit_cmd_ack dr s.responses command rosflight_cmd_failed }
      else (let s' = start_calibration command s in
          record s' { responses = emit_cmd_ack dr s'.responses command rosflight_cmd_success })

  unfoldable pub apply_calibration_requests :
      {Dq : Type 0}
      → Deque RosflightCmd Dq
      → Bool
      → EventQueue Dq
      → Service F Dc Dr
      → EventQueue Dq × Service F Dc Dr
  unfolding calibration_request
  apply_calibration_requests dq is_armed = drain_all dq (calibration_request is_armed)
