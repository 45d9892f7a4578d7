-- ===== src/Service/Requests.antt =====
-- What calibration requests do to an armed vehicle and to a disarmed one:
-- crates/veloxity_core/src/command/service.rs.
use veloxity.Base.{◌≡◌, refl, ◌∙◌, Bool, true, false, ◌&&◌, List, [], ◌∷◌, arith}
use veloxity.Float.{Float, nought}
use veloxity.Params.{
  ParamId, get_by_id, set_by_id, param_acc_x_bias, param_acc_y_bias, param_acc_z_bias,
  param_gyro_x_bias, param_gyro_y_bias, param_gyro_z_bias,
}
use veloxity.Events.Deque.{Deque, IsDeque}
use veloxity.Events.Queue.{EventQueue, push_or_log}
use veloxity.Events.Response.{
  RosflightCmd, accel_calibration, CommResponse, rosflight_cmd_failed, cmd_ack, emit_cmd_ack,
}
use veloxity.Companion.Drained.{fold, drain_all-fold}
use veloxity.Pipeline.Change.{ParamChanged, set_param_and_emit_change, same_value}
use veloxity.Sensors.Health.{is_zero, imu_bias_params_are_all_zero}
use veloxity.Service.Calibration.{
  Service, zero_param, zero_gyro_biases, zero_accel_biases, start_calibration, calibration_request,
  apply_calibration_requests,
}

all_six :
    {a b c d e f : Bool}
    → a ≡ true
    → b ≡ true
    → c ≡ true
    → d ≡ true
    → e ≡ true
    → f ≡ true
    → (a && (b && (c && (d && (e && f))))) ≡ true
all_six a b c d e f = ground (arith, a, b, c, d, e, f)

-- A failed acknowledgement for each command.
unfoldable pub refuse_all :
    {P Dr : Type 0} → Deque (CommResponse P) Dr → EventQueue Dr → List RosflightCmd → EventQueue Dr
refuse_all dr = fold λ responses command.
    (push_or_log dr responses
      (cmd_ack (record { command = command; success = rosflight_cmd_failed }))).0

module _ {F P Dc Dr : Type 0} ⦃fl : Float F⦄ (dc : Deque (ParamChanged F) Dc)
    (dr : Deque (CommResponse P) Dr) where
  fold-refuse_all :
      (commands : List RosflightCmd) (s : Service F Dc Dr)
      → fold (calibration_request dc dr true) s commands
        ≡ record s { responses = refuse_all dr s.responses commands }
  unfolding fold refuse_all calibration_request emit_cmd_ack
  fold-refuse_all [] s = refl
  fold-refuse_all (c ∷ cs) s = fold-refuse_all cs (calibration_request dc dr true s c)

  -- While armed, the queued calibration requests are all taken and each is answered as failed; no
  -- parameter, change event or calibration flag is touched. The queues' own behaviour is assumed.
  pub armed_refuses_calibration :
      {Dq : Type 0} (dq : Deque RosflightCmd Dq) (laws : IsDeque dq) (requests : EventQueue Dq)
      (s : Service F Dc Dr)
      → let (requests', s') = apply_calibration_requests dc dr dq true requests s in
        (laws.items requests'.items ≡ [])
        × (s' ≡ record s { responses = refuse_all dr s.responses (laws.items requests.items) })
  unfolding apply_calibration_requests
  armed_refuses_calibration dq laws requests s =
      let (emptied, folded) = drain_all-fold dq laws (calibration_request dc dr true) requests s in
      (emptied, folded ∙ fold-refuse_all (laws.items requests.items) s)

  abbrev IsZero : Service F Dc Dr → ParamId → Type 0
  IsZero s id = is_zero (get_by_id s.params id) ≡ true

  module _ (h : fl.eq nought nought ≡ true) (s : Service F Dc Dr) where
    zero_param-zeroes : (id : ParamId) → IsZero (zero_param dc dr id s) id
    unfolding zero_param set_param_and_emit_change same_value get_by_id set_by_id is_zero
    zero_param-zeroes id = ground arith

    zero_param-keeps : (id other : ParamId) → IsZero s other → IsZero (zero_param dc dr id s) other
    unfolding zero_param set_param_and_emit_change same_value get_by_id set_by_id is_zero
    zero_param-keeps id other z = ground arith

  zero_param-flags : (id : ParamId) (s : Service F Dc Dr) → (zero_param dc dr id s).flags ≡ s.flags
  unfolding zero_param
  zero_param-flags id s = refl

  -- An accelerometer calibration of a disarmed vehicle requests both IMU calibrations, clears their
  -- failure bits, and leaves every IMU bias zero, where 0.0 equals itself.
  pub accel_calibration_zeroes :
      (s : Service F Dc Dr)
      → fl.eq nought nought ≡ true
      → let s' = calibration_request dc dr false s accel_calibration in
        (imu_bias_params_are_all_zero s'.params ≡ true)
        × (s'.flags.gyro ≡ true)
        × (s'.flags.accel ≡ true)
        × (s'.flags.gyro_failed ≡ false)
        × (s'.flags.accel_failed ≡ false)
  unfolding calibration_request start_calibration zero_gyro_biases zero_accel_biases
      imu_bias_params_are_all_zero zero_param
  accel_calibration_zeroes s h =
      let s0 : Service F Dc Dr = record s {
        flags = record (s.flags) {
          gyro_failed = false;
          accel_failed = false;
          gyro = true;
          accel = true;
        };
      } in
      let s1 = zero_param dc dr param_gyro_x_bias s0 in
      let s2 = zero_param dc dr param_gyro_y_bias s1 in
      let s3 = zero_param dc dr param_gyro_z_bias s2 in
      let s4 = zero_param dc dr param_acc_x_bias s3 in
      let s5 = zero_param dc dr param_acc_y_bias s4 in
      let az = zero_param-zeroes h s5 param_acc_z_bias in
      let ay =
        zero_param-keeps h s5 param_acc_z_bias param_acc_y_bias
          (zero_param-zeroes h s4 param_acc_y_bias) in
      let k5 = λ (id : ParamId) (z : IsZero s4 id).
        zero_param-keeps h s5 param_acc_z_bias id (zero_param-keeps h s4 param_acc_y_bias id z) in
      let ax = k5 param_acc_x_bias (zero_param-zeroes h s3 param_acc_x_bias) in
      let k3 =
        λ (id : ParamId) (z : IsZero s3 id). k5 id (zero_param-keeps h s3 param_acc_x_bias id z) in
      let gz = k3 param_gyro_z_bias (zero_param-zeroes h s2 param_gyro_z_bias) in
      let gy = k3 param_gyro_y_bias (
        zero_param-keeps h s2 param_gyro_z_bias param_gyro_y_bias
          (zero_param-zeroes h s1 param_gyro_y_bias)) in
      let gx = k3 param_gyro_x_bias (
        zero_param-keeps h s2 param_gyro_z_bias param_gyro_x_bias (
          zero_param-keeps h s1 param_gyro_y_bias param_gyro_x_bias
            (zero_param-zeroes h s0 param_gyro_x_bias))) in
      (all_six ax ay az gx gy gz, refl, refl, refl, refl)
