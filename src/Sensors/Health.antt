-- ===== src/Sensors/Health.antt =====
-- The error bits that the sensors raise: crates/veloxity_core/src/sensors/health.rs.
use veloxity.Base.{ℕ, ◌+◌, ◌%◌, ◌^◌, Bool, true, false, ◌&&◌, ltb, if◌then◌else◌}
use veloxity.Float.{Float, nought}
use veloxity.Params.{
  Params, ParamValue, float, get_by_id, param_acc_x_bias, param_acc_y_bias, param_acc_z_bias,
  param_gyro_x_bias, param_gyro_y_bias, param_gyro_z_bias,
}
use veloxity.StateMachine.Flags.{imu_not_responding, uncalibrated_imu}
use veloxity.StateMachine.Manager.{StateManager, set_error_flag}

-- The u64 sum wraps as in a release build.
unfoldable pub imu_timed_out : ℕ → ℕ → ℕ → Bool
imu_timed_out now_us last_imu_seen imu_timeout_us =
    ltb ((last_imu_seen + imu_timeout_us) % 2 ^ 64) now_us

module _ {F : Type 0} where
  -- What it changes: the state manager and the time of the last sample.
  unfoldable pub update_sensor_health :
      ℕ → Bool → Params F → StateManager → ℕ → ℕ → StateManager × ℕ
  unfolding imu_timed_out
  update_sensor_health now_us imu_is_some params state last_imu_seen imu_timeout_us =
      if imu_is_some
      then (set_error_flag state imu_not_responding false params, now_us)
      else if imu_timed_out now_us last_imu_seen imu_timeout_us
      then (set_error_flag state imu_not_responding true params, last_imu_seen)
      else (state, last_imu_seen)

module _ {F : Type 0} ⦃fl : Float F⦄ where
  unfoldable pub is_zero : ParamValue F → Bool
  is_zero (float v) = fl.eq v nought
  is_zero _ = false

  unfoldable pub imu_bias_params_are_all_zero : Params F → Bool
  unfolding is_zero
  imu_bias_params_are_all_zero params =
      is_zero (get_by_id params param_acc_x_bias)
      && (is_zero (get_by_id params param_acc_y_bias)
          && (is_zero (get_by_id params param_acc_z_bias)
              && (is_zero (get_by_id params param_gyro_x_bias)
                  && (is_zero (get_by_id params param_gyro_y_bias)
                      && is_zero (get_by_id params param_gyro_z_bias)))))

  unfoldable pub initialize_imu_calibration_error : StateManager → Params F → StateManager
  initialize_imu_calibration_error state params =
      set_error_flag state uncalibrated_imu (imu_bias_params_are_all_zero params) params
