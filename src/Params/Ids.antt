-- ===== src/Params/Ids.antt =====
-- The parameter identifiers that the modelled code names, from the table of
-- crates/veloxity_core/src/params.rs: each is its position there, the enum's u16 discriminant.
use veloxity.Base.{ℕ}

abbrev pub ParamId : Type 0
ParamId = ℕ

abbrev pub param_failsafe_throttle : ParamId
param_failsafe_throttle = 252

abbrev pub param_calibrate_gyro_on_arm : ParamId
param_calibrate_gyro_on_arm = 263

abbrev pub param_gyro_x_bias : ParamId
param_gyro_x_bias = 267

abbrev pub param_gyro_y_bias : ParamId
param_gyro_y_bias = 268

abbrev pub param_gyro_z_bias : ParamId
param_gyro_z_bias = 269

abbrev pub param_acc_x_bias : ParamId
param_acc_x_bias = 270

abbrev pub param_acc_y_bias : ParamId
param_acc_y_bias = 271

abbrev pub param_acc_z_bias : ParamId
param_acc_z_bias = 272

abbrev pub param_rc_x_channel : ParamId
param_rc_x_channel = 292

abbrev pub param_rc_y_channel : ParamId
param_rc_y_channel = 293

abbrev pub param_rc_z_channel : ParamId
param_rc_z_channel = 294

abbrev pub param_rc_f_channel : ParamId
param_rc_f_channel = 295

abbrev pub param_rc_f_axis : ParamId
param_rc_f_axis = 296

abbrev pub param_rc_attitude_override_channel : ParamId
param_rc_attitude_override_channel = 297

abbrev pub param_rc_throttle_override_channel : ParamId
param_rc_throttle_override_channel = 298

abbrev pub param_rc_att_control_type_channel : ParamId
param_rc_att_control_type_channel = 299

abbrev pub param_rc_arm_channel : ParamId
param_rc_arm_channel = 300

abbrev pub param_rc_num_channels : ParamId
param_rc_num_channels = 301

abbrev pub param_rc_switch_5_direction : ParamId
param_rc_switch_5_direction = 302

abbrev pub param_rc_switch_6_direction : ParamId
param_rc_switch_6_direction = 303

abbrev pub param_rc_switch_7_direction : ParamId
param_rc_switch_7_direction = 304

abbrev pub param_rc_switch_8_direction : ParamId
param_rc_switch_8_direction = 305

abbrev pub param_rc_override_deviation : ParamId
param_rc_override_deviation = 306

abbrev pub param_override_lag_time : ParamId
param_override_lag_time = 307

abbrev pub param_rc_override_take_min_throttle : ParamId
param_rc_override_take_min_throttle = 308

abbrev pub param_rc_attitude_mode : ParamId
param_rc_attitude_mode = 310

abbrev pub param_allow_unhealthy_estimator : ParamId
param_allow_unhealthy_estimator = 311

abbrev pub param_est_angle_lockout : ParamId
param_est_angle_lockout = 312

abbrev pub param_rc_max_roll : ParamId
param_rc_max_roll = 313

abbrev pub param_rc_max_pitch : ParamId
param_rc_max_pitch = 314

abbrev pub param_rc_max_rollrate : ParamId
param_rc_max_rollrate = 315

abbrev pub param_rc_max_pitchrate : ParamId
param_rc_max_pitchrate = 316

abbrev pub param_rc_max_yawrate : ParamId
param_rc_max_yawrate = 317

abbrev pub param_fixed_wing : ParamId
param_fixed_wing = 320

abbrev pub param_arm_threshold : ParamId
param_arm_threshold = 330

abbrev pub param_offboard_timeout : ParamId
param_offboard_timeout = 335

abbrev pub param_rc_output_kill_channel : ParamId
param_rc_output_kill_channel = 336

abbrev pub param_diff_press_bias : ParamId
param_diff_press_bias = 290

abbrev pub param_motor_idle_throttle : ParamId
param_motor_idle_throttle = 251

abbrev pub param_spin_motors_when_armed : ParamId
param_spin_motors_when_armed = 253

abbrev pub param_channel_output_mask : ParamId
param_channel_output_mask = 254

abbrev pub param_primary_mixer : ParamId
param_primary_mixer = 318

abbrev pub param_secondary_mixer : ParamId
param_secondary_mixer = 319

abbrev pub param_telem_heartbeat_hz : ParamId
param_telem_heartbeat_hz = 337

abbrev pub param_telem_status_hz : ParamId
param_telem_status_hz = 338

abbrev pub param_telem_imu_hz : ParamId
param_telem_imu_hz = 339

abbrev pub param_telem_attitude_hz : ParamId
param_telem_attitude_hz = 340

abbrev pub param_telem_output_raw_hz : ParamId
param_telem_output_raw_hz = 341

abbrev pub param_telem_diff_pressure_hz : ParamId
param_telem_diff_pressure_hz = 342

abbrev pub param_telem_baro_hz : ParamId
param_telem_baro_hz = 343

abbrev pub param_telem_mag_hz : ParamId
param_telem_mag_hz = 344

abbrev pub param_telem_range_hz : ParamId
param_telem_range_hz = 345

abbrev pub param_telem_battery_hz : ParamId
param_telem_battery_hz = 346

abbrev pub param_telem_gnss_hz : ParamId
param_telem_gnss_hz = 347

abbrev pub param_telem_rc_hz : ParamId
param_telem_rc_hz = 348

abbrev pub param_battery_voltage_multiplier : ParamId
param_battery_voltage_multiplier = 331

abbrev pub param_battery_current_multiplier : ParamId
param_battery_current_multiplier = 332

abbrev pub param_battery_voltage_alpha : ParamId
param_battery_voltage_alpha = 333

abbrev pub param_battery_current_alpha : ParamId
param_battery_current_alpha = 334

abbrev pub param_primary_mixer_output_0 : ParamId
param_primary_mixer_output_0 = 11

abbrev pub param_primary_mixer_pwm_rate_0 : ParamId
param_primary_mixer_pwm_rate_0 = 21

abbrev pub param_primary_mixer_0_0 : ParamId
param_primary_mixer_0_0 = 31

abbrev pub param_secondary_mixer_0_0 : ParamId
param_secondary_mixer_0_0 = 131
