-- ===== src/Params/Third.antt =====
-- The entries 240 to 348 of the table in crates/veloxity_core/src/params.rs, in its order.
use veloxity.Base.{List, [], ◌∷◌}
use veloxity.Base.Int.{pos, negsuc}
use veloxity.Float.{Float}
use veloxity.Params.{float, int}
use veloxity.Params.Definition.{Entry, entry}

unfoldable pub third_entries : {F : Type 0} ⦃fl : Float F⦄ → List (Entry F)
third_entries {F} ⦃fl⦄ =
    entry "PID_YAW_RATE_D" (float (fl.decimal (pos 0) 0))
    ∷ entry "PID_ROLL_ANG_P" (float (fl.decimal (pos 15) 2))
    ∷ entry "PID_ROLL_ANG_I" (float (fl.decimal (pos 0) 0))
    ∷ entry "PID_ROLL_ANG_D" (float (fl.decimal (pos 5) 2))
    ∷ entry "PID_PITCH_ANG_P" (float (fl.decimal (pos 15) 2))
    ∷ entry "PID_PITCH_ANG_I" (float (fl.decimal (pos 0) 0))
    ∷ entry "PID_PITCH_ANG_D" (float (fl.decimal (pos 5) 2))
    ∷ entry "X_EQ_TORQUE" (float (fl.decimal (pos 0) 0))
    ∷ entry "Y_EQ_TORQUE" (float (fl.decimal (pos 0) 0))
    ∷ entry "Z_EQ_TORQUE" (float (fl.decimal (pos 0) 0))
    ∷ entry "PID_TAU" (float (fl.decimal (pos 5) 2))
    ∷ entry "MOTOR_IDLE_THR" (float (fl.decimal (pos 1) 1))
    ∷ entry "FAILSAFE_THR" (float (fl.decimal (negsuc 0) 0))
    ∷ entry "ARM_SPIN_MOTORS" (int (pos 1))
    ∷ entry "CHN_OUTPUT_MASK" (int (pos 15))
    ∷ entry "FILT_INIT_T" (int (pos 3000))
    ∷ entry "FILT_ACC_KP" (float (fl.decimal (pos 5) 1))
    ∷ entry "FILT_KI" (float (fl.decimal (pos 1) 2))
    ∷ entry "FILT_EXT_KP" (float (fl.decimal (pos 15) 1))
    ∷ entry "FILT_ACC_MARGIN" (float (fl.decimal (pos 1) 1))
    ∷ entry "FILT_QUAD_INT" (int (pos 1))
    ∷ entry "FILT_MAT_EXP" (int (pos 1))
    ∷ entry "FILT_USE_ACC" (int (pos 1))
    ∷ entry "ARM_CAL_GYRO" (int (pos 0))
    ∷ entry "GYRO_XY_LPF" (float (fl.decimal (pos 3) 1))
    ∷ entry "GYRO_Z_LPF" (float (fl.decimal (pos 3) 1))
    ∷ entry "ACC_LPF" (float (fl.decimal (pos 5) 1))
    ∷ entry "GYRO_X_BIAS" (float (fl.decimal (pos 0) 0))
    ∷ entry "GYRO_Y_BIAS" (float (fl.decimal (pos 0) 0))
    ∷ entry "GYRO_Z_BIAS" (float (fl.decimal (pos 0) 0))
    ∷ entry "ACC_X_BIAS" (float (fl.decimal (pos 0) 0))
    ∷ entry "ACC_Y_BIAS" (float (fl.decimal (pos 0) 0))
    ∷ entry "ACC_Z_BIAS" (float (fl.decimal (pos 0) 0))
    ∷ entry "ACC_X_TEMP_COMP" (float (fl.decimal (pos 0) 0))
    ∷ entry "ACC_Y_TEMP_COMP" (float (fl.decimal (pos 0) 0))
    ∷ entry "ACC_Z_TEMP_COMP" (float (fl.decimal (pos 0) 0))
    ∷ entry "MAG_CAL_A00" (float (fl.decimal (pos 1) 0))
    ∷ entry "MAG_CAL_A01" (float (fl.decimal (pos 0) 0))
    ∷ entry "MAG_CAL_A02" (float (fl.decimal (pos 0) 0))
    ∷ entry "MAG_CAL_A10" (float (fl.decimal (pos 0) 0))
    ∷ entry "MAG_CAL_A11" (float (fl.decimal (pos 1) 0))
    ∷ entry "MAG_CAL_A12" (float (fl.decimal (pos 0) 0))
    ∷ entry "MAG_CAL_A20" (float (fl.decimal (pos 0) 0))
    ∷ entry "MAG_CAL_A21" (float (fl.decimal (pos 0) 0))
    ∷ entry "MAG_CAL_A22" (float (fl.decimal (pos 1) 0))
    ∷ entry "MAG_X_BIAS" (float (fl.decimal (pos 0) 0))
    ∷ entry "MAG_Y_BIAS" (float (fl.decimal (pos 0) 0))
    ∷ entry "MAG_Z_BIAS" (float (fl.decimal (pos 0) 0))
    ∷ entry "BARO_BIAS" (float (fl.decimal (pos 0) 0))
    ∷ entry "GROUND_LEVEL" (float (fl.decimal (pos 1387) 0))
    ∷ entry "DIFF_PRESS_BIAS" (float (fl.decimal (pos 0) 0))
    ∷ entry "RC_TYPE" (int (pos 0))
    ∷ entry "RC_X_CHN" (int (pos 0))
    ∷ entry "RC_Y_CHN" (int (pos 1))
    ∷ entry "RC_Z_CHN" (int (pos 3))
    ∷ entry "RC_F_CHN" (int (pos 2))
    ∷ entry "RC_F_AXIS" (int (pos 2))
    ∷ entry "RC_ATT_OVRD_CHN" (int (pos 4))
    ∷ entry "RC_THR_OVRD_CHN" (int (pos 4))
    ∷ entry "RC_ATT_CTRL_CHN" (int (negsuc 0))
    ∷ entry "RC_ARM_CHN" (int (negsuc 0))
    ∷ entry "RC_NUM_CHN" (int (pos 6))
    ∷ entry "SWITCH_5_DIR" (int (pos 1))
    ∷ entry "SWITCH_6_DIR" (int (pos 1))
    ∷ entry "SWITCH_7_DIR" (int (pos 1))
    ∷ entry "SWITCH_8_DIR" (int (pos 1))
    ∷ entry "RC_OVRD_DEV" (float (fl.decimal (pos 1) 1))
    ∷ entry "RC_OVRD_LAG_T" (int (pos 1000))
    ∷ entry "TAKE_MIN_THR" (int (pos 1))
    ∷ entry "RC_MAX_THR" (float (fl.decimal (pos 7) 1))
    ∷ entry "RC_ATT_MODE" (int (pos 1))
    ∷ entry "BYPASS_UNH_EST" (int (pos 1))
    ∷ entry "EST_ANG_LOCKOUT" (int (pos 0))
    ∷ entry "RC_MAX_ROLL" (float (fl.decimal (pos 786) 3))
    ∷ entry "RC_MAX_PITCH" (float (fl.decimal (pos 786) 3))
    ∷ entry "RC_MAX_ROLLRATE" (float (fl.decimal (pos 314159) 5))
    ∷ entry "RC_MAX_PITCHRATE" (float (fl.decimal (pos 314159) 5))
    ∷ entry "RC_MAX_YAWRATE" (float (fl.decimal (pos 1507) 3))
    ∷ entry "PRIMARY_MIXER" (int (negsuc 0))
    ∷ entry "SECONDARY_MIXER" (int (negsuc 0))
    ∷ entry "FIXED_WING" (int (pos 0))
    ∷ entry "REV_ELEVATOR" (int (pos 0))
    ∷ entry "REV_AILERON" (int (pos 0))
    ∷ entry "REV_RUDDER" (int (pos 0))
    ∷ entry "IMU_ROLL" (float (fl.decimal (pos 0) 0))
    ∷ entry "IMU_PITCH" (float (fl.decimal (pos 0) 0))
    ∷ entry "IMU_YAW" (float (fl.decimal (pos 0) 0))
    ∷ entry "MAG_ROLL" (float (fl.decimal (pos 0) 0))
    ∷ entry "MAG_PITCH" (float (fl.decimal (pos 0) 0))
    ∷ entry "MAG_YAW" (float (fl.decimal (pos 0) 0))
    ∷ entry "RC_ARM_THRESHOLD" (float (fl.decimal (pos 15) 2))
    ∷ entry "BATT_VOLT_MULT" (float (fl.decimal (pos 1) 0))
    ∷ entry "BATT_CURR_MULT" (float (fl.decimal (pos 1) 0))
    ∷ entry "BATT_VOLT_LPF" (float (fl.decimal (pos 995) 3))
    ∷ entry "BATT_CURR_LPF" (float (fl.decimal (pos 995) 3))
    ∷ entry "OFFBOARD_TIMEOUT" (int (pos 100))
    ∷ entry "RC_KILL_CHN" (int (negsuc 0))
    ∷ entry "TEL_HB_HZ" (int (pos 1))
    ∷ entry "TEL_STATUS_HZ" (int (pos 10))
    ∷ entry "TEL_IMU_HZ" (int (pos 0))
    ∷ entry "TEL_ATT_HZ" (int (pos 0))
    ∷ entry "TEL_OUT_HZ" (int (pos 50))
    ∷ entry "TEL_DIFF_HZ" (int (pos 0))
    ∷ entry "TEL_BARO_HZ" (int (pos 0))
    ∷ entry "TEL_MAG_HZ" (int (pos 0))
    ∷ entry "TEL_RANGE_HZ" (int (pos 0))
    ∷ entry "TEL_BATT_HZ" (int (pos 0))
    ∷ entry "TEL_GNSS_HZ" (int (pos 0))
    ∷ entry "TEL_RC_HZ" (int (pos 0))
    ∷ []
