-- ===== src/Params/First.antt =====
-- The entries 0 to 119 of the table in crates/veloxity_core/src/params.rs, in its order.
use veloxity.Base.{List, [], ◌∷◌}
use veloxity.Base.Int.{pos}
use veloxity.Float.{Float}
use veloxity.Params.{float, int}
use veloxity.Params.Definition.{Entry, entry}

unfoldable pub first_entries : {F : Type 0} ⦃fl : Float F⦄ → List (Entry F)
first_entries {F} ⦃fl⦄ =
    entry "BAUD_RATE" (int (pos 921600))
    ∷ entry "SERIAL_DEVICE" (int (pos 0))
    ∷ entry "NUM_MOTORS" (int (pos 4))
    ∷ entry "MOTOR_RESISTANCE" (float (fl.decimal (pos 42) 3))
    ∷ entry "MOTOR_KV" (float (fl.decimal (pos 1706) 5))
    ∷ entry "NO_LOAD_CURRENT" (float (fl.decimal (pos 15) 1))
    ∷ entry "PROP_DIAMETER" (float (fl.decimal (pos 381) 3))
    ∷ entry "PROP_CT" (float (fl.decimal (pos 75) 3))
    ∷ entry "PROP_CQ" (float (fl.decimal (pos 45) 4))
    ∷ entry "BATT_VOLT_MAX" (float (fl.decimal (pos 25) 0))
    ∷ entry "USE_MOTOR_PARAM" (int (pos 0))
    ∷ entry "PRI_MIXER_OUT_0" (int (pos 0))
    ∷ entry "PRI_MIXER_OUT_1" (int (pos 0))
    ∷ entry "PRI_MIXER_OUT_2" (int (pos 0))
    ∷ entry "PRI_MIXER_OUT_3" (int (pos 0))
    ∷ entry "PRI_MIXER_OUT_4" (int (pos 0))
    ∷ entry "PRI_MIXER_OUT_5" (int (pos 0))
    ∷ entry "PRI_MIXER_OUT_6" (int (pos 0))
    ∷ entry "PRI_MIXER_OUT_7" (int (pos 0))
    ∷ entry "PRI_MIXER_OUT_8" (int (pos 0))
    ∷ entry "PRI_MIXER_OUT_9" (int (pos 0))
    ∷ entry "PRI_MIXER_PWM_0" (float (fl.decimal (pos 0) 0))
    ∷ entry "PRI_MIXER_PWM_1" (float (fl.decimal (pos 0) 0))
    ∷ entry "PRI_MIXER_PWM_2" (float (fl.decimal (pos 0) 0))
    ∷ entry "PRI_MIXER_PWM_3" (float (fl.decimal (pos 0) 0))
    ∷ entry "PRI_MIXER_PWM_4" (float (fl.decimal (pos 0) 0))
    ∷ entry "PRI_MIXER_PWM_5" (float (fl.decimal (pos 0) 0))
    ∷ entry "PRI_MIXER_PWM_6" (float (fl.decimal (pos 0) 0))
    ∷ entry "PRI_MIXER_PWM_7" (float (fl.decimal (pos 0) 0))
    ∷ entry "PRI_MIXER_PWM_8" (float (fl.decimal (pos 0) 0))
    ∷ entry "PRI_MIXER_PWM_9" (float (fl.decimal (pos 0) 0))
    ∷ entry "PRI_MIXER_0_0" (float (fl.decimal (pos 0) 0))
    ∷ entry "PRI_MIXER_1_0" (float (fl.decimal (pos 0) 0))
    ∷ entry "PRI_MIXER_2_0" (float (fl.decimal (pos 0) 0))
    ∷ entry "PRI_MIXER_3_0" (float (fl.decimal (pos 0) 0))
    ∷ entry "PRI_MIXER_4_0" (float (fl.decimal (pos 0) 0))
    ∷ entry "PRI_MIXER_5_0" (float (fl.decimal (pos 0) 0))
    ∷ entry "PRI_MIXER_6_0" (float (fl.decimal (pos 0) 0))
    ∷ entry "PRI_MIXER_7_0" (float (fl.decimal (pos 0) 0))
    ∷ entry "PRI_MIXER_8_0" (float (fl.decimal (pos 0) 0))
    ∷ entry "PRI_MIXER_9_0" (float (fl.decimal (pos 0) 0))
    ∷ entry "PRI_MIXER_0_1" (float (fl.decimal (pos 0) 0))
    ∷ entry "PRI_MIXER_1_1" (float (fl.decimal (pos 0) 0))
    ∷ entry "PRI_MIXER_2_1" (float (fl.decimal (pos 0) 0))
    ∷ entry "PRI_MIXER_3_1" (float (fl.decimal (pos 0) 0))
    ∷ entry "PRI_MIXER_4_1" (float (fl.decimal (pos 0) 0))
    ∷ entry "PRI_MIXER_5_1" (float (fl.decimal (pos 0) 0))
    ∷ entry "PRI_MIXER_6_1" (float (fl.decimal (pos 0) 0))
    ∷ entry "PRI_MIXER_7_1" (float (fl.decimal (pos 0) 0))
    ∷ entry "PRI_MIXER_8_1" (float (fl.decimal (pos 0) 0))
    ∷ entry "PRI_MIXER_9_1" (float (fl.decimal (pos 0) 0))
    ∷ entry "PRI_MIXER_0_2" (float (fl.decimal (pos 0) 0))
    ∷ entry "PRI_MIXER_1_2" (float (fl.decimal (pos 0) 0))
    ∷ entry "PRI_MIXER_2_2" (float (fl.decimal (pos 0) 0))
    ∷ entry "PRI_MIXER_3_2" (float (fl.decimal (pos 0) 0))
    ∷ entry "PRI_MIXER_4_2" (float (fl.decimal (pos 0) 0))
    ∷ entry "PRI_MIXER_5_2" (float (fl.decimal (pos 0) 0))
    ∷ entry "PRI_MIXER_6_2" (float (fl.decimal (pos 0) 0))
    ∷ entry "PRI_MIXER_7_2" (float (fl.decimal (pos 0) 0))
    ∷ entry "PRI_MIXER_8_2" (float (fl.decimal (pos 0) 0))
    ∷ entry "PRI_MIXER_9_2" (float (fl.decimal (pos 0) 0))
    ∷ entry "PRI_MIXER_0_3" (float (fl.decimal (pos 0) 0))
    ∷ entry "PRI_MIXER_1_3" (float (fl.decimal (pos 0) 0))
    ∷ entry "PRI_MIXER_2_3" (float (fl.decimal (pos 0) 0))
    ∷ entry "PRI_MIXER_3_3" (float (fl.decimal (pos 0) 0))
    ∷ entry "PRI_MIXER_4_3" (float (fl.decimal (pos 0) 0))
    ∷ entry "PRI_MIXER_5_3" (float (fl.decimal (pos 0) 0))
    ∷ entry "PRI_MIXER_6_3" (float (fl.decimal (pos 0) 0))
    ∷ entry "PRI_MIXER_7_3" (float (fl.decimal (pos 0) 0))
    ∷ entry "PRI_MIXER_8_3" (float (fl.decimal (pos 0) 0))
    ∷ entry "PRI_MIXER_9_3" (float (fl.decimal (pos 0) 0))
    ∷ entry "PRI_MIXER_0_4" (float (fl.decimal (pos 0) 0))
    ∷ entry "PRI_MIXER_1_4" (float (fl.decimal (pos 0) 0))
    ∷ entry "PRI_MIXER_2_4" (float (fl.decimal (pos 0) 0))
    ∷ entry "PRI_MIXER_3_4" (float (fl.decimal (pos 0) 0))
    ∷ entry "PRI_MIXER_4_4" (float (fl.decimal (pos 0) 0))
    ∷ entry "PRI_MIXER_5_4" (float (fl.decimal (pos 0) 0))
    ∷ entry "PRI_MIXER_6_4" (float (fl.decimal (pos 0) 0))
    ∷ entry "PRI_MIXER_7_4" (float (fl.decimal (pos 0) 0))
    ∷ entry "PRI_MIXER_8_4" (float (fl.decimal (pos 0) 0))
    ∷ entry "PRI_MIXER_9_4" (float (fl.decimal (pos 0) 0))
    ∷ entry "PRI_MIXER_0_5" (float (fl.decimal (pos 0) 0))
    ∷ entry "PRI_MIXER_1_5" (float (fl.decimal (pos 0) 0))
    ∷ entry "PRI_MIXER_2_5" (float (fl.decimal (pos 0) 0))
    ∷ entry "PRI_MIXER_3_5" (float (fl.decimal (pos 0) 0))
    ∷ entry "PRI_MIXER_4_5" (float (fl.decimal (pos 0) 0))
    ∷ entry "PRI_MIXER_5_5" (float (fl.decimal (pos 0) 0))
    ∷ entry "PRI_MIXER_6_5" (float (fl.decimal (pos 0) 0))
    ∷ entry "PRI_MIXER_7_5" (float (fl.decimal (pos 0) 0))
    ∷ entry "PRI_MIXER_8_5" (float (fl.decimal (pos 0) 0))
    ∷ entry "PRI_MIXER_9_5" (float (fl.decimal (pos 0) 0))
    ∷ entry "PRI_MIXER_0_6" (float (fl.decimal (pos 0) 0))
    ∷ entry "PRI_MIXER_1_6" (float (fl.decimal (pos 0) 0))
    ∷ entry "PRI_MIXER_2_6" (float (fl.decimal (pos 0) 0))
    ∷ entry "PRI_MIXER_3_6" (float (fl.decimal (pos 0) 0))
    ∷ entry "PRI_MIXER_4_6" (float (fl.decimal (pos 0) 0))
    ∷ entry "PRI_MIXER_5_6" (float (fl.decimal (pos 0) 0))
    ∷ entry "PRI_MIXER_6_6" (float (fl.decimal (pos 0) 0))
    ∷ entry "PRI_MIXER_7_6" (float (fl.decimal (pos 0) 0))
    ∷ entry "PRI_MIXER_8_6" (float (fl.decimal (pos 0) 0))
    ∷ entry "PRI_MIXER_9_6" (float (fl.decimal (pos 0) 0))
    ∷ entry "PRI_MIXER_0_7" (float (fl.decimal (pos 0) 0))
    ∷ entry "PRI_MIXER_1_7" (float (fl.decimal (pos 0) 0))
    ∷ entry "PRI_MIXER_2_7" (float (fl.decimal (pos 0) 0))
    ∷ entry "PRI_MIXER_3_7" (float (fl.decimal (pos 0) 0))
    ∷ entry "PRI_MIXER_4_7" (float (fl.decimal (pos 0) 0))
    ∷ entry "PRI_MIXER_5_7" (float (fl.decimal (pos 0) 0))
    ∷ entry "PRI_MIXER_6_7" (float (fl.decimal (pos 0) 0))
    ∷ entry "PRI_MIXER_7_7" (float (fl.decimal (pos 0) 0))
    ∷ entry "PRI_MIXER_8_7" (float (fl.decimal (pos 0) 0))
    ∷ entry "PRI_MIXER_9_7" (float (fl.decimal (pos 0) 0))
    ∷ entry "PRI_MIXER_0_8" (float (fl.decimal (pos 0) 0))
    ∷ entry "PRI_MIXER_1_8" (float (fl.decimal (pos 0) 0))
    ∷ entry "PRI_MIXER_2_8" (float (fl.decimal (pos 0) 0))
    ∷ entry "PRI_MIXER_3_8" (float (fl.decimal (pos 0) 0))
    ∷ entry "PRI_MIXER_4_8" (float (fl.decimal (pos 0) 0))
    ∷ entry "PRI_MIXER_5_8" (float (fl.decimal (pos 0) 0))
    ∷ entry "PRI_MIXER_6_8" (float (fl.decimal (pos 0) 0))
    ∷ entry "PRI_MIXER_7_8" (float (fl.decimal (pos 0) 0))
    ∷ entry "PRI_MIXER_8_8" (float (fl.decimal (pos 0) 0))
    ∷ []
