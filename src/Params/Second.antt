-- ===== src/Params/Second.antt =====
-- The entries 120 to 239 of the table in crates/veloxity_core/src/params.rs, in its order.
use veloxity.Base.{List, [], ◌∷◌}
use veloxity.Base.Int.{pos}
use veloxity.Float.{Float}
use veloxity.Params.{float, int}
use veloxity.Params.Definition.{Entry, entry}

unfoldable pub second_entries : {F : Type 0} ⦃fl : Float F⦄ → List (Entry F)
second_entries {F} ⦃fl⦄ =
    entry "PRI_MIXER_9_8" (float (fl.decimal (pos 0) 0))
    ∷ entry "PRI_MIXER_0_9" (float (fl.decimal (pos 0) 0))
    ∷ entry "PRI_MIXER_1_9" (float (fl.decimal (pos 0) 0))
    ∷ entry "PRI_MIXER_2_9" (float (fl.decimal (pos 0) 0))
    ∷ entry "PRI_MIXER_3_9" (float (fl.decimal (pos 0) 0))
    ∷ entry "PRI_MIXER_4_9" (float (fl.decimal (pos 0) 0))
    ∷ entry "PRI_MIXER_5_9" (float (fl.decimal (pos 0) 0))
    ∷ entry "PRI_MIXER_6_9" (float (fl.decimal (pos 0) 0))
    ∷ entry "PRI_MIXER_7_9" (float (fl.decimal (pos 0) 0))
    ∷ entry "PRI_MIXER_8_9" (float (fl.decimal (pos 0) 0))
    ∷ entry "PRI_MIXER_9_9" (float (fl.decimal (pos 0) 0))
    ∷ entry "SEC_MIXER_0_0" (float (fl.decimal (pos 0) 0))
    ∷ entry "SEC_MIXER_1_0" (float (fl.decimal (pos 0) 0))
    ∷ entry "SEC_MIXER_2_0" (float (fl.decimal (pos 0) 0))
    ∷ entry "SEC_MIXER_3_0" (float (fl.decimal (pos 0) 0))
    ∷ entry "SEC_MIXER_4_0" (float (fl.decimal (pos 0) 0))
    ∷ entry "SEC_MIXER_5_0" (float (fl.decimal (pos 0) 0))
    ∷ entry "SEC_MIXER_6_0" (float (fl.decimal (pos 0) 0))
    ∷ entry "SEC_MIXER_7_0" (float (fl.decimal (pos 0) 0))
    ∷ entry "SEC_MIXER_8_0" (float (fl.decimal (pos 0) 0))
    ∷ entry "SEC_MIXER_9_0" (float (fl.decimal (pos 0) 0))
    ∷ entry "SEC_MIXER_0_1" (float (fl.decimal (pos 0) 0))
    ∷ entry "SEC_MIXER_1_1" (float (fl.decimal (pos 0) 0))
    ∷ entry "SEC_MIXER_2_1" (float (fl.decimal (pos 0) 0))
    ∷ entry "SEC_MIXER_3_1" (float (fl.decimal (pos 0) 0))
    ∷ entry "SEC_MIXER_4_1" (float (fl.decimal (pos 0) 0))
    ∷ entry "SEC_MIXER_5_1" (float (fl.decimal (pos 0) 0))
    ∷ entry "SEC_MIXER_6_1" (float (fl.decimal (pos 0) 0))
    ∷ entry "SEC_MIXER_7_1" (float (fl.decimal (pos 0) 0))
    ∷ entry "SEC_MIXER_8_1" (float (fl.decimal (pos 0) 0))
    ∷ entry "SEC_MIXER_9_1" (float (fl.decimal (pos 0) 0))
    ∷ entry "SEC_MIXER_0_2" (float (fl.decimal (pos 0) 0))
    ∷ entry "SEC_MIXER_1_2" (float (fl.decimal (pos 0) 0))
    ∷ entry "SEC_MIXER_2_2" (float (fl.decimal (pos 0) 0))
    ∷ entry "SEC_MIXER_3_2" (float (fl.decimal (pos 0) 0))
    ∷ entry "SEC_MIXER_4_2" (float (fl.decimal (pos 0) 0))
    ∷ entry "SEC_MIXER_5_2" (float (fl.decimal (pos 0) 0))
    ∷ entry "SEC_MIXER_6_2" (float (fl.decimal (pos 0) 0))
    ∷ entry "SEC_MIXER_7_2" (float (fl.decimal (pos 0) 0))
    ∷ entry "SEC_MIXER_8_2" (float (fl.decimal (pos 0) 0))
    ∷ entry "SEC_MIXER_9_2" (float (fl.decimal (pos 0) 0))
    ∷ entry "SEC_MIXER_0_3" (float (fl.decimal (pos 0) 0))
    ∷ entry "SEC_MIXER_1_3" (float (fl.decimal (pos 0) 0))
    ∷ entry "SEC_MIXER_2_3" (float (fl.decimal (pos 0) 0))
    ∷ entry "SEC_MIXER_3_3" (float (fl.decimal (pos 0) 0))
    ∷ entry "SEC_MIXER_4_3" (float (fl.decimal (pos 0) 0))
    ∷ entry "SEC_MIXER_5_3" (float (fl.decimal (pos 0) 0))
    ∷ entry "SEC_MIXER_6_3" (float (fl.decimal (pos 0) 0))
    ∷ entry "SEC_MIXER_7_3" (float (fl.decimal (pos 0) 0))
    ∷ entry "SEC_MIXER_8_3" (float (fl.decimal (pos 0) 0))
    ∷ entry "SEC_MIXER_9_3" (float (fl.decimal (pos 0) 0))
    ∷ entry "SEC_MIXER_0_4" (float (fl.decimal (pos 0) 0))
    ∷ entry "SEC_MIXER_1_4" (float (fl.decimal (pos 0) 0))
    ∷ entry "SEC_MIXER_2_4" (float (fl.decimal (pos 0) 0))
    ∷ entry "SEC_MIXER_3_4" (float (fl.decimal (pos 0) 0))
    ∷ entry "SEC_MIXER_4_4" (float (fl.decimal (pos 0) 0))
    ∷ entry "SEC_MIXER_5_4" (float (fl.decimal (pos 0) 0))
    ∷ entry "SEC_MIXER_6_4" (float (fl.decimal (pos 0) 0))
    ∷ entry "SEC_MIXER_7_4" (float (fl.decimal (pos 0) 0))
    ∷ entry "SEC_MIXER_8_4" (float (fl.decimal (pos 0) 0))
    ∷ entry "SEC_MIXER_9_4" (float (fl.decimal (pos 0) 0))
    ∷ entry "SEC_MIXER_0_5" (float (fl.decimal (pos 0) 0))
    ∷ entry "SEC_MIXER_1_5" (float (fl.decimal (pos 0) 0))
    ∷ entry "SEC_MIXER_2_5" (float (fl.decimal (pos 0) 0))
    ∷ entry "SEC_MIXER_3_5" (float (fl.decimal (pos 0) 0))
    ∷ entry "SEC_MIXER_4_5" (float (fl.decimal (pos 0) 0))
    ∷ entry "SEC_MIXER_5_5" (float (fl.decimal (pos 0) 0))
    ∷ entry "SEC_MIXER_6_5" (float (fl.decimal (pos 0) 0))
    ∷ entry "SEC_MIXER_7_5" (float (fl.decimal (pos 0) 0))
    ∷ entry "SEC_MIXER_8_5" (float (fl.decimal (pos 0) 0))
    ∷ entry "SEC_MIXER_9_5" (float (fl.decimal (pos 0) 0))
    ∷ entry "SEC_MIXER_0_6" (float (fl.decimal (pos 0) 0))
    ∷ entry "SEC_MIXER_1_6" (float (fl.decimal (pos 0) 0))
    ∷ entry "SEC_MIXER_2_6" (float (fl.decimal (pos 0) 0))
    ∷ entry "SEC_MIXER_3_6" (float (fl.decimal (pos 0) 0))
    ∷ entry "SEC_MIXER_4_6" (float (fl.decimal (pos 0) 0))
    ∷ entry "SEC_MIXER_5_6" (float (fl.decimal (pos 0) 0))
    ∷ entry "SEC_MIXER_6_6" (float (fl.decimal (pos 0) 0))
    ∷ entry "SEC_MIXER_7_6" (float (fl.decimal (pos 0) 0))
    ∷ entry "SEC_MIXER_8_6" (float (fl.decimal (pos 0) 0))
    ∷ entry "SEC_MIXER_9_6" (float (fl.decimal (pos 0) 0))
    ∷ entry "SEC_MIXER_0_7" (float (fl.decimal (pos 0) 0))
    ∷ entry "SEC_MIXER_1_7" (float (fl.decimal (pos 0) 0))
    ∷ entry "SEC_MIXER_2_7" (float (fl.decimal (pos 0) 0))
    ∷ entry "SEC_MIXER_3_7" (float (fl.decimal (pos 0) 0))
    ∷ entry "SEC_MIXER_4_7" (float (fl.decimal (pos 0) 0))
    ∷ entry "SEC_MIXER_5_7" (float (fl.decimal (pos 0) 0))
    ∷ entry "SEC_MIXER_6_7" (float (fl.decimal (pos 0) 0))
    ∷ entry "SEC_MIXER_7_7" (float (fl.decimal (pos 0) 0))
    ∷ entry "SEC_MIXER_8_7" (float (fl.decimal (pos 0) 0))
    ∷ entry "SEC_MIXER_9_7" (float (fl.decimal (pos 0) 0))
    ∷ entry "SEC_MIXER_0_8" (float (fl.decimal (pos 0) 0))
    ∷ entry "SEC_MIXER_1_8" (float (fl.decimal (pos 0) 0))
    ∷ entry "SEC_MIXER_2_8" (float (fl.decimal (pos 0) 0))
    ∷ entry "SEC_MIXER_3_8" (float (fl.decimal (pos 0) 0))
    ∷ entry "SEC_MIXER_4_8" (float (fl.decimal (pos 0) 0))
    ∷ entry "SEC_MIXER_5_8" (float (fl.decimal (pos 0) 0))
    ∷ entry "SEC_MIXER_6_8" (float (fl.decimal (pos 0) 0))
    ∷ entry "SEC_MIXER_7_8" (float (fl.decimal (pos 0) 0))
    ∷ entry "SEC_MIXER_8_8" (float (fl.decimal (pos 0) 0))
    ∷ entry "SEC_MIXER_9_8" (float (fl.decimal (pos 0) 0))
    ∷ entry "SEC_MIXER_0_9" (float (fl.decimal (pos 0) 0))
    ∷ entry "SEC_MIXER_1_9" (float (fl.decimal (pos 0) 0))
    ∷ entry "SEC_MIXER_2_9" (float (fl.decimal (pos 0) 0))
    ∷ entry "SEC_MIXER_3_9" (float (fl.decimal (pos 0) 0))
    ∷ entry "SEC_MIXER_4_9" (float (fl.decimal (pos 0) 0))
    ∷ entry "SEC_MIXER_5_9" (float (fl.decimal (pos 0) 0))
    ∷ entry "SEC_MIXER_6_9" (float (fl.decimal (pos 0) 0))
    ∷ entry "SEC_MIXER_7_9" (float (fl.decimal (pos 0) 0))
    ∷ entry "SEC_MIXER_8_9" (float (fl.decimal (pos 0) 0))
    ∷ entry "SEC_MIXER_9_9" (float (fl.decimal (pos 0) 0))
    ∷ entry "SYS_ID" (int (pos 1))
    ∷ entry "PID_ROLL_RATE_P" (float (fl.decimal (pos 7) 2))
    ∷ entry "PID_ROLL_RATE_I" (float (fl.decimal (pos 0) 0))
    ∷ entry "PID_ROLL_RATE_D" (float (fl.decimal (pos 0) 0))
    ∷ entry "PID_PITCH_RATE_P" (float (fl.decimal (pos 7) 2))
    ∷ entry "PID_PITCH_RATE_I" (float (fl.decimal (pos 0) 0))
    ∷ entry "PID_PITCH_RATE_D" (float (fl.decimal (pos 0) 0))
    ∷ entry "PID_YAW_RATE_P" (float (fl.decimal (pos 25) 2))
    ∷ entry "PID_YAW_RATE_I" (float (fl.decimal (pos 0) 0))
    ∷ []
