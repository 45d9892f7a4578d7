-- ===== src/Mixer/Reflected.antt =====
-- `sync_reflected_mixer_params` of crates/veloxity_core/src/mixer/matrix.rs: the parameters that show the
-- chosen mixer. `to_f32` turns an f64 into an f32.
use veloxity.Base.{
  ℕ, zero, suc, ◌+◌, ◌*◌, ◌/◌, ◌%◌, not, ◌&&◌, Option, none, some, get_or, ◌==◌, if◌then◌else◌,
}
use veloxity.Base.Int.{ℤ, pos, ltb_ℤ}
use veloxity.Float.{Float, nought}
use veloxity.Params.{
  Params, ParamId, ParamValue, int, float, get_by_id, set_by_id, int_or, param_primary_mixer,
  param_secondary_mixer, param_primary_mixer_output_0, param_primary_mixer_pwm_rate_0,
  param_primary_mixer_0_0, param_secondary_mixer_0_0,
}
use veloxity.Params.Table.{from_index}
use veloxity.Pwm.Driver.{MixerOutputType, aux, motor, servo, gpio}
use veloxity.Mixer.Tables.{Matrix, num_mixer_outputs}
use veloxity.Mixer.Canned.{Nalgebra, CannedMixerConfig, entry, canned_mixer, canned_secondary_mixer}

unfoldable pub mixer_output_type_to_rosflight : MixerOutputType → ℤ
mixer_output_type_to_rosflight aux = pos 0
mixer_output_type_to_rosflight servo = pos 1
mixer_output_type_to_rosflight motor = pos 2
mixer_output_type_to_rosflight gpio = pos 3

abbrev pub num_mixers : ℤ
num_mixers = pos 12

module _ {F W : Type 0} ⦃fl : Float F⦄ ⦃fw : Float W⦄ (to_f32 : W → F) where
  abbrev pub stored_at : Params F → ParamValue F → Option ParamId → Params F
  stored_at params value none = params
  stored_at params value (some id) = set_by_id params id value

  -- The loop over `rounds` outputs from `output` on.
  unfoldable pub save_outputs : CannedMixerConfig W → ℕ → ℕ → Params F → Params F
  unfolding from_index mixer_output_type_to_rosflight
  save_outputs config zero output params = params
  save_outputs config (suc rounds) output params = save_outputs config rounds (suc output) (
      stored_at
        (stored_at params
          (int (mixer_output_type_to_rosflight (get_or config.output_types output aux)))
          (from_index F (param_primary_mixer_output_0 + output)))
        (float (to_f32 (get_or config.default_pwm_rates output nought)))
        (from_index F (param_primary_mixer_pwm_rate_0 + output)))

  abbrev pub kept_on : (Params F → Params F) → Params F → ParamValue F → Option ParamId → Params F
  kept_on rest params value none = params
  kept_on rest params value (some id) = rest (set_by_id params id value)

  -- The loops over `cells` cells, a column after the other, from `cell` on; they end at an index
  -- without a parameter.
  unfoldable pub save_cells : ParamId → Matrix W → ℕ → ℕ → Params F → Params F
  unfolding from_index
  save_cells first_matrix_id m zero cell params = params
  save_cells first_matrix_id m (suc cells) cell params =
      kept_on (save_cells first_matrix_id m cells (suc cell)) params
        (float (to_f32 (entry m (cell % num_mixer_outputs) (cell / num_mixer_outputs))))
        (from_index F (first_matrix_id + cell))

  abbrev pub save_mixer_matrix_params : ParamId → Matrix W → Params F → Params F
  save_mixer_matrix_params first_matrix_id m =
      save_cells first_matrix_id m (num_mixer_outputs * num_mixer_outputs) 0

  unfoldable pub save_primary_mixer_params : CannedMixerConfig W → Params F → Params F
  unfolding save_outputs save_cells
  save_primary_mixer_params config params =
      save_mixer_matrix_params param_primary_mixer_0_0 config.matrix
        (save_outputs config num_mixer_outputs 0 params)

  unfoldable pub save_secondary_mixer_params : Matrix W → Params F → Params F
  unfolding save_cells
  save_secondary_mixer_params = save_mixer_matrix_params param_secondary_mixer_0_0

module _ {F W : Type 0} ⦃fl : Float F⦄ ⦃fw : Float W⦄ (to_f32 : W → F) (na : Nalgebra W) where
  abbrev pub param_int : Params F → ParamId → ℤ
  param_int params id = int_or (get_by_id params id) (pos 0)

  abbrev pub primary_saved : Params F → Option (CannedMixerConfig W) → Params F
  primary_saved params none = params
  primary_saved params (some config) =
      let saved = save_primary_mixer_params to_f32 config params in
      let secondary_choice = param_int saved param_secondary_mixer in
      if not (ltb_ℤ secondary_choice (pos 0)) && ltb_ℤ secondary_choice num_mixers
      then saved
      else save_secondary_mixer_params to_f32 config.matrix saved

  abbrev pub secondary_saved : Params F → Option (CannedMixerConfig W) → Params F
  secondary_saved params none = params
  secondary_saved params (some config) = save_secondary_mixer_params to_f32 config.matrix params

  unfoldable pub sync_reflected_mixer_params : Params F → ParamId → Params F
  unfolding canned_mixer canned_secondary_mixer save_primary_mixer_params
      save_secondary_mixer_params
  sync_reflected_mixer_params params changed =
      if changed == param_primary_mixer
      then primary_saved params (canned_mixer na (param_int params param_primary_mixer))
      else if changed == param_secondary_mixer
      then secondary_saved params
          (canned_secondary_mixer na (param_int params param_secondary_mixer))
      else params
