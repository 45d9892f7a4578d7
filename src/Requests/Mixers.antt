-- ===== src/Requests/Mixers.antt =====
-- The mixer parameters that crates/veloxity_core/src/mixer/matrix.rs sets keep the types of the
-- parameters.
use veloxity.Base.{
  ℕ, zero, suc, ◌+◌, ◌<◌, ◌≡◌, refl, sym, ◌∙◌, subst, true, not, ◌&&◌, Option, none, some, ◌==◌,
  if_elim, arith,
}
use veloxity.Base.Int.{pos, ltb_ℤ}
use veloxity.Float.{Float, nought}
use veloxity.Params.{
  Params, ParamId, ParamValue, int, float, set_by_id, param_primary_mixer, param_secondary_mixer,
  param_primary_mixer_output_0, param_primary_mixer_pwm_rate_0, param_primary_mixer_0_0,
  param_secondary_mixer_0_0,
}
use veloxity.Params.Table.{from_index}
use veloxity.Mixer.Tables.{Matrix}
use veloxity.Mixer.Canned.{Nalgebra, CannedMixerConfig, canned_mixer, canned_secondary_mixer}
use veloxity.Mixer.Reflected.{
  num_mixers, stored_at, save_outputs, kept_on, save_cells, param_int, save_primary_mixer_params,
  save_secondary_mixer_params, primary_saved, secondary_saved, sync_reflected_mixer_params,
}
use veloxity.Requests.Stored.{
  is_typed, WellTyped, set_by_id-WellTyped, from_index-eq, rows_typed, rows_typed-row,
  outputs_typed, rates_typed, primary_typed, secondary_typed, is_typed-int, is_typed-float,
}

module _ {F W : Type 0} ⦃fl : Float F⦄ ⦃fw : Float W⦄ (to_f32 : W → F) where
  stored_at-WellTyped :
      (params : Params F) (value : ParamValue F) (i : ℕ) (o : Option ParamId)
      → from_index F i ≡ o
      → WellTyped params
      → is_typed i value ≡ true
      → WellTyped (stored_at to_f32 params value o)
  stored_at-WellTyped params value i none e typed fits = typed
  stored_at-WellTyped params value i (some id) e typed fits =
      set_by_id-WellTyped params id value typed
        (subst (λ j. is_typed j value ≡ true) (sym (from_index-eq F i id e)) fits)

  save_outputs-WellTyped :
      (config : CannedMixerConfig W) (rounds output : ℕ) (params : Params F)
      → output + rounds ≡ 10
      → WellTyped params
      → WellTyped (save_outputs to_f32 config rounds output params)
  unfolding save_outputs
  save_outputs-WellTyped config zero output params e typed = typed
  save_outputs-WellTyped config (suc rounds) output params e typed =
      let below : output < 10 = omega arith in
      save_outputs-WellTyped config rounds (suc output) _ (omega arith) (
        stored_at-WellTyped _ _ (param_primary_mixer_pwm_rate_0 + output) _ refl
          (stored_at-WellTyped params _ (param_primary_mixer_output_0 + output) _ refl typed (
            is_typed-int F (param_primary_mixer_output_0 + output) _ (pos 0)
            ∙ rows_typed-row F (int (pos 0)) param_primary_mixer_output_0 10 output
                (outputs_typed F) below))
          (is_typed-float F (param_primary_mixer_pwm_rate_0 + output) _ nought
            ∙ rows_typed-row F (float nought) param_primary_mixer_pwm_rate_0 10 output
                (rates_typed F) below))

  kept_on-WellTyped :
      (rest : Params F → Params F) (params : Params F) (value : ParamValue F) (i : ℕ)
      (o : Option ParamId)
      → ((p : Params F) → WellTyped p → WellTyped (rest p))
      → from_index F i ≡ o
      → WellTyped params
      → is_typed i value ≡ true
      → WellTyped (kept_on to_f32 rest params value o)
  kept_on-WellTyped rest params value i none keeps e typed fits = typed
  kept_on-WellTyped rest params value i (some id) keeps e typed fits =
      keeps (set_by_id params id value) (
        set_by_id-WellTyped params id value typed
          (subst (λ j. is_typed j value ≡ true) (sym (from_index-eq F i id e)) fits))

  save_cells-WellTyped :
      (first : ParamId) (m : Matrix W) (cells cell : ℕ) (params : Params F)
      → rows_typed F (float nought) first 100 ≡ true
      → cell + cells ≡ 100
      → WellTyped params
      → WellTyped (save_cells to_f32 first m cells cell params)
  unfolding save_cells
  save_cells-WellTyped first m zero cell params rows e typed = typed
  save_cells-WellTyped first m (suc cells) cell params rows e typed =
      kept_on-WellTyped (save_cells to_f32 first m cells (suc cell)) params _ (first + cell) _
        (λ p t. save_cells-WellTyped first m cells (suc cell) p rows (omega arith) t) refl typed
        (is_typed-float F (first + cell) _ nought
          ∙ rows_typed-row F (float nought) first 100 cell rows (omega arith))

  save_secondary-WellTyped :
      (m : Matrix W) (params : Params F)
      → WellTyped params
      → WellTyped (save_secondary_mixer_params to_f32 m params)
  unfolding save_secondary_mixer_params
  save_secondary-WellTyped m params typed =
      save_cells-WellTyped param_secondary_mixer_0_0 m 100 0 params (secondary_typed F) refl typed

  save_primary-WellTyped :
      (config : CannedMixerConfig W) (params : Params F)
      → WellTyped params
      → WellTyped (save_primary_mixer_params to_f32 config params)
  unfolding save_primary_mixer_params
  save_primary-WellTyped config params typed =
      save_cells-WellTyped param_primary_mixer_0_0 config.matrix 100 0 _ (primary_typed F) refl
        (save_outputs-WellTyped config 10 0 params refl typed)

module _ {F W : Type 0} ⦃fl : Float F⦄ ⦃fw : Float W⦄ (to_f32 : W → F) (na : Nalgebra W) where
  primary_saved-WellTyped :
      (params : Params F) (o : Option (CannedMixerConfig W))
      → WellTyped params
      → WellTyped (primary_saved to_f32 na params o)
  primary_saved-WellTyped params none typed = typed
  primary_saved-WellTyped params (some config) typed =
      let saved = save_primary_mixer_params to_f32 config params in
      let choice = param_int to_f32 na saved param_secondary_mixer in
      let kept = save_primary-WellTyped to_f32 config params typed in
      if_elim WellTyped (not (ltb_ℤ choice (pos 0)) && ltb_ℤ choice num_mixers) (λ valid. kept)
        (λ invalid. save_secondary-WellTyped to_f32 config.matrix saved kept)

  secondary_saved-WellTyped :
      (params : Params F) (o : Option (CannedMixerConfig W))
      → WellTyped params
      → WellTyped (secondary_saved to_f32 na params o)
  secondary_saved-WellTyped params none typed = typed
  secondary_saved-WellTyped params (some config) typed =
      save_secondary-WellTyped to_f32 config.matrix params typed

  pub sync-WellTyped :
      (params : Params F) (id : ParamId)
      → WellTyped params
      → WellTyped (sync_reflected_mixer_params to_f32 na params id)
  unfolding sync_reflected_mixer_params
  sync-WellTyped params id typed =
      if_elim WellTyped (id == param_primary_mixer)
        (λ primary.
          primary_saved-WellTyped params
            (canned_mixer na (param_int to_f32 na params param_primary_mixer)) typed)
        (λ other.
          if_elim WellTyped (id == param_secondary_mixer)
            (λ secondary.
              secondary_saved-WellTyped params
                (canned_secondary_mixer na (param_int to_f32 na params param_secondary_mixer))
                typed)
            (λ neither. typed))
