-- ===== src/Mixer/Canned.antt =====
-- `canned_mixer` and `canned_secondary_mixer` of crates/veloxity_core/src/mixer/matrix.rs.
use veloxity.Base.{
  ℕ, ◌-◌, List, [], ◌∷◌, ◌++◌, map, Option, none, some, get_or, replicate, ◌==◌, if◌then◌else◌,
}
use veloxity.Base.Int.{ℤ, pos, eqb_ℤ}
use veloxity.Float.{Float, nought, unit}
use veloxity.Pwm.Driver.{MixerOutputType, aux, motor, servo, up_from}
use veloxity.Mixer.Tables.{
  Matrix, num_mixer_outputs, quad_x_mixer, esc_calibration_matrix, quad_plus_matrix,
  fixedwing_matrix, inverted_vtail_matrix, hex_plus_matrix, hex_x_matrix, octo_plus_matrix,
  octo_x_matrix, y6_matrix, x8_matrix,
}

-- What the third-party crate nalgebra is used for: the singular value decomposition into `u`, `v_t` and
-- the singular values, and the product of `v_t`'s transpose, a matrix and `u`'s transpose.
pub record Nalgebra (W : Type 0) : Type 0 where
  pub svd : Matrix W → Option (Matrix W) × Option (Matrix W) × List W
  pub product : Matrix W → Matrix W → Matrix W → Matrix W

pub record CannedMixerConfig (W : Type 0) : Type 0 where
  pub output_types : List MixerOutputType
  pub default_pwm_rates : List W
  pub matrix : Matrix W

abbrev pub custom_mixer : ℤ
custom_mixer = pos 11

-- The motors first, and the rest free.
abbrev pub motors : ℕ → List MixerOutputType
motors n = replicate n motor ++ replicate (num_mixer_outputs - n) aux

abbrev pub fixedwing_output_types : List MixerOutputType
fixedwing_output_types = servo ∷ servo ∷ servo ∷ aux ∷ motor ∷ replicate 5 aux

module _ {W : Type 0} ⦃fl : Float W⦄ where
  abbrev pub entry : Matrix W → ℕ → ℕ → W
  entry m row col = get_or (get_or m row []) col nought

  -- The matrix with these entries.
  abbrev pub of_entries : (ℕ → ℕ → W) → Matrix W
  of_entries f =
      map (λ row. map (λ col. f row col) (up_from 0 num_mixer_outputs))
        (up_from 0 num_mixer_outputs)

module _ {W : Type 0} ⦃fl : Float W⦄ (na : Nalgebra W) where
  abbrev inverse_value : W → W
  inverse_value v = if fl.eq v nought then nought else fl.div unit v

  abbrev sigma_inverse : List W → Matrix W
  sigma_inverse values =
      of_entries
        (λ row col. if row == col then inverse_value (get_or values row nought) else nought)

  abbrev pseudoinverse : Matrix W → Option (Matrix W) × Option (Matrix W) × List W → Matrix W
  pseudoinverse m (none, v_t, values) = m
  pseudoinverse m (some u, none, values) = m
  pseudoinverse m (some u, some v_t, values) =
      let pinv = na.product v_t (sigma_inverse values) u in
      of_entries (λ row col. entry pinv col row)

  unfoldable pub inverted_multirotor_mixer : Matrix W → Matrix W
  inverted_multirotor_mixer m = pseudoinverse m (na.svd m)

  abbrev sum_of_squares : List W → W → W
  sum_of_squares [] sum = sum
  sum_of_squares (v ∷ vs) sum = sum_of_squares vs (fl.add sum (fl.mul v v))

  abbrev norm_squared : Matrix W → W → W
  norm_squared [] sum = sum
  norm_squared (row ∷ rows) sum = norm_squared rows (sum_of_squares row sum)

  unfoldable pub rank_one_pseudoinverse_mixer : Matrix W → Matrix W
  rank_one_pseudoinverse_mixer m =
      let norm = norm_squared m nought in
      if fl.lt norm (fl.decimal (pos 1) 12)
      then m
      else of_entries (λ row col. fl.div (entry m row col) norm)

  abbrev rates : ℕ → List W
  rates fast = replicate fast (fl.decimal (pos 490) 0)

  abbrev slow : ℕ → List W
  slow n = replicate n (fl.decimal (pos 50) 0)

  abbrev config : List MixerOutputType → List W → Matrix W → Option (CannedMixerConfig W)
  config types default_rates m =
      some (record { output_types = types; default_pwm_rates = default_rates; matrix = m })

  unfoldable pub canned_mixer : ℤ → Option (CannedMixerConfig W)
  unfolding inverted_multirotor_mixer rank_one_pseudoinverse_mixer quad_x_mixer
      esc_calibration_matrix quad_plus_matrix fixedwing_matrix inverted_vtail_matrix hex_plus_matrix
      hex_x_matrix octo_plus_matrix octo_x_matrix y6_matrix x8_matrix
  canned_mixer choice =
      if eqb_ℤ choice (pos 0)
      then config (motors 10) (slow 10) (rank_one_pseudoinverse_mixer esc_calibration_matrix)
      else if eqb_ℤ choice (pos 1)
      then config (motors 4) (rates 4 ++ slow 6) (inverted_multirotor_mixer quad_plus_matrix)
      else if eqb_ℤ choice (pos 2)
      then config (motors 4) (rates 4 ++ slow 6) (inverted_multirotor_mixer quad_x_mixer)
      else if eqb_ℤ choice (pos 3)
      then config (motors 6) (rates 8 ++ slow 2) (inverted_multirotor_mixer hex_plus_matrix)
      else if eqb_ℤ choice (pos 4)
      then config (motors 6) (rates 8 ++ slow 2) (inverted_multirotor_mixer hex_x_matrix)
      else if eqb_ℤ choice (pos 5)
      then config (motors 8) (rates 8 ++ slow 2) (inverted_multirotor_mixer octo_plus_matrix)
      else if eqb_ℤ choice (pos 6)
      then config (motors 8) (rates 8 ++ slow 2) (inverted_multirotor_mixer octo_x_matrix)
      else if eqb_ℤ choice (pos 7)
      then config (motors 6) (rates 8 ++ slow 2) (inverted_multirotor_mixer y6_matrix)
      else if eqb_ℤ choice (pos 8)
      then config (motors 8) (rates 8 ++ slow 2) (inverted_multirotor_mixer x8_matrix)
      else if eqb_ℤ choice (pos 9)
      then config fixedwing_output_types (slow 10) fixedwing_matrix
      else if eqb_ℤ choice (pos 10)
      then config fixedwing_output_types (slow 10) inverted_vtail_matrix
      else none

  unfoldable pub raw_canned_mixer_matrix : ℤ → Option (Matrix W)
  raw_canned_mixer_matrix choice =
      if eqb_ℤ choice (pos 0)
      then some esc_calibration_matrix
      else if eqb_ℤ choice (pos 1)
      then some quad_plus_matrix
      else if eqb_ℤ choice (pos 2)
      then some quad_x_mixer
      else if eqb_ℤ choice (pos 3)
      then some hex_plus_matrix
      else if eqb_ℤ choice (pos 4)
      then some hex_x_matrix
      else if eqb_ℤ choice (pos 5)
      then some octo_plus_matrix
      else if eqb_ℤ choice (pos 6)
      then some octo_x_matrix
      else if eqb_ℤ choice (pos 7)
      then some y6_matrix
      else if eqb_ℤ choice (pos 8)
      then some x8_matrix
      else if eqb_ℤ choice (pos 9)
      then some fixedwing_matrix
      else if eqb_ℤ choice (pos 10)
      then some inverted_vtail_matrix
      else none

  abbrev with_raw : CannedMixerConfig W → ℤ → Option (Matrix W) → Option (CannedMixerConfig W)
  with_raw c choice none = if eqb_ℤ choice custom_mixer then some c else none
  with_raw c choice (some raw) =
      if eqb_ℤ choice custom_mixer
      then some c
      else some (record c { matrix = inverted_multirotor_mixer raw })

  abbrev secondary : ℤ → Option (CannedMixerConfig W) → Option (CannedMixerConfig W)
  secondary choice none = none
  secondary choice (some c) = with_raw c choice (raw_canned_mixer_matrix choice)

  unfoldable pub canned_secondary_mixer : ℤ → Option (CannedMixerConfig W)
  unfolding canned_mixer raw_canned_mixer_matrix
  canned_secondary_mixer choice = secondary choice (canned_mixer choice)
