-- ===== src/Mixer/Tables.antt =====
-- The mixing matrices of crates/veloxity_core/src/mixer/matrix.rs. `W` is the type f64. A row lists the
-- entries up to its last that is not 0.0, and a matrix its rows up to the last that has one.
use veloxity.Base.{ℕ, ◌-◌, List, [], ◌∷◌, ◌++◌, map, length, replicate}
use veloxity.Base.Int.{pos, negsuc}
use veloxity.Float.{Float, nought}

abbrev pub num_mixer_outputs : ℕ
num_mixer_outputs = 10

abbrev pub Matrix : Type 0 → Type 0
Matrix W = List (List W)

module _ {W : Type 0} ⦃fl : Float W⦄ where
  abbrev padded : List W → List W
  padded row = row ++ replicate (num_mixer_outputs - length row) nought

  abbrev matrix : List (List W) → Matrix W
  matrix rows =
      map padded rows
      ++ replicate (num_mixer_outputs - length rows) (replicate num_mixer_outputs nought)

  unfoldable pub quad_x_mixer : Matrix W
  quad_x_mixer = matrix (
      ([])
      ∷ ([])
      ∷ ((fl.decimal (negsuc 24) 2)
          ∷ (fl.decimal (negsuc 24) 2)
          ∷ (fl.decimal (negsuc 24) 2)
          ∷ (fl.decimal (negsuc 24) 2)
          ∷ [])
      ∷ ((fl.decimal (negsuc 7070) 4)
          ∷ (fl.decimal (negsuc 7070) 4)
          ∷ (fl.decimal (pos 7071) 4)
          ∷ (fl.decimal (pos 7071) 4)
          ∷ [])
      ∷ ((fl.decimal (pos 7071) 4)
          ∷ (fl.decimal (negsuc 7070) 4)
          ∷ (fl.decimal (negsuc 7070) 4)
          ∷ (fl.decimal (pos 7071) 4)
          ∷ [])
      ∷ ((fl.decimal (pos 1) 0)
          ∷ (fl.decimal (negsuc 0) 0)
          ∷ (fl.decimal (pos 1) 0)
          ∷ (fl.decimal (negsuc 0) 0)
          ∷ [])
      ∷ [])

  unfoldable pub esc_calibration_matrix : Matrix W
  esc_calibration_matrix = matrix (
      ([])
      ∷ ([])
      ∷ ((fl.decimal (pos 1) 1)
          ∷ (fl.decimal (pos 1) 1)
          ∷ (fl.decimal (pos 1) 1)
          ∷ (fl.decimal (pos 1) 1)
          ∷ (fl.decimal (pos 1) 1)
          ∷ (fl.decimal (pos 1) 1)
          ∷ (fl.decimal (pos 1) 1)
          ∷ (fl.decimal (pos 1) 1)
          ∷ (fl.decimal (pos 1) 1)
          ∷ (fl.decimal (pos 1) 1)
          ∷ [])
      ∷ [])

  unfoldable pub quad_plus_matrix : Matrix W
  quad_plus_matrix = matrix (
      ([])
      ∷ ([])
      ∷ ((fl.decimal (negsuc 24) 2)
          ∷ (fl.decimal (negsuc 24) 2)
          ∷ (fl.decimal (negsuc 24) 2)
          ∷ (fl.decimal (negsuc 24) 2)
          ∷ [])
      ∷ (nought ∷ (fl.decimal (negsuc 0) 0) ∷ nought ∷ (fl.decimal (pos 1) 0) ∷ [])
      ∷ ((fl.decimal (pos 1) 0) ∷ nought ∷ (fl.decimal (negsuc 0) 0) ∷ [])
      ∷ ((fl.decimal (pos 1) 0)
          ∷ (fl.decimal (negsuc 0) 0)
          ∷ (fl.decimal (pos 1) 0)
          ∷ (fl.decimal (negsuc 0) 0)
          ∷ [])
      ∷ [])

  unfoldable pub fixedwing_matrix : Matrix W
  fixedwing_matrix = matrix (
      (nought ∷ nought ∷ nought ∷ nought ∷ (fl.decimal (pos 1) 0) ∷ [])
      ∷ ([])
      ∷ ([])
      ∷ ((fl.decimal (pos 1) 0) ∷ [])
      ∷ (nought ∷ (fl.decimal (pos 1) 0) ∷ [])
      ∷ (nought ∷ nought ∷ (fl.decimal (pos 1) 0) ∷ [])
      ∷ [])

  unfoldable pub inverted_vtail_matrix : Matrix W
  inverted_vtail_matrix = matrix (
      (nought ∷ nought ∷ nought ∷ nought ∷ (fl.decimal (pos 1) 0) ∷ [])
      ∷ ([])
      ∷ ([])
      ∷ ((fl.decimal (pos 1) 0) ∷ [])
      ∷ (nought ∷ (fl.decimal (negsuc 4) 1) ∷ (fl.decimal (pos 5) 1) ∷ [])
      ∷ (nought ∷ (fl.decimal (pos 5) 1) ∷ (fl.decimal (pos 5) 1) ∷ [])
      ∷ [])

  unfoldable pub hex_plus_matrix : Matrix W
  hex_plus_matrix = matrix (
      ([])
      ∷ ([])
      ∷ ((fl.decimal (negsuc 1666) 4)
          ∷ (fl.decimal (negsuc 1666) 4)
          ∷ (fl.decimal (negsuc 1666) 4)
          ∷ (fl.decimal (negsuc 1666) 4)
          ∷ (fl.decimal (negsuc 1666) 4)
          ∷ (fl.decimal (negsuc 1666) 4)
          ∷ [])
      ∷ (nought
          ∷ (fl.decimal (negsuc 865) 3)
          ∷ (fl.decimal (negsuc 865) 3)
          ∷ nought
          ∷ (fl.decimal (pos 866) 3)
          ∷ (fl.decimal (pos 866) 3)
          ∷ [])
      ∷ ((fl.decimal (pos 1) 0)
          ∷ (fl.decimal (pos 5) 1)
          ∷ (fl.decimal (negsuc 4) 1)
          ∷ (fl.decimal (negsuc 0) 0)
          ∷ (fl.decimal (negsuc 4) 1)
          ∷ (fl.decimal (pos 5) 1)
          ∷ [])
      ∷ ((fl.decimal (pos 1) 0)
          ∷ (fl.decimal (negsuc 0) 0)
          ∷ (fl.decimal (pos 1) 0)
          ∷ (fl.decimal (negsuc 0) 0)
          ∷ (fl.decimal (pos 1) 0)
          ∷ (fl.decimal (negsuc 0) 0)
          ∷ [])
      ∷ [])

  unfoldable pub hex_x_matrix : Matrix W
  hex_x_matrix = matrix (
      ([])
      ∷ ([])
      ∷ ((fl.decimal (negsuc 1666) 4)
          ∷ (fl.decimal (negsuc 1666) 4)
          ∷ (fl.decimal (negsuc 1666) 4)
          ∷ (fl.decimal (negsuc 1666) 4)
          ∷ (fl.decimal (negsuc 1666) 4)
          ∷ (fl.decimal (negsuc 1666) 4)
          ∷ [])
      ∷ ((fl.decimal (negsuc 4) 1)
          ∷ (fl.decimal (negsuc 0) 0)
          ∷ (fl.decimal (negsuc 4) 1)
          ∷ (fl.decimal (pos 5) 1)
          ∷ (fl.decimal (pos 1) 0)
          ∷ (fl.decimal (pos 5) 1)
          ∷ [])
      ∷ ((fl.decimal (pos 866) 3)
          ∷ nought
          ∷ (fl.decimal (negsuc 865) 3)
          ∷ (fl.decimal (negsuc 865) 3)
          ∷ nought
          ∷ (fl.decimal (pos 866) 3)
          ∷ [])
      ∷ ((fl.decimal (pos 1) 0)
          ∷ (fl.decimal (negsuc 0) 0)
          ∷ (fl.decimal (pos 1) 0)
          ∷ (fl.decimal (negsuc 0) 0)
          ∷ (fl.decimal (pos 1) 0)
          ∷ (fl.decimal (negsuc 0) 0)
          ∷ [])
      ∷ [])

  unfoldable pub octo_plus_matrix : Matrix W
  octo_plus_matrix = matrix (
      ([])
      ∷ ([])
      ∷ ((fl.decimal (negsuc 124) 3)
          ∷ (fl.decimal (negsuc 124) 3)
          ∷ (fl.decimal (negsuc 124) 3)
          ∷ (fl.decimal (negsuc 124) 3)
          ∷ (fl.decimal (negsuc 124) 3)
          ∷ (fl.decimal (negsuc 124) 3)
          ∷ (fl.decimal (negsuc 124) 3)
          ∷ (fl.decimal (negsuc 124) 3)
          ∷ [])
      ∷ (nought
          ∷ (fl.decimal (negsuc 7070) 4)
          ∷ (fl.decimal (negsuc 0) 0)
          ∷ (fl.decimal (negsuc 7070) 4)
          ∷ nought
          ∷ (fl.decimal (pos 7071) 4)
          ∷ (fl.decimal (pos 1) 0)
          ∷ (fl.decimal (pos 7071) 4)
          ∷ [])
      ∷ ((fl.decimal (pos 1) 0)
          ∷ (fl.decimal (pos 7071) 4)
          ∷ nought
          ∷ (fl.decimal (negsuc 7070) 4)
          ∷ (fl.decimal (negsuc 0) 0)
          ∷ (fl.decimal (negsuc 7070) 4)
          ∷ nought
          ∷ (fl.decimal (pos 7071) 4)
          ∷ [])
      ∷ ((fl.decimal (pos 1) 0)
          ∷ (fl.decimal (negsuc 0) 0)
          ∷ (fl.decimal (pos 1) 0)
          ∷ (fl.decimal (negsuc 0) 0)
          ∷ (fl.decimal (pos 1) 0)
          ∷ (fl.decimal (negsuc 0) 0)
          ∷ (fl.decimal (pos 1) 0)
          ∷ (fl.decimal (negsuc 0) 0)
          ∷ [])
      ∷ [])

  unfoldable pub octo_x_matrix : Matrix W
  octo_x_matrix = matrix (
      ([])
      ∷ ([])
      ∷ ((fl.decimal (negsuc 124) 3)
          ∷ (fl.decimal (negsuc 124) 3)
          ∷ (fl.decimal (negsuc 124) 3)
          ∷ (fl.decimal (negsuc 124) 3)
          ∷ (fl.decimal (negsuc 124) 3)
          ∷ (fl.decimal (negsuc 124) 3)
          ∷ (fl.decimal (negsuc 124) 3)
          ∷ (fl.decimal (negsuc 124) 3)
          ∷ [])
      ∷ ((fl.decimal (negsuc 3826) 4)
          ∷ (fl.decimal (negsuc 9238) 4)
          ∷ (fl.decimal (negsuc 9238) 4)
          ∷ (fl.decimal (negsuc 3826) 4)
          ∷ (fl.decimal (pos 3827) 4)
          ∷ (fl.decimal (pos 9239) 4)
          ∷ (fl.decimal (pos 9239) 4)
          ∷ (fl.decimal (pos 3827) 4)
          ∷ [])
      ∷ ((fl.decimal (pos 9239) 4)
          ∷ (fl.decimal (pos 3827) 4)
          ∷ (fl.decimal (negsuc 3826) 4)
          ∷ (fl.decimal (negsuc 9238) 4)
          ∷ (fl.decimal (negsuc 9238) 4)
          ∷ (fl.decimal (negsuc 3826) 4)
          ∷ (fl.decimal (pos 3827) 4)
          ∷ (fl.decimal (pos 9239) 4)
          ∷ [])
      ∷ ((fl.decimal (pos 1) 0)
          ∷ (fl.decimal (negsuc 0) 0)
          ∷ (fl.decimal (pos 1) 0)
          ∷ (fl.decimal (negsuc 0) 0)
          ∷ (fl.decimal (pos 1) 0)
          ∷ (fl.decimal (negsuc 0) 0)
          ∷ (fl.decimal (pos 1) 0)
          ∷ (fl.decimal (negsuc 0) 0)
          ∷ [])
      ∷ [])

  unfoldable pub y6_matrix : Matrix W
  y6_matrix = matrix (
      ([])
      ∷ ([])
      ∷ ((fl.decimal (negsuc 1666) 4)
          ∷ (fl.decimal (negsuc 1666) 4)
          ∷ (fl.decimal (negsuc 1666) 4)
          ∷ (fl.decimal (negsuc 1666) 4)
          ∷ (fl.decimal (negsuc 1666) 4)
          ∷ (fl.decimal (negsuc 1666) 4)
          ∷ [])
      ∷ ((fl.decimal (negsuc 865) 3)
          ∷ (fl.decimal (negsuc 865) 3)
          ∷ nought
          ∷ nought
          ∷ (fl.decimal (pos 866) 3)
          ∷ (fl.decimal (pos 866) 3)
          ∷ [])
      ∷ ((fl.decimal (pos 5) 1)
          ∷ (fl.decimal (pos 5) 1)
          ∷ (fl.decimal (negsuc 0) 0)
          ∷ (fl.decimal (negsuc 0) 0)
          ∷ (fl.decimal (pos 5) 1)
          ∷ (fl.decimal (pos 5) 1)
          ∷ [])
      ∷ ((fl.decimal (pos 1) 0)
          ∷ (fl.decimal (negsuc 0) 0)
          ∷ (fl.decimal (pos 1) 0)
          ∷ (fl.decimal (negsuc 0) 0)
          ∷ (fl.decimal (pos 1) 0)
          ∷ (fl.decimal (negsuc 0) 0)
          ∷ [])
      ∷ [])

  unfoldable pub x8_matrix : Matrix W
  x8_matrix = matrix (
      ([])
      ∷ ([])
      ∷ ((fl.decimal (negsuc 124) 3)
          ∷ (fl.decimal (negsuc 124) 3)
          ∷ (fl.decimal (negsuc 124) 3)
          ∷ (fl.decimal (negsuc 124) 3)
          ∷ (fl.decimal (negsuc 124) 3)
          ∷ (fl.decimal (negsuc 124) 3)
          ∷ (fl.decimal (negsuc 124) 3)
          ∷ (fl.decimal (negsuc 124) 3)
          ∷ [])
      ∷ ((fl.decimal (negsuc 7070) 4)
          ∷ (fl.decimal (negsuc 7070) 4)
          ∷ (fl.decimal (negsuc 7070) 4)
          ∷ (fl.decimal (negsuc 7070) 4)
          ∷ (fl.decimal (pos 7071) 4)
          ∷ (fl.decimal (pos 7071) 4)
          ∷ (fl.decimal (pos 7071) 4)
          ∷ (fl.decimal (pos 7071) 4)
          ∷ [])
      ∷ ((fl.decimal (pos 7071) 4)
          ∷ (fl.decimal (pos 7071) 4)
          ∷ (fl.decimal (negsuc 7070) 4)
          ∷ (fl.decimal (negsuc 7070) 4)
          ∷ (fl.decimal (negsuc 7070) 4)
          ∷ (fl.decimal (negsuc 7070) 4)
          ∷ (fl.decimal (pos 7071) 4)
          ∷ (fl.decimal (pos 7071) 4)
          ∷ [])
      ∷ ((fl.decimal (pos 1) 0)
          ∷ (fl.decimal (negsuc 0) 0)
          ∷ (fl.decimal (pos 1) 0)
          ∷ (fl.decimal (negsuc 0) 0)
          ∷ (fl.decimal (pos 1) 0)
          ∷ (fl.decimal (negsuc 0) 0)
          ∷ (fl.decimal (pos 1) 0)
          ∷ (fl.decimal (negsuc 0) 0)
          ∷ [])
      ∷ [])
