-- ===== src/Params/Storage.antt =====
-- The parameter image codec: crates/veloxity_core/src/params/storage.rs. `Bits` is what the code does
-- with the bits of an f32, and the version is made by the build.
use veloxity.Base.{
  ℕ, suc, ◌+◌, ◌-◌, ◌*◌, Bool, false, not, ◌&&◌, ◌||◌, List, [], ◌∷◌, ◌++◌, Option, none, some,
  length, ltb, ◌==◌, if◌then◌else◌,
}
use veloxity.Base.Int.{as_u32}
use veloxity.Float.{Float}
use veloxity.Params.{
  ParamId, ParamValue, Params, get_by_id, set_by_id, float, int, param_channel_output_mask,
  param_allow_unhealthy_estimator, param_est_angle_lockout, param_rc_output_kill_channel,
  param_telem_heartbeat_hz, param_telem_status_hz, param_telem_imu_hz, param_telem_attitude_hz,
  param_telem_output_raw_hz, param_telem_diff_pressure_hz, param_telem_baro_hz, param_telem_mag_hz,
  param_telem_range_hz, param_telem_battery_hz, param_telem_gnss_hz, param_telem_rc_hz,
  param_offboard_timeout, param_battery_voltage_multiplier, param_battery_current_multiplier,
  param_battery_voltage_alpha, param_battery_current_alpha,
}
use veloxity.Params.Definition.{ParamDefinition, same_bytes}
use veloxity.Params.Table.{param_definitions, nth}
use veloxity.Params.Table
use veloxity.Params.Image.{Image, put, slice, to_le_bytes, from_le_bytes, as_i32, xor_bytes}

pub record Bits (F : Type 0) : Type 0 where
  pub to_bits : F → ℕ
  pub from_bits : ℕ → F

abbrev pub storage_size : ℕ
storage_size = 7004

abbrev pub c_param_count : ℕ
c_param_count = 333

abbrev pub values_offset : ℕ
values_offset = 8

abbrev pub names_offset : ℕ
names_offset = 1340

abbrev pub types_offset : ℕ
types_offset = 6668

abbrev pub magic_ef_offset : ℕ
magic_ef_offset = 7001

abbrev pub checksum_offset : ℕ
checksum_offset = 7002

unfoldable pub contains : List ParamId → ParamId → Bool
contains [] id = false
contains (i ∷ ids) id = i == id || contains ids id

abbrev pub rust_only : List ParamId
rust_only =
    param_channel_output_mask ∷ param_allow_unhealthy_estimator ∷ param_est_angle_lockout
    ∷ param_rc_output_kill_channel ∷ param_telem_heartbeat_hz ∷ param_telem_status_hz
    ∷ param_telem_imu_hz ∷ param_telem_attitude_hz ∷ param_telem_output_raw_hz
    ∷ param_telem_diff_pressure_hz ∷ param_telem_baro_hz ∷ param_telem_mag_hz ∷ param_telem_range_hz
    ∷ param_telem_battery_hz ∷ param_telem_gnss_hz ∷ param_telem_rc_hz ∷ []

unfoldable pub is_rosflight_c_param : ParamId → Bool
unfolding contains
is_rosflight_c_param id = not (contains rust_only id)

abbrev pub tail_order : List ParamId
tail_order =
    param_offboard_timeout ∷ param_battery_voltage_multiplier ∷ param_battery_current_multiplier
    ∷ param_battery_voltage_alpha ∷ param_battery_current_alpha ∷ []

unfoldable pub is_rosflight_c_tail_param : ParamId → Bool
unfolding contains
is_rosflight_c_tail_param id = contains tail_order id

module _ {F : Type 0} where
  -- A Uint or a Bool has no type.
  unfoldable pub rosflight_c_param_type : ParamValue F → Option ℕ
  rosflight_c_param_type (int v) = some 0
  rosflight_c_param_type (float v) = some 1
  rosflight_c_param_type _ = none

  unfoldable pub filter :
      (ParamDefinition F → Bool) → List (ParamDefinition F) → List (ParamDefinition F)
  filter test [] = []
  filter test (d ∷ ds) = let rest = filter test ds in if test d then d ∷ rest else rest

  abbrev pub prepend :
      Option (ParamDefinition F) → List (ParamDefinition F) → List (ParamDefinition F)
  prepend none ds = ds
  prepend (some d) ds = d ∷ ds

  -- `PARAM_DEFINITIONS[*id as usize]` for each identifier, all of which are in the table.
  unfoldable pub pick : List (ParamDefinition F) → List ParamId → List (ParamDefinition F)
  unfolding nth
  pick ds [] = []
  pick ds (id ∷ ids) = prepend (nth ds id) (pick ds ids)

  unfoldable pub in_c_order : List (ParamDefinition F) → List (ParamDefinition F)
  unfolding filter pick is_rosflight_c_param is_rosflight_c_tail_param
  in_c_order ds =
      filter (λ d. is_rosflight_c_param d.id && not (is_rosflight_c_tail_param d.id)) ds
      ++ pick ds tail_order

unfoldable pub rosflight_c_checksum : Image → ℕ
unfolding xor_bytes
rosflight_c_checksum image = xor_bytes image values_offset (magic_ef_offset - values_offset) 0

abbrev pub value_at : ℕ → ℕ
value_at index = values_offset + index * 4

abbrev pub name_at : ℕ → ℕ
name_at index = names_offset + index * 16

abbrev pub type_at : ℕ → ℕ
type_at index = types_offset + index

abbrev pub write_parts : ℕ → List ℕ → Option (List ℕ) → Option ℕ → Image → Option Image
write_parts index name none type image = none
write_parts index name (some value) none image = none
write_parts index name (some value) (some type) image =
    if ltb 16 (length name)
    then none
    else some (
        put (put (put image (value_at index) value) (name_at index) name) (type_at index)
          (type ∷ []))

abbrev pub and_then : {A B : Type 0} → (A → Option B) → Option A → Option B
and_then next none = none
and_then next (some a) = next a

abbrev pub name_stored : Image → ℕ → List ℕ → Bool
name_stored image index name =
    same_bytes (slice image (name_at index) (length name)) name
    && (not (ltb (length name) 16) || image (name_at index + length name) == 0)

abbrev pub same_type : ℕ → Option ℕ → Bool
same_type stored none = false
same_type stored (some type) = stored == type

unfoldable pub header : ℕ → Image
unfolding put to_le_bytes
header version =
    put (put (put (λ i. 0) 0 (to_le_bytes 4 version)) 4 (to_le_bytes 2 storage_size)) 6 (0xbe ∷ [])

unfoldable pub finish : Image → Image
unfolding put rosflight_c_checksum
finish image =
    let marked = put image magic_ef_offset (0xef ∷ []) in
    put marked checksum_offset (rosflight_c_checksum marked ∷ [])

unfoldable pub is_valid_header : ℕ → Image → Bool
unfolding slice from_le_bytes rosflight_c_checksum
is_valid_header version image =
    from_le_bytes (slice image 0 4) == version
    && from_le_bytes (slice image 4 2) == storage_size
    && image 6 == 0xbe
    && image magic_ef_offset == 0xef
    && image checksum_offset == rosflight_c_checksum image

module _ {F : Type 0} (bits : Bits F) where
  unfoldable pub encode_param_value : ParamValue F → ParamValue F → Option (List ℕ)
  unfolding to_le_bytes
  encode_param_value (float v) (float d) = some (to_le_bytes 4 (bits.to_bits v))
  encode_param_value (int v) (int d) = some (to_le_bytes 4 (as_u32 v))
  encode_param_value _ _ = none

  unfoldable pub decode_param_value : List ℕ → ParamValue F → Option (ParamValue F)
  unfolding from_le_bytes as_i32
  decode_param_value bytes (float d) = some (float (bits.from_bits (from_le_bytes bytes)))
  decode_param_value bytes (int d) = some (int (as_i32 (from_le_bytes bytes)))
  decode_param_value bytes _ = none

  -- One turn of the encoder's loop. `none` stands for `return false`, when the array is of no use.
  unfoldable pub write_definition : Params F → ℕ → ParamDefinition F → Image → Option Image
  unfolding encode_param_value rosflight_c_param_type put
  write_definition params index d image =
      write_parts index d.name (encode_param_value (get_by_id params d.id) d.default)
        (rosflight_c_param_type d.default) image

  unfoldable pub write_definitions : Params F → ℕ → List (ParamDefinition F) → Image → Option Image
  unfolding write_definition
  write_definitions params index [] image = some image
  write_definitions params index (d ∷ ds) image =
      and_then (write_definitions params (suc index) ds) (write_definition params index d image)

  -- One turn of the decoder's loop; a name is at most 16 bytes long, so no slice is out of range.
  unfoldable pub read_definition : Image → ℕ → ParamDefinition F → Option (ParamValue F)
  unfolding same_bytes slice rosflight_c_param_type decode_param_value
  read_definition image index d =
      if not (name_stored image index d.name)
      then none
      else if not (same_type (image (type_at index)) (rosflight_c_param_type d.default))
      then none
      else decode_param_value (slice image (value_at index) 4) d.default

  unfoldable pub read_definitions :
      Image → ℕ → List (ParamDefinition F) → Params F → Option (Params F)
  unfolding read_definition
  read_definitions image index [] params = some params
  read_definitions image index (d ∷ ds) params =
      and_then (λ value. read_definitions image (suc index) ds (set_by_id params d.id value))
        (read_definition image index d)

  module _ ⦃fl : Float F⦄ (version : ℕ) where
    -- The encoder over given definitions.
    unfoldable pub encode_in_order : List (ParamDefinition F) → Params F → Option Image
    encode_in_order ds params =
        and_then (λ image. if length ds == c_param_count then some (finish image) else none)
          (write_definitions params 0 ds (header version))

    unfoldable pub encode_rosflight_c_params : Params F → Option Image
    encode_rosflight_c_params = encode_in_order (in_c_order param_definitions)

    unfoldable pub decode_rosflight_c_params_in_order :
        List (ParamDefinition F) → Image → Option (Params F)
    decode_rosflight_c_params_in_order ds image =
        and_then (λ params. if length ds == c_param_count then some params else none)
          (read_definitions image 0 ds Table.new)

    unfoldable pub decode_rosflight_c_params : Image → Option (Params F)
    decode_rosflight_c_params image =
        if not (is_valid_header version image)
        then none
        else decode_rosflight_c_params_in_order (in_c_order param_definitions) image
