-- ===== src/Params/Persisted.antt =====
-- The image that crates/veloxity_core/src/params/storage.rs encodes decodes to the parameters that it
-- was made from.
use veloxity.Base.{
  both_true, ℕ, ◌^◌, ◌<◌, ◌≤◌, ◌≡◌, inl, refl, sym, ap, ◌∙◌, Bool, true, ◌&&◌, List, [], ◌∷◌, some,
  length, ltb, ◌==◌, if◌then◌else◌, arith,
}
use mathlib.Core.Path.{fun_ext}
use veloxity.Float.{Float}
use veloxity.Params.{ParamId, ParamValue, Params, get_by_id}
use veloxity.Params.Definition.{ParamDefinition}
use veloxity.Params.Table
use veloxity.Params.Table.{params_count, param_definitions}
use veloxity.Params.Image.{
  Image, put, put-other, slice, slice-put, slice-same, to_le_bytes, from_le_bytes, xor_bytes-same,
  from_le_bytes-to_le_bytes_4, from_le_bytes-to_le_bytes_2,
}
use veloxity.Params.Storage.{
  Bits, is_rosflight_c_param, in_c_order, c_param_count, and_then, header, finish, is_valid_header,
  rosflight_c_checksum, encode_in_order, decode_rosflight_c_params_in_order,
  encode_rosflight_c_params, decode_rosflight_c_params,
}
use veloxity.Params.Entries.{put-here, AllEncode}
use veloxity.Params.RoundTrip.{
  copy_values, write_definitions-AllStored, read_definitions-AllStored, get_by_id-copy_values,
  AllStored-same,
}
use veloxity.Params.Restored.{BitsRoundTrip, all_fit, AllEncode-all_fit}
use veloxity.Params.Order.{contains-c_ids, names-all_fit, count-in_c_order}

fresh-header : (version i : ℕ) → 8 ≤ i → header version i ≡ 0
unfolding header to_le_bytes put
fresh-header version i h = ground arith

equal : (a b : ℕ) → a ≡ b → (a == b) ≡ true
equal a b e = ground arith

valid_parts :
    (version : ℕ) (image : Image)
    → from_le_bytes (slice image 0 4) ≡ version
    → from_le_bytes (slice image 4 2) ≡ 7004
    → image 6 ≡ 0xbe
    → image 7001 ≡ 0xef
    → image 7002 ≡ rosflight_c_checksum image
    → is_valid_header version image ≡ true
unfolding is_valid_header
valid_parts version image a b c d e =
    both_true _ _
      (both_true _ _ (both_true _ _ (both_true _ _ (equal _ _ a) (equal _ _ b)) (equal _ _ c))
        (equal _ _ d))
      (equal _ _ e)

module _ {F : Type 0} ⦃fl : Float F⦄ (bits : Bits F) (version : ℕ) where
  finish-below : (image : Image) (i : ℕ) → i < 7001 → finish image i ≡ image i
  unfolding finish
  finish-below image i h =
      let marked = put image 7001 (0xef ∷ []) in
      put-other marked 7002 (rosflight_c_checksum marked ∷ []) i (ground (arith, h))
      ∙ put-other image 7001 (0xef ∷ []) i (ground (arith, h))

  finish-marked : (image : Image) → finish image 7001 ≡ 0xef
  unfolding finish
  finish-marked image =
      let marked = put image 7001 (0xef ∷ []) in
      put-other marked 7002 (rosflight_c_checksum marked ∷ []) 7001 refl ∙ put-here image 7001 0xef

  finish-checksum : (image : Image) → finish image 7002 ≡ rosflight_c_checksum (finish image)
  unfolding finish rosflight_c_checksum
  finish-checksum image =
      let marked = put image 7001 (0xef ∷ []) in
      put-here marked 7002 (rosflight_c_checksum marked)
      ∙ xor_bytes-same marked (finish image) 8 6993 0 (λ i low high.
        sym (put-other marked 7002 (rosflight_c_checksum marked ∷ []) i (ground (arith, high))))

  version-header : slice (header version) 0 4 ≡ to_le_bytes 4 version
  unfolding header to_le_bytes
  version-header =
      let first = put (λ i. 0) 0 (to_le_bytes 4 version) in
      let second = put first 4 (to_le_bytes 2 7004) in
      slice-same (header version) first 0 4 (λ i low high.
        put-other second 6 (0xbe ∷ []) i (ground (arith, high))
        ∙ put-other first 4 (to_le_bytes 2 7004) i (ground (arith, high)))
      ∙ slice-put (λ i. 0) 0 (to_le_bytes 4 version)

  size-header : slice (header version) 4 2 ≡ to_le_bytes 2 7004
  unfolding header to_le_bytes
  size-header =
      let first = put (λ i. 0) 0 (to_le_bytes 4 version) in
      let second = put first 4 (to_le_bytes 2 7004) in
      slice-same (header version) second 4 2
        (λ i low high. put-other second 6 (0xbe ∷ []) i (ground (arith, high)))
      ∙ slice-put first 4 (to_le_bytes 2 7004)

  magic-header : header version 6 ≡ 0xbe
  unfolding header
  magic-header =
      put-here (put (put (λ i. 0) 0 (to_le_bytes 4 version)) 4 (to_le_bytes 2 7004)) 6 0xbe

  header-valid :
      (image : Image)
      → version < 2 ^ 32
      → ((i : ℕ) → i < 8 → image i ≡ header version i)
      → is_valid_header version (finish image) ≡ true
  header-valid image wide same =
      let from_header : (i : ℕ) → i < 8 → finish image i ≡ header version i =
        λ i h. finish-below image i (omega (arith, h)) ∙ same i h in
      valid_parts version (finish image)
        (ap from_le_bytes (
            slice-same (finish image) (header version) 0 4
              (λ i low high. from_header i (omega (arith, high)))
            ∙ version-header)
          ∙ from_le_bytes-to_le_bytes_4 version wide)
        (ap from_le_bytes (
            slice-same (finish image) (header version) 4 2
              (λ i low high. from_header i (omega (arith, high)))
            ∙ size-header)
          ∙ from_le_bytes-to_le_bytes_2 7004 (omega arith))
        (from_header 6 (omega arith) ∙ magic-header) (finish-marked image) (finish-checksum image)

  -- What decoding an image gives back: the parameters that it holds, and the defaults of the others.
  abbrev pub restored : Params F → Params F
  restored params = record {
    values = λ id.
        if ltb id params_count && is_rosflight_c_param id
        then get_by_id params id
        else get_by_id Table.new id;
  }

  table-eq :
      (table : Params F) (values : ParamId → ParamValue F)
      → ((id : ParamId) → get_by_id table id ≡ values id)
      → table ≡ record { values = values }
  unfolding get_by_id
  table-eq table values h =
      ap (λ (vs : ParamId → ParamValue F). let p : Params F = record { values = vs } in p)
        (fun_ext h)

  copy_values-restored :
      (params : Params F)
      → copy_values bits params (in_c_order param_definitions) Table.new ≡ restored params
  copy_values-restored params =
      table-eq (copy_values bits params (in_c_order param_definitions) Table.new)
        (λ id.
          if ltb id params_count && is_rosflight_c_param id
          then get_by_id params id
          else get_by_id (Table.new {F = F}) id)
        (λ id.
          get_by_id-copy_values bits params (in_c_order param_definitions) Table.new id
          ∙ ap (λ b. if b then get_by_id params id else get_by_id (Table.new {F = F}) id)
              (contains-c_ids F id))

  decode_in_order-encode_in_order :
      (params : Params F) (ds : List (ParamDefinition F))
      → version < 2 ^ 32
      → AllEncode bits params ds
      → length ds ≡ c_param_count
      → (image : Image) × (encode_in_order bits version ds params ≡ some image)
        × (is_valid_header version image ≡ true)
        × (decode_rosflight_c_params_in_order bits version ds image
            ≡ some (copy_values bits params ds Table.new))
  unfolding encode_in_order decode_rosflight_c_params_in_order
  decode_in_order-encode_in_order params ds wide encodes full =
      let counted : (length ds == c_param_count) ≡ true = equal _ _ full in
      let (image, wrote, kept, stored) =
        write_definitions-AllStored bits params ds 0 (header version) encodes (omega (arith, full))
          (λ i low high. fresh-header version i (omega (arith, low))) in
      (
        finish image,
        rw (wrote, counted),
        header-valid image wide (λ i h. kept i (inl (omega (arith, h)))),
        rw (
          read_definitions-AllStored bits params ds 0 (finish image) Table.new (
              AllStored-same bits params (finish image) image 0 ds encodes (omega (arith, full))
                (finish-below image) stored),
          counted,
        ),
      )

  -- The parameters that ROSflight's image holds survive encoding and decoding, and the others come back
  -- as their defaults, where each value that is held has the type of its default and is in the range
  -- of an f32 or an i32, the bits of an f32 give it back, and the version is a u32.
  pub decode-encode :
      (is_f32 : F → Bool) (params : Params F)
      → version < 2 ^ 32
      → BitsRoundTrip bits is_f32 params
      → all_fit bits is_f32 params (in_c_order param_definitions) ≡ true
      → and_then
          (decode_rosflight_c_params bits version)
          (encode_rosflight_c_params bits version params)
        ≡ some (restored params)
  unfolding encode_rosflight_c_params decode_rosflight_c_params
  decode-encode is_f32 params wide law fit =
      let (image, encoded, valid, decoded) =
        decode_in_order-encode_in_order params (in_c_order param_definitions) wide
          (AllEncode-all_fit bits is_f32 params law (in_c_order param_definitions) fit
            (names-all_fit bits is_f32 params))
          (count-in_c_order F) in
      rw (encoded, valid, decoded) (ap some (copy_values-restored params))
