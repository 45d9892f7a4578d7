-- ===== src/Params/Restored.antt =====
-- The image that crates/veloxity_core/src/params/storage.rs encodes decodes to the parameters that it
-- was made from.
use veloxity.Base.{
  both_left, both_right, ◌^◌, ◌<◌, ◌≤◌, ◌≡◌, refl, ap, ◌∙◌, Bool, true, false, ◌&&◌, List, [], ◌∷◌,
  some, length, ltb, leb, arith,
}
use veloxity.Base.Int.{ℤ, pos, negsuc, as_u32}
use veloxity.Params.{ParamValue, Params, get_by_id, float, int, uint, bool}
use veloxity.Params.Definition.{ParamDefinition}
use veloxity.Params.Image.{as_i32, to_le_bytes, length-to_le_bytes, from_le_bytes-to_le_bytes_4}
use veloxity.Params.Storage.{Bits, encode_param_value, decode_param_value, rosflight_c_param_type}
use veloxity.Params.Entries.{Encodes, AllEncode}

abbrev pub in_i32 : ℤ → Bool
in_i32 (pos n) = ltb n (2 ^ 31)
in_i32 (negsuc n) = ltb n (2 ^ 31)

pub as_i32-as_u32 : (v : ℤ) → in_i32 v ≡ true → (as_u32 v < 2 ^ 32) × (as_i32 (as_u32 v) ≡ v)
unfolding as_i32
as_i32-as_u32 (pos n) h = (omega arith, ground arith)
as_i32-as_u32 (negsuc n) h = (omega arith, ground arith)

module _ {F : Type 0} (bits : Bits F) (is_f32 : F → Bool) (params : Params F) where
  -- The bits of an f32 are 32 and give it back.
  abbrev pub BitsRoundTrip : Type 0
  BitsRoundTrip =
      (v : F) → is_f32 v ≡ true → (bits.to_bits v < 2 ^ 32) × (bits.from_bits (bits.to_bits v) ≡ v)

  -- A value of the default's type, a Float or an Int, in the range of its type.
  abbrev pub fits_default : ParamValue F → ParamValue F → Bool
  fits_default (float v) (float d) = is_f32 v
  fits_default (int v) (int d) = in_i32 v
  fits_default _ _ = false

  unfoldable pub all_fit : List (ParamDefinition F) → Bool
  all_fit [] = true
  all_fit (d ∷ ds) = fits_default (get_by_id params d.id) d.default && all_fit ds

  unfoldable pub names_fit : List (ParamDefinition F) → Bool
  names_fit [] = true
  names_fit (d ∷ ds) = leb (length d.name) 16 && names_fit ds

  Encodes-fits_default :
      BitsRoundTrip
      → (d : ParamDefinition F) (value : ParamValue F) → get_by_id params d.id ≡ value
      → (default : ParamValue F) → d.default ≡ default
      → fits_default value default ≡ true
      → length d.name ≤ 16
      → Encodes bits params d
  Encodes-fits_default law d (float v) e (float x) e' h n =
      let (wide, back) = law v h in
      record {
        bytes = to_le_bytes 4 (bits.to_bits v);
        type = 1;
        encoded = unfold encode_param_value in rw (e, e') refl;
        sized = length-to_le_bytes 4 (bits.to_bits v);
        typed = unfold rosflight_c_param_type in rw e' refl;
        named = n;
        decoded =
            unfold decode_param_value in
            rw (e, e')
              (ap (λ w. some (float (bits.from_bits w)))
                  (from_le_bytes-to_le_bytes_4 (bits.to_bits v) wide)
                ∙ ap (λ w. some (float w)) back);
      }
  Encodes-fits_default law d (int v) e (int x) e' h n =
      let (wide, back) = as_i32-as_u32 v h in
      record {
        bytes = to_le_bytes 4 (as_u32 v);
        type = 0;
        encoded = unfold encode_param_value in rw (e, e') refl;
        sized = length-to_le_bytes 4 (as_u32 v);
        typed = unfold rosflight_c_param_type in rw e' refl;
        named = n;
        decoded =
            unfold decode_param_value in
            rw (e, e')
              (ap (λ w. some (int (as_i32 w))) (from_le_bytes-to_le_bytes_4 (as_u32 v) wide)
                ∙ ap (λ w. some (int w)) back);
      }
  Encodes-fits_default law d (float v) e (int x) e' h n = absurd (cc)
  Encodes-fits_default law d (float v) e (uint x) e' h n = absurd (cc)
  Encodes-fits_default law d (float v) e (bool x) e' h n = absurd (cc)
  Encodes-fits_default law d (int v) e (float x) e' h n = absurd (cc)
  Encodes-fits_default law d (int v) e (uint x) e' h n = absurd (cc)
  Encodes-fits_default law d (int v) e (bool x) e' h n = absurd (cc)
  Encodes-fits_default law d (uint v) e x e' h n = absurd (cc)
  Encodes-fits_default law d (bool v) e x e' h n = absurd (cc)

  pub AllEncode-all_fit :
      BitsRoundTrip
      → (ds : List (ParamDefinition F)) → all_fit ds ≡ true
      → names_fit ds ≡ true
      → AllEncode bits params ds
  unfolding all_fit names_fit
  AllEncode-all_fit law [] h n = tt
  AllEncode-all_fit law (d ∷ ds) h n = (
    Encodes-fits_default law d (get_by_id params d.id) refl d.default refl (both_left _ _ h)
        (ground (arith, n)),
    AllEncode-all_fit law ds (both_right _ _ h) (both_right _ _ n),
  )
