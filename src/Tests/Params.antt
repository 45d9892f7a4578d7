-- ===== src/Tests/Params.antt =====
-- The theorems on the parameter table and its storage at concrete inputs.
use veloxity.Base.{◌≡◌, refl, arith, some, [], ◌∷◌}
use veloxity.Base.Int.{ℤ, pos, as_u32}
use veloxity.Params.{Params, get_by_id, set_by_id, int}
use veloxity.Params.Image.{as_i32}
use veloxity.Params.Definition.{ParamDefinition, str_to_fixed_bytes}
use veloxity.Params.Table
use veloxity.Params.Table.{param_definitions, nth, param_id_from_name_bytes}
use veloxity.Params.Storage.{
  Bits, in_c_order, and_then, encode_rosflight_c_params, decode_rosflight_c_params,
}
use veloxity.Params.Names.{name_finds_id}
use veloxity.Params.Restored.{in_i32, as_i32-as_u32, all_fit}
use veloxity.Params.Persisted.{restored, decode-encode}
use veloxity.Tests.Data.{hundredths}

-- A fixed-point number as the bits of an i32.
abbrev hundredths_bits : Bits ℤ
hundredths_bits = record { to_bits = as_u32; from_bits = as_i32 }

abbrev defaults : Params ℤ
defaults = Table.new

decode-encode_example :
    and_then
      (decode_rosflight_c_params hundredths_bits 7)
      (encode_rosflight_c_params hundredths_bits 7 defaults)
    ≡ some (restored hundredths_bits 7 defaults)
unfolding all_fit in_c_order param_definitions get_by_id Table.new set_by_id
decode-encode_example =
    decode-encode hundredths_bits 7 in_i32 defaults (omega arith) as_i32-as_u32 refl

-- The row at 2, NUM_MOTORS.
abbrev motors_row : ParamDefinition ℤ
motors_row = record {
  id = 2;
  name = 78 ∷ 85 ∷ 77 ∷ 95 ∷ 77 ∷ 79 ∷ 84 ∷ 79 ∷ 82 ∷ 83 ∷ [];
  default = int (pos 4);
}

name_finds_id_example :
    param_id_from_name_bytes ℤ
      (78 ∷ 85 ∷ 77 ∷ 95 ∷ 77 ∷ 79 ∷ 84 ∷ 79 ∷ 82 ∷ 83 ∷ 0 ∷ 0 ∷ 0 ∷ 0 ∷ 0 ∷ 0 ∷ [])
    ≡ some 2
unfolding str_to_fixed_bytes nth param_definitions
name_finds_id_example = name_finds_id ℤ 2 motors_row refl
