-- ===== src/Params/Definition.antt =====
-- `ParamDefinition` and the names of crates/veloxity_core/src/params.rs, with `str_to_fixed_bytes` of
-- crates/veloxity_core/src/comm.rs. A name is the list of its bytes; all are ASCII.
use veloxity.Base.{
  ℕ, zero, suc, ◌-◌, Bool, true, false, ◌&&◌, List, [], ◌∷◌, ◌++◌, length, take, replicate, ltb,
  leb, ◌==◌, if◌then◌else◌,
}
use Prim.Native.Char.{code}
use Prim.Native.String.{String}
use veloxity.Params.{ParamId, ParamValue}

-- A row of the table: its position is the identifier.
pub data Entry (F : Type 0) : Type 0 where
  entry : String → ParamValue F → Entry F

pub record ParamDefinition (F : Type 0) : Type 0 where
  pub id : ParamId
  pub name : List ℕ
  pub default : ParamValue F

abbrev codes : String → List ℕ
codes String.[] = []
codes (String.◌∷◌ c s) = code c ∷ codes s

-- The `PARAM_DEFINITIONS` that the macro makes of the rows.
unfoldable pub define : {F : Type 0} → ℕ → List (Entry F) → List (ParamDefinition F)
define id [] = []
define id (entry name default ∷ rows) =
    record { id = id; name = codes name; default = default } ∷ define (suc id) rows

unfoldable pub same_bytes : List ℕ → List ℕ → Bool
same_bytes [] [] = true
same_bytes [] (b ∷ bs) = false
same_bytes (a ∷ left) [] = false
same_bytes (a ∷ left) (b ∷ bs) = a == b && same_bytes left bs

unfoldable pub str_to_fixed_bytes : List ℕ → List ℕ
str_to_fixed_bytes name = take 16 name ++ replicate (16 - length name) 0

-- The bytes before the first zero byte.
unfoldable pub until_zero : List ℕ → List ℕ
until_zero [] = []
until_zero (b ∷ bs) = if b == 0 then [] else b ∷ until_zero bs

-- What UTF-8 asks of the next byte: the start of a character, a number of continuation bytes, or one
-- in a smaller range before the rest.
pub data Utf8 : Type 0 where
  start bad : Utf8
  more : ℕ → Utf8
  within : ℕ → ℕ → ℕ → Utf8

abbrev first_byte : ℕ → Utf8
first_byte b =
    if ltb b 0x80
    then start
    else if ltb b 0xc2
    then bad
    else if ltb b 0xe0
    then more 0
    else if b == 0xe0
    then within 0xa0 0xbf 1
    else if b == 0xed
    then within 0x80 0x9f 1
    else if ltb b 0xf0
    then more 1
    else if b == 0xf0
    then within 0x90 0xbf 2
    else if ltb b 0xf4
    then more 2
    else if b == 0xf4
    then within 0x80 0x8f 2
    else bad

abbrev continued : ℕ → Utf8
continued zero = start
continued (suc n) = more n

unfoldable pub utf8_byte : Utf8 → ℕ → Utf8
utf8_byte start b = first_byte b
utf8_byte bad b = bad
utf8_byte (more n) b = if leb 0x80 b && ltb b 0xc0 then continued n else bad
utf8_byte (within lo hi n) b = if leb lo b && leb b hi then continued n else bad

abbrev ends_well : Utf8 → Bool
ends_well start = true
ends_well _ = false

unfoldable pub utf8_from : Utf8 → List ℕ → Bool
unfolding utf8_byte
utf8_from s [] = ends_well s
utf8_from s (b ∷ bs) = utf8_from (utf8_byte s b) bs

-- Whether `core::str::from_utf8` accepts the bytes.
unfoldable pub is_utf8 : List ℕ → Bool
unfolding utf8_from
is_utf8 bytes = utf8_from start bytes
