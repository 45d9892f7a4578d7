-- ===== src/Params.antt =====
-- The run-time parameter table of crates/veloxity_core/src/params.rs. The array has one entry for
-- each discriminant of the identifier enum, so a read or a write is never out of range, and the
-- array is a function of the identifier.
mod Ids
pub mod Definition
pub mod First
pub mod Second
pub mod Third
pub mod Table
pub mod Names
pub mod Image
pub mod Storage
pub mod Entries
pub mod RoundTrip
pub mod Restored
pub mod Order
pub mod Persisted
pub use Ids.*
use veloxity.Base.{ℕ, ◌≡◌, Bool, false, not, ◌==◌, if◌then◌else◌, arith}
use veloxity.Base.Int.{ℤ, pos, eqb_ℤ}

pub data ParamValue (F : Type 0) : Type 0 where
  float : F → ParamValue F
  int : ℤ → ParamValue F
  uint : ℕ → ParamValue F
  bool : Bool → ParamValue F

pub record Params (F : Type 0) : Type 0 where
  pub values : ParamId → ParamValue F

module _ {F : Type 0} where
  unfoldable pub get_by_id : Params F → ParamId → ParamValue F
  get_by_id params id = params.values id

  unfoldable pub set_by_id : Params F → ParamId → ParamValue F → Params F
  set_by_id params id value = record params {
    values = λ other. if other == id then value else params.values other;
  }

  pub get_by_id-set_self :
      (params : Params F) (id : ParamId) (value : ParamValue F)
      → get_by_id (set_by_id params id value) id ≡ value
  unfolding get_by_id set_by_id
  get_by_id-set_self params id value = ground arith

  pub get_by_id-set_ne :
      (params : Params F) (id other : ParamId) (value : ParamValue F)
      → (id == other) ≡ false
      → get_by_id (set_by_id params id value) other ≡ get_by_id params other
  unfolding get_by_id set_by_id
  get_by_id-set_ne params id other value h = ground arith

  -- `matches!(value, ParamValue::Int(v) if v != 0)`
  abbrev pub is_nonzero_int : ParamValue F → Bool
  is_nonzero_int (int v) = not (eqb_ℤ v (pos 0))
  is_nonzero_int _ = false

  -- `match value { ParamValue::Int(v) => v, _ => default }`
  abbrev pub int_or : ParamValue F → ℤ → ℤ
  int_or (int v) default = v
  int_or _ default = default

  -- `match value { ParamValue::Float(v) => v, _ => default }`
  abbrev pub float_or : ParamValue F → F → F
  float_or (float v) default = v
  float_or _ default = default
