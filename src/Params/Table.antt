-- ===== src/Params/Table.antt =====
-- The parameter table of crates/veloxity_core/src/params.rs as the macro makes it, and the lookups by
-- name of params.rs and params/service.rs.
use veloxity.Base.{
  ℕ, zero, suc, Bool, true, false, ◌||◌, List, [], ◌∷◌, ◌++◌, Option, none, some, if◌then◌else◌,
}
use veloxity.Base.Int.{pos}
use veloxity.Float.{Float}
use veloxity.Params.{Params, ParamId, ParamValue, int, get_by_id, set_by_id}
use veloxity.Params.Definition.{
  ParamDefinition, define, same_bytes, str_to_fixed_bytes, until_zero, is_utf8,
}
use veloxity.Params.First.{first_entries}
use veloxity.Params.Second.{second_entries}
use veloxity.Params.Third.{third_entries}

abbrev pub params_count : ℕ
params_count = 349

module _ {F : Type 0} where
  -- `iter().find(..)`
  unfoldable pub find :
      (ParamDefinition F → Bool) → List (ParamDefinition F) → Option (ParamDefinition F)
  find test [] = none
  find test (d ∷ ds) = if test d then some d else find test ds

  unfoldable pub nth : List (ParamDefinition F) → ℕ → Option (ParamDefinition F)
  nth [] i = none
  nth (d ∷ ds) zero = some d
  nth (d ∷ ds) (suc i) = nth ds i

  abbrev pub id_of : Option (ParamDefinition F) → Option ParamId
  id_of none = none
  id_of (some d) = some d.id

  unfoldable pub store_defaults : List (ParamDefinition F) → Params F → Params F
  store_defaults [] params = params
  store_defaults (d ∷ ds) params = store_defaults ds (set_by_id params d.id d.default)

module _ {F : Type 0} ⦃fl : Float F⦄ where
  unfoldable pub param_definitions : List (ParamDefinition F)
  unfolding define first_entries second_entries third_entries
  param_definitions = define 0 (first_entries ++ second_entries ++ third_entries)

  unfoldable pub set_defaults : Params F → Params F
  unfolding param_definitions store_defaults
  set_defaults params = store_defaults param_definitions params

  unfoldable pub new : Params F
  unfolding set_defaults
  new = set_defaults (record { values = λ id. int (pos 0) })

  abbrev named : List ℕ → ParamDefinition F → Bool
  named name d = same_bytes d.name name

  abbrev value_of : Params F → Option (ParamDefinition F) → Option (ParamValue F)
  value_of params none = none
  value_of params (some d) = some (get_by_id params d.id)

  unfoldable pub get_by_name : Params F → List ℕ → Option (ParamValue F)
  unfolding param_definitions find same_bytes
  get_by_name params name = value_of params (find (named name) param_definitions)

  abbrev stored : Params F → ParamValue F → Option (ParamDefinition F) → Params F × Bool
  stored params value none = (params, false)
  stored params value (some d) = (set_by_id params d.id value, true)

  unfoldable pub set_by_name : Params F → List ℕ → ParamValue F → Params F × Bool
  unfolding param_definitions find same_bytes
  set_by_name params name value = stored params value (find (named name) param_definitions)

  unfoldable pub named_by : List ℕ → ParamDefinition F → Bool
  unfolding same_bytes str_to_fixed_bytes until_zero
  named_by bytes d =
      same_bytes d.name (until_zero bytes) || same_bytes (str_to_fixed_bytes d.name) bytes

module _ (F : Type 0) ⦃fl : Float F⦄ where
  unfoldable pub from_index : ℕ → Option ParamId
  unfolding param_definitions nth
  from_index index = id_of (nth (param_definitions {F = F}) index)

  unfoldable pub param_id_from_name_bytes : List ℕ → Option ParamId
  unfolding param_definitions find named_by is_utf8
  param_id_from_name_bytes bytes =
      if is_utf8 (until_zero bytes)
      then id_of (find (named_by bytes) (param_definitions {F = F}))
      else none
