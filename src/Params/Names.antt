-- ===== src/Params/Names.antt =====
-- Every row of the parameter table is found by its own name.
use veloxity.Base.{
  ℕ, zero, suc, ◌+◌, ◌≡◌, refl, ap, ◌∙◌, Bool, true, false, ◌&&◌, List, [], ◌∷◌, Option, none, some,
  ◌==◌, arith,
}
use veloxity.Float.{Float}
use veloxity.Params.Definition.{ParamDefinition, str_to_fixed_bytes}
use veloxity.Params.Table.{param_definitions, nth, param_id_from_name_bytes}

abbrev is_id : Option ℕ → ℕ → Bool
is_id none id = false
is_id (some i) id = i == id

is_id-eq : (o : Option ℕ) (id : ℕ) → is_id o id ≡ true → o ≡ some id
is_id-eq none id h = cc
is_id-eq (some i) id h = ground arith

module _ {F : Type 0} ⦃fl : Float F⦄ where
  finds_itself : ℕ → List (ParamDefinition F) → Bool
  finds_itself index [] = true
  finds_itself index (d ∷ ds) =
      is_id (param_id_from_name_bytes F (str_to_fixed_bytes d.name)) index
      && finds_itself (suc index) ds

module _ (F : Type 0) ⦃fl : Float F⦄ where
  all_found : finds_itself 0 (param_definitions {F = F}) ≡ true
  unfolding finds_itself param_definitions param_id_from_name_bytes
  all_found = refl

  finds_itself-nth :
      (ds : List (ParamDefinition F)) (start index : ℕ) (d : ParamDefinition F)
      → finds_itself start ds ≡ true
      → nth ds index ≡ some d
      → param_id_from_name_bytes F (str_to_fixed_bytes d.name) ≡ some (start + index)
  unfolding finds_itself nth
  finds_itself-nth [] start index d h e = cc
  finds_itself-nth (x ∷ xs) start zero d h e =
      ground (arith, h, e, is_id-eq (param_id_from_name_bytes F (str_to_fixed_bytes x.name)) start)
  finds_itself-nth (x ∷ xs) start (suc index) d h e =
      finds_itself-nth xs (suc start) index d (ground (arith, h)) e ∙ ap some (omega arith)

  -- The bytes of a row's name, padded with zero bytes as in a message, find the identifier that is the
  -- row's position in the table.
  pub name_finds_id :
      (index : ℕ) (d : ParamDefinition F)
      → nth param_definitions index ≡ some d
      → param_id_from_name_bytes F (str_to_fixed_bytes d.name) ≡ some index
  name_finds_id index d e =
      finds_itself-nth param_definitions 0 index d all_found e ∙ ap some (omega arith)
