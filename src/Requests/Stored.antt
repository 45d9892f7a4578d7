-- ===== src/Requests/Stored.antt =====
-- What the set requests of crates/veloxity_core/src/params/service.rs keep: each parameter has a value
-- of its default's type.
use veloxity.Base.{
  ℕ, zero, suc, ◌+◌, ◌<◌, ◌≡◌, refl, sym, ap, ◌∙◌, subst, Bool, true, Bool-cases, inl, inr, ◌&&◌,
  both_left, both_right, List, [], ◌∷◌, ◌++◌, Option, none, some, Option-cases, ◌==◌, arith,
}
use veloxity.Base.Int.{ℤ, pos}
use veloxity.Float.{Float, nought}
use veloxity.Params.{
  Params, ParamId, ParamValue, int, float, uint, bool, get_by_id, set_by_id,
  param_primary_mixer_output_0, param_primary_mixer_pwm_rate_0, param_primary_mixer_0_0,
  param_secondary_mixer_0_0,
}
use veloxity.Params.Definition.{Entry, entry, ParamDefinition, define}
use veloxity.Params.Table.{param_definitions, nth, from_index, id_of}
use veloxity.Params.First.{first_entries}
use veloxity.Params.Second.{second_entries}
use veloxity.Params.Third.{third_entries}
use veloxity.Requests.Set.{same_param_type}

abbrev id_or : {F : Type 0} → Option (ParamDefinition F) → ℕ → ℕ
id_or none i = i
id_or (some d) i = d.id

abbrev value_or : Option ℕ → ℕ → ℕ
value_or none i = i
value_or (some n) i = n

-- The rows have their positions as identifiers.
id-define :
    {F : Type 0} (rows : List (Entry F)) (start i : ℕ) (d : ParamDefinition F)
    → nth (define start rows) i ≡ some d
    → d.id ≡ start + i
unfolding define nth
id-define [] start i d e = absurd cc
id-define (entry name default ∷ rows) start zero d e = sym (ap (λ o. id_or o 0) e) ∙ omega arith
id-define (entry name default ∷ rows) start (suc i) d e =
    id-define rows (suc start) i d e ∙ omega arith

-- The type does not depend on the value.
int_type :
    {F : Type 0} (default : ParamValue F) (v w : ℤ)
    → same_param_type default (int v) ≡ same_param_type default (int w)
unfolding same_param_type
int_type (float a) v w = refl
int_type (int a) v w = refl
int_type (uint a) v w = refl
int_type (bool a) v w = refl

float_type :
    {F : Type 0} (default : ParamValue F) (v w : F)
    → same_param_type default (float v) ≡ same_param_type default (float w)
unfolding same_param_type
float_type (float a) v w = refl
float_type (int a) v w = refl
float_type (uint a) v w = refl
float_type (bool a) v w = refl

module _ {F : Type 0} ⦃fl : Float F⦄ where
  pub id_of_row : (i : ℕ) (d : ParamDefinition F) → nth param_definitions i ≡ some d → d.id ≡ i
  unfolding param_definitions
  id_of_row i d e =
      id-define (first_entries ++ second_entries ++ third_entries) 0 i d e ∙ omega arith

  abbrev pub typed_row : Option (ParamDefinition F) → ParamValue F → Bool
  typed_row none value = true
  typed_row (some d) value = same_param_type d.default value

  -- Whether a value has the type of the row at a position.
  unfoldable pub is_typed : ParamId → ParamValue F → Bool
  unfolding same_param_type nth param_definitions
  is_typed id value = typed_row (nth param_definitions id) value

  -- Every parameter has a value of its default's type.
  unfoldable pub WellTyped : Params F → Type 0
  WellTyped params = (id : ParamId) → is_typed id (get_by_id params id) ≡ true

  pub set_by_id-WellTyped :
      (params : Params F) (id : ParamId) (value : ParamValue F)
      → WellTyped params
      → is_typed id value ≡ true
      → WellTyped (set_by_id params id value)
  unfolding WellTyped set_by_id get_by_id
  set_by_id-WellTyped params id value typed fits other = elim (Bool-cases (other == id)) [
    | inl here ↦
        let e : other ≡ id = ground (arith, here) in
        rw here (subst (λ i. is_typed i value ≡ true) (sym e) fits)
    | inr there ↦ rw there (typed other)
  ]

module _ (F : Type 0) ⦃fl : Float F⦄ where
  pub from_index-eq : (i : ℕ) (id : ParamId) → from_index F i ≡ some id → id ≡ i
  unfolding from_index
  from_index-eq i id e = elim (Option-cases (nth (param_definitions {F = F}) i)) [
    | inl gone ↦ absurd (cc (e, ap id_of gone))
    | inr (d, row) ↦ sym (ap (λ o. value_or o 0) (sym (ap id_of row) ∙ e)) ∙ id_of_row i d row
  ]

  -- A number of consecutive rows hold values of the type of a value.
  unfoldable pub rows_typed : ParamValue F → ℕ → ℕ → Bool
  rows_typed value first zero = true
  rows_typed value first (suc n) = is_typed (first + n) value && rows_typed value first n

  pub rows_typed-row :
      (value : ParamValue F) (first n k : ℕ)
      → rows_typed value first n ≡ true
      → k < n
      → is_typed (first + k) value ≡ true
  unfolding rows_typed
  rows_typed-row value first zero k h below = absurd (omega arith)
  rows_typed-row value first (suc n) k h below = elim (Bool-cases (k == n)) [
    | inl here ↦
        let e : k ≡ n = ground (arith, here) in
        subst (λ i. is_typed (first + i) value ≡ true) (sym e) (both_left _ _ h)
    | inr there ↦ rows_typed-row value first n k (both_right _ _ h) (ground (arith, there, below))
  ]

  pub outputs_typed : rows_typed (int (pos 0)) param_primary_mixer_output_0 10 ≡ true
  unfolding rows_typed is_typed same_param_type nth param_definitions
  outputs_typed = refl

  pub rates_typed : rows_typed (float nought) param_primary_mixer_pwm_rate_0 10 ≡ true
  unfolding rows_typed is_typed same_param_type nth param_definitions
  rates_typed = refl

  pub primary_typed : rows_typed (float nought) param_primary_mixer_0_0 100 ≡ true
  unfolding rows_typed is_typed same_param_type nth param_definitions
  primary_typed = refl

  pub secondary_typed : rows_typed (float nought) param_secondary_mixer_0_0 100 ≡ true
  unfolding rows_typed is_typed same_param_type nth param_definitions
  secondary_typed = refl

  pub is_typed-int :
      (id : ParamId) (v w : ℤ) → is_typed {F = F} id (int v) ≡ is_typed {F = F} id (int w)
  unfolding is_typed
  is_typed-int id v w =
      elim (nth (param_definitions {F = F}) id)
        as (λ o. typed_row o (int v) ≡ typed_row o (int w)) [
          | none ↦ refl
          | some d ↦ int_type d.default v w
        ]

  pub is_typed-float :
      (id : ParamId) (v w : F) → is_typed {F = F} id (float v) ≡ is_typed {F = F} id (float w)
  unfolding is_typed
  is_typed-float id v w =
      elim (nth (param_definitions {F = F}) id)
        as (λ o. typed_row o (float v) ≡ typed_row o (float w)) [
          | none ↦ refl
          | some d ↦ float_type d.default v w
        ]
