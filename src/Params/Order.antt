-- ===== src/Params/Order.antt =====
-- Which parameters the image of crates/veloxity_core/src/params/storage.rs holds.
use veloxity.Base.{
  both_left, both_right, ℕ, zero, suc, ◌<◌, ◌≤◌, ◌≡◌, inl, inr, refl, Bool, true, false, Bool-cases,
  not, ◌&&◌, List, [], ◌∷◌, length, ltb, ◌==◌, arith,
}
use veloxity.Float.{Float}
use veloxity.Params.{ParamId, Params}
use veloxity.Params.Table.{params_count, param_definitions}
use veloxity.Params.Storage.{Bits, is_rosflight_c_param, in_c_order, c_param_count, contains}
use veloxity.Params.RoundTrip.{ids_of}
use veloxity.Params.Restored.{names_fit}

same_bit : Bool → Bool → Bool
same_bit true b = b
same_bit false b = not b

same_bit-eq : (a b : Bool) → same_bit a b ≡ true → a ≡ b
unfolding same_bit
same_bit-eq a b h = ground (arith, a)

agree_below : ℕ → List ParamId → Bool
agree_below zero ids = true
agree_below (suc n) ids = same_bit (contains ids n) (is_rosflight_c_param n) && agree_below n ids

agree_below-eq :
    (n : ℕ) (ids : List ParamId) (id : ℕ)
    → agree_below n ids ≡ true
    → id < n
    → contains ids id ≡ is_rosflight_c_param id
unfolding agree_below
agree_below-eq zero ids id h l = absurd (omega arith)
agree_below-eq (suc n) ids id h l = elim (Bool-cases (id == n)) [
  | inl here ↦ let e : id ≡ n = ground (arith, here) in rw e (same_bit-eq _ _ (both_left _ _ h))
  | inr other ↦ agree_below-eq n ids id (both_right _ _ h) (ground (arith, other, l))
]

all_less : ℕ → List ParamId → Bool
all_less n [] = true
all_less n (id ∷ ids) = ltb id n && all_less n ids

all_less-contains :
    (n : ℕ) (ids : List ParamId) (id : ℕ) → all_less n ids ≡ true → n ≤ id → contains ids id ≡ false
unfolding all_less contains
all_less-contains n [] id h l = refl
all_less-contains n (i ∷ ids) id h l = ground (arith, h, all_less-contains n ids id)

module _ (F : Type 0) ⦃fl : Float F⦄ where
  abbrev pub c_ids : List ParamId
  c_ids = ids_of (in_c_order (param_definitions {F = F}))

  pub contains-c_ids :
      (id : ℕ) → contains c_ids id ≡ (ltb id params_count && is_rosflight_c_param id)
  contains-c_ids id = elim (Bool-cases (ltb id params_count)) [
    | inl inside ↦ rw inside (agree_below-eq params_count c_ids id agree (ground (arith, inside)))
    | inr outside ↦
        rw outside (all_less-contains params_count c_ids id less (ground (arith, outside)))
  ]
    where
      agree : agree_below params_count c_ids ≡ true
      agree =
          unfold agree_below ids_of in_c_order param_definitions same_bit contains
            is_rosflight_c_param in
          refl

      less : all_less params_count c_ids ≡ true
      less = unfold all_less ids_of in_c_order param_definitions in refl

pub names-all_fit :
    {F : Type 0} ⦃fl : Float F⦄ (bits : Bits F) (is_f32 : F → Bool) (params : Params F)
    → names_fit bits is_f32 params (in_c_order param_definitions) ≡ true
unfolding names_fit in_c_order param_definitions
names-all_fit bits is_f32 params = refl

pub count-in_c_order :
    (F : Type 0) ⦃fl : Float F⦄ → length (in_c_order (param_definitions {F = F})) ≡ c_param_count
unfolding in_c_order param_definitions
count-in_c_order F = refl
