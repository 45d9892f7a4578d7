-- ===== src/Float.antt =====
-- What the modelled code does with an `f32`: decimal literals, arithmetic and comparisons. The type
-- and its operations are a parameter, so nothing is assumed of rounding or of NaN unless a theorem
-- says so.
use veloxity.Base.{ℕ, Bool}
use veloxity.Base.Int.{ℤ, pos}

pub record Float (F : Type 0) : Type 0 where
  -- The literal `m * 10^-e`.
  pub decimal : ℤ → ℕ → F
  pub add : F → F → F
  pub sub : F → F → F
  pub mul : F → F → F
  pub div : F → F → F
  pub neg : F → F
  pub abs : F → F
  pub clamp : F → F → F → F
  pub lt : F → F → Bool
  pub le : F → F → Bool
  pub eq : F → F → Bool

-- 0.0 and 1.0.
abbrev pub nought : {F : Type 0} ⦃f : Float F⦄ → F
nought ⦃f⦄ = f.decimal (pos 0) 0

abbrev pub unit : {F : Type 0} ⦃f : Float F⦄ → F
unit ⦃f⦄ = f.decimal (pos 1) 0
