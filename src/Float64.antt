-- ===== src/Float64.antt =====
-- Go's `float64`, as far as the services use it. The arithmetic is a parameter: which value an
-- operation rounds to, and NaN, are left to the instance, so what is proved holds of IEEE 754 too.
use wordbit_advanced.Prelude.{ℕ, Bool, if◌then◌else◌, ℤ}

pub record Float64 (F : Type 0) : Type 0 where
  pub lt : F → F → Bool
  pub le : F → F → Bool
  pub beq : F → F → Bool
  pub add : F → F → F
  pub sub : F → F → F
  pub mul : F → F → F
  pub div : F → F → F
  -- `dec n k` is the literal n / 10^k.
  pub dec : ℕ → ℕ → F
  -- The conversions `float64(n)` and `int(x)`, and `math.Ceil` and `math.Round`.
  pub of_int : ℤ → F
  pub to_int : F → ℤ
  pub ceil : F → F
  pub round : F → F

module _ {F : Type 0} ⦃fl : Float64 F⦄ where
  -- `maxFloat` and `minFloat`: a comparison with NaN is false, so NaN as `a` gives `b`.
  abbrev pub max_float : F → F → F
  max_float a b = if fl.lt b a then a else b

  abbrev pub min_float : F → F → F
  min_float a b = if fl.lt a b then a else b
