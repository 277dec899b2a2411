-- ===== src/Resource/Real.antt =====
-- Python's floats, as far as tier2/resource uses them: a parameter of the model.
use far_away.Prelude.{ℕ, Bool, if◌then◌else◌}
use far_away.Prelude.Int.{ℤ}

-- `decimal m k` is the float nearest to m / 10^k, `round x n` is Python's, and `same` is `==`.
pub record Reals : Type 1 where
  pub Real : Type 0
  pub plus : Real → Real → Real
  pub minus : Real → Real → Real
  pub times : Real → Real → Real
  pub over : Real → Real → Real
  pub negative : Real → Real
  pub below : Real → Real → Bool
  pub same : Real → Real → Bool
  pub decimal : (m k : ℕ) → Real
  pub of_int : ℤ → Real
  pub round : Real → ℕ → Real

module _ (reals : Reals) where
  open reals use {Real, below}

  -- `min(x, y)`
  abbrev pub least : Real → Real → Real
  least x y = if below y x then y else x

  -- `max(x, y)`
  abbrev pub greatest : Real → Real → Real
  greatest x y = if below x y then y else x
