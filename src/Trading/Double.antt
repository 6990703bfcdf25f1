-- ===== src/Trading/Double.antt =====
-- The `double` of trading/strategy: what the code does with it is the arithmetic of the platform,
-- a parameter here. A constant is named by its digits.
use low_latency_electronic_t.Prelude.{ℕ, ℤ, Bool}

pub record Double (W : Type 0) : Type 0 where
  pub of_int : ℤ → W
  pub plus : W → W → W
  pub minus : W → W → W
  pub times : W → W → W
  pub over : W → W → W
  pub equal : W → W → Bool
  pub less : W → W → Bool
  pub at_least : W → W → Bool
  -- The constant `m` divided by ten to the `n`.
  pub dec : ℤ → ℕ → W
  -- `Feature_INVALID`, a quiet NaN.
  pub nan : W
  pub negate : W → W
  pub absolute : W → W
  pub floor : W → W
  pub ceil : W → W
  pub round : W → W
  pub log1p : W → W
  -- `static_cast` to `Price` and to `Qty`.
  pub to_price : W → ℤ
  pub to_qty : W → ℕ
