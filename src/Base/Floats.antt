-- ===== src/Base/Floats.antt =====
-- Python's floats, as far as the library computes with them.
use huawei_solar_lib.Base.Int.{ℤ}

pub record Floats : Type 1 where
  pub Float : Type 0
  -- `int(x * n)`, `z / n` and `abs(x)`
  pub int_mul : Float → ℤ → ℤ
  pub int_div : ℤ → ℤ → Float
  pub float_abs : Float → Float
