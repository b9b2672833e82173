-- ===== src/Floats.antt =====
-- What the client uses of `float`: the comparison with 0, the conversion of an `int16_t`, division
-- and the conversion back to `int16_t`. IEEE arithmetic is not modelled: it is a parameter.
use rs_jerry_driver.Common.{Bool, Option, ℤ}

pub record FloatOps : Type 1 where
  pub Float : Type 0
  pub is_zero : Float → Bool
  pub of_int16 : ℤ → Float
  pub divide : Float → Float → Float
  -- Nothing, where the value does not fit: the conversion is undefined behaviour then.
  pub to_int16 : Float → Option ℤ

-- `std::complex<float>`
pub record Complex (F : Type 0) : Type 0 where
  pub real : F
  pub imag : F
