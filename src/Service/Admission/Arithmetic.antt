-- ===== src/Service/Admission/Arithmetic.antt =====
-- The floating-point numbers of service/admission.py: the operations that the token buckets use.
use signalattice.Prelude.{ℕ, Bool}

pub record Floats : Type 1 where
  pub Float : Type 0
  -- an integer as a float; those of the module are exact
  pub from_nat : ℕ → Float
  pub is_finite : Float → Bool
  pub is_less : Float → Float → Bool
  pub is_at_most : Float → Float → Bool
  pub plus : Float → Float → Float
  pub minus : Float → Float → Float
  pub times : Float → Float → Float
  -- `min`
  pub minimum : Float → Float → Float
  -- 0.01 and 10_000
  pub least_rate : Float
  pub greatest_rate : Float
