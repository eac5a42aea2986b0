-- ===== src/Common/Floats.antt =====
-- The operations of float64 that the routers use. What is proved holds for any such operations.
use mathlib.Core.Bool.{Bool}
use muxcore.Common.Int.{ℤ}

pub record FloatOps : Type 1 where
  pub Carrier : Type 0
  pub of_int : ℤ → Carrier
  pub add : Carrier → Carrier → Carrier
  pub mul : Carrier → Carrier → Carrier
  pub div : Carrier → Carrier → Carrier
  pub less : Carrier → Carrier → Bool
  pub at_most : Carrier → Carrier → Bool
  pub equal : Carrier → Carrier → Bool
