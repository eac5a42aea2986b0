-- ===== src/Common/Float.antt =====
-- Go's float64, as far as the thresholds of core/reliability use it: antt has no floats.
use muxcore.Common.{ℕ, ◌≤◌, ◌<◌, ◌≡◌, Bool, true, false}

-- What the code relies on: x / x is 1 for a positive whole x, 0 / 0 is NaN and compares as false,
-- and a larger whole number exceeds what a smaller one exceeds.
pub record Float64 : Type 1 where
  pub Carrier : Type 0
  pub of_int : ℕ → Carrier
  pub div : Carrier → Carrier → Carrier
  pub gtb : Carrier → Carrier → Bool
  pub div_self : (n : ℕ) → 0 < n → div (of_int n) (of_int n) ≡ of_int 1
  pub gtb_nan : (t : Carrier) → gtb (div (of_int 0) (of_int 0)) t ≡ false
  pub gtb_mono : (m n : ℕ) (t : Carrier) → m ≤ n → gtb (of_int m) t ≡ true → gtb (of_int n) t ≡ true
