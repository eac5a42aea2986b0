-- ===== src/Common/Counts.antt =====
-- How often an element stands in a list, and the removal of its first place.
use Prim.Native.Nat.{ℕ, zero, suc, ◌+◌, ◌-◌, ◌<◌, ◌≤◌}
use mathlib.Core.Path.{ap, ◌≡◌}
use mathlib.Core.Bool.{Bool, true, false}
use mathlib.Core.Option.{Option, none, some}
use mathlib.Core.List.{List, [], ◌∷◌, ◌++◌}
use native.Mathlib.Omega.{arith}
use muxcore.Common.Tests.{if◌then◌else◌}
use muxcore.Common.Lists.{length, get_elem?, set}
use muxcore.Common.Keys.{Key, same}

abbrev pub one_if : Bool → ℕ
one_if true = 1
one_if false = 0

module _ {ℓ} {K : Type ℓ} ⦃key : Key K⦄ where
  unfoldable pub times : K → List K → ℕ
  times x [] = 0
  times x (y ∷ l) = one_if (same y x) + times x l

  -- `append(l[:i], l[i+1:]...)` at the first place i of x.
  unfoldable pub remove_first : K → List K → List K
  remove_first x [] = []
  remove_first x (y ∷ l) = let rest = remove_first x l in if same y x then l else y ∷ rest

  pub times-append : (x : K) (a b : List K) → times x (a ++ b) ≡ times x a + times x b
  unfolding times
  times-append x [] b = omega arith
  times-append x (y ∷ a) b = omega (arith, times-append x a b)

  pub times-remove_first :
      (x z : K) (l : List K) → times x (remove_first z l) ≡ times x l - (if same z x then 1 else 0)
  unfolding times remove_first
  times-remove_first x z [] = omega arith
  times-remove_first x z (y ∷ l) =
      ground (arith, key.test_iff y z, key.test_iff z x, key.test_iff y x, times-remove_first x z l)

  pub length-remove_first :
      (x : K) (l : List K) → 0 < times x l → length (remove_first x l) + 1 ≡ length l
  unfolding times remove_first
  length-remove_first x [] h = omega arith
  length-remove_first x (y ∷ l) h = ground (arith, length-remove_first x l)

  pub length-remove_first_le : (x : K) (l : List K) → length l ≤ length (remove_first x l) + 1
  unfolding remove_first
  length-remove_first_le x [] = omega arith
  length-remove_first_le x (y ∷ l) = ground (arith, length-remove_first_le x l)

-- The sum of a measure over a list.
module _ {ℓ} {A : Type ℓ} where
  abbrev pub total : (A → ℕ) → List A → ℕ
  total g [] = 0
  total g (x ∷ l) = g x + total g l

  abbrev pub measured : (A → ℕ) → Option A → ℕ
  measured g none = 0
  measured g (some x) = g x

  pub total-append : (g : A → ℕ) (a b : List A) → total g (a ++ b) ≡ total g a + total g b
  total-append g [] b = omega arith
  total-append g (x ∷ a) b = omega (arith, total-append g a b)

  pub total-set :
      (g : A → ℕ) (l : List A) (i : ℕ) (x y : A)
      → get_elem? l i ≡ some x
      → total g (set l i y) + g x ≡ total g l + g y
  total-set g [] i x y h = ground arith
  total-set g (z ∷ l) zero x y h = omega (arith, ap (measured g) h)
  total-set g (z ∷ l) (suc i) x y h = omega (arith, total-set g l i x y h)
