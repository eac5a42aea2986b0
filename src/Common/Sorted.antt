-- ===== src/Common/Sorted.antt =====
-- Sorted lists of numbers, as Go's sort package makes and searches them.
use Prim.Native.Nat.{ℕ, ◌+◌, ◌≤◌, ◌<◌}
use mathlib.Core.Path.{◌≡◌, refl, sym, ap, ◌∙◌}
use mathlib.Core.List.{List, [], ◌∷◌}
use native.Mathlib.Omega.{arith}
use muxcore.Common.Tests.{leb, ◌==◌, if◌then◌else◌, leb→le, if_either, if_cases}
use muxcore.Common.Lists.{All}
use muxcore.Common.Keys.{number_key}
use muxcore.Common.Counts.{times, remove_first, one_if}

unfoldable pub insert_sorted : ℕ → List ℕ → List ℕ
insert_sorted x [] = x ∷ []
insert_sorted x (y ∷ l) = let rest = insert_sorted x l in if leb x y then x ∷ y ∷ l else y ∷ rest

-- `sort.Slice` by `<`: sorting numbers has one result.
unfoldable pub sort : List ℕ → List ℕ
unfolding insert_sorted
sort [] = []
sort (x ∷ l) = insert_sorted x (sort l)

-- No element is below those before it.
abbrev pub Sorted : List ℕ → Type 0
Sorted [] = Unit
Sorted (x ∷ l) = All (λ y. x ≤ y) l × Sorted l

All-below : (a b : ℕ) (l : List ℕ) → a ≤ b → All (λ y. b ≤ y) l → All (λ y. a ≤ y) l
All-below a b [] le h = tt
All-below a b (y ∷ l) le (p, h) = (omega arith, All-below a b l le h)

insert_sorted-All :
    (a x : ℕ) (l : List ℕ) → a ≤ x → All (λ y. a ≤ y) l → All (λ y. a ≤ y) (insert_sorted x l)
unfolding insert_sorted
insert_sorted-All a x [] le h = (le, tt)
insert_sorted-All a x (y ∷ l) le (p, h) =
    if_either (All (λ z. a ≤ z)) (leb x y) (le, (p, h)) (p, insert_sorted-All a x l le h)

insert_sorted-Sorted : (x : ℕ) (l : List ℕ) → Sorted l → Sorted (insert_sorted x l)
unfolding insert_sorted
insert_sorted-Sorted x [] h = (tt, tt)
insert_sorted-Sorted x (y ∷ l) (p, h) =
    if_cases Sorted (leb x y)
      (λ less. let le = leb→le x y less in ((le, All-below x y l le p), (p, h)))
      (λ more. (insert_sorted-All y x l (ground arith) p, insert_sorted-Sorted x l h))

pub sort-Sorted : (l : List ℕ) → Sorted (sort l)
unfolding sort
sort-Sorted [] = tt
sort-Sorted (x ∷ l) = insert_sorted-Sorted x (sort l) (sort-Sorted l)

times-insert_sorted :
    (x z : ℕ) (l : List ℕ) → times x (insert_sorted z l) ≡ one_if (z == x) + times x l
unfolding times insert_sorted
times-insert_sorted x z [] = refl
times-insert_sorted x z (y ∷ l) = ground (arith, times-insert_sorted x z l)

pub times-sort : (x : ℕ) (l : List ℕ) → times x (sort l) ≡ times x l
unfolding times sort
times-sort x [] = refl
times-sort x (y ∷ l) =
    times-insert_sorted x y (sort l) ∙ ap (λ (n : ℕ). one_if (y == x) + n) (times-sort x l)

remove_first-All : (a x : ℕ) (l : List ℕ) → All (λ y. a ≤ y) l → All (λ y. a ≤ y) (remove_first x l)
unfolding remove_first
remove_first-All a x [] h = tt
remove_first-All a x (y ∷ l) (p, h) =
    if_either (All (λ z. a ≤ z)) (y == x) h (p, remove_first-All a x l h)

pub remove_first-Sorted : (x : ℕ) (l : List ℕ) → Sorted l → Sorted (remove_first x l)
unfolding remove_first
remove_first-Sorted x [] h = tt
remove_first-Sorted x (y ∷ l) (p, h) =
    if_either Sorted (y == x) h (remove_first-All y x l p, remove_first-Sorted x l h)

-- What stands in a sorted list is not below its first element.
least_first : (x y : ℕ) (l : List ℕ) → All (λ z. y ≤ z) l → 0 < times x (y ∷ l) → y ≤ x
unfolding times
least_first x y [] h lt = ground arith
least_first x y (z ∷ l) (p, h) lt = ground (arith, least_first x y l h)

times-head : (x : ℕ) (l : List ℕ) → 0 < times x (x ∷ l)
unfolding times
times-head x l = ground arith

times-nil : (x : ℕ) → times x [] ≡ 0
unfolding times
times-nil x = refl

times-cons : (z x : ℕ) (l : List ℕ) → times z (x ∷ l) ≡ one_if (x == z) + times z l
unfolding times
times-cons z x l = refl

-- A sorted list is known by how often each number stands in it.
pub Sorted-unique : (a b : List ℕ) → Sorted a → Sorted b → ((x : ℕ) → times x a ≡ times x b) → a ≡ b
Sorted-unique [] [] p q e = refl
Sorted-unique [] (y ∷ b) p q e = absurd (omega (arith, e y, times-head y b, times-nil y))
Sorted-unique (x ∷ a) [] p q e = absurd (omega (arith, e x, times-head x a, times-nil x))
Sorted-unique (x ∷ a) (y ∷ b) (px, p) (qy, q) e =
    let y_le = least_first x y b qy (omega (arith, e x, times-head x a)) in
    let x_le = least_first y x a px (omega (arith, e y, times-head y b)) in
    let same : x ≡ y = omega arith in
    rw (sym same) (ap (◌∷◌ x) (Sorted-unique a b p q (λ z. cancel z same)))
  where
    cancel : (z : ℕ) → x ≡ y → times z a ≡ times z b
    cancel z same =
        omega (arith, e z, times-cons z x a, times-cons z y b, ap (λ (n : ℕ). one_if (n == z)) same)
