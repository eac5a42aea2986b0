-- ===== src/Common/Search.antt =====
-- Go's sort.Search for the first number of a sorted list that is not below a bound.
use Prim.Native.Nat.{ℕ, zero, suc, ◌+◌, ◌-◌, ◌/◌, ◌≤◌, ◌<◌}
use mathlib.Core.Path.{◌≡◌, refl}
use mathlib.Core.Bool.{Bool, true, false}
use mathlib.Core.Logic.{inl, inr}
use mathlib.Core.Option.{Option, none, some}
use mathlib.Core.List.{List, [], ◌∷◌}
use native.Mathlib.Omega.{arith}
use muxcore.Common.Tests.{ltb, leb, if◌then◌else◌, Bool-cases, leb→le, le→leb}
use muxcore.Common.Lists.{All, length, get_elem?}
use muxcore.Common.Sorted.{Sorted}

-- `l[i] >= bound`, for an index in range.
unfoldable pub reaches : ℕ → Option ℕ → Bool
reaches bound none = false
reaches bound (some x) = leb bound x

-- The loop of sort.Search, with at most `fuel` rounds.
unfoldable pub search_rounds : ℕ → ℕ → List ℕ → ℕ → ℕ → ℕ
unfolding reaches
search_rounds zero bound l i j = i
search_rounds (suc fuel) bound l i j =
    let h = (i + j) / 2 in
    let left = search_rounds fuel bound l i h in
    let right = search_rounds fuel bound l (h + 1) j in
    if ltb i j then (if reaches bound (get_elem? l h) then left else right) else i

-- As many rounds as there are elements are enough.
unfoldable pub search : ℕ → List ℕ → ℕ
unfolding search_rounds
search bound l = search_rounds (length l) bound l 0 (length l)

-- The same by going through the list.
unfoldable pub first_reaching : ℕ → List ℕ → ℕ
first_reaching bound [] = 0
first_reaching bound (x ∷ l) =
    let rest = first_reaching bound l in if leb bound x then 0 else suc rest

pub first_reaching-le : (bound : ℕ) (l : List ℕ) → first_reaching bound l ≤ length l
unfolding first_reaching
first_reaching-le bound [] = omega arith
first_reaching-le bound (x ∷ l) = ground (arith, first_reaching-le bound l)

-- An index before the first one does not reach the bound, one from it on does.
before_first :
    (bound : ℕ) (l : List ℕ) (h : ℕ)
    → h < first_reaching bound l
    → reaches bound (get_elem? l h) ≡ false
unfolding first_reaching reaches
before_first bound [] h lt = refl
before_first bound (x ∷ l) zero lt = ground arith
before_first bound (x ∷ l) (suc h) lt = before_first bound l h (ground arith)

reaches-All :
    (bound : ℕ) (l : List ℕ) (h : ℕ)
    → All (λ y. bound ≤ y) l
    → h < length l
    → reaches bound (get_elem? l h) ≡ true
unfolding reaches
reaches-All bound [] h p lt = absurd (omega arith)
reaches-All bound (x ∷ l) zero (p, q) lt = le→leb bound x p
reaches-All bound (x ∷ l) (suc h) (p, q) lt = reaches-All bound l h q (omega arith)

All-above : (bound x : ℕ) (l : List ℕ) → bound ≤ x → All (λ y. x ≤ y) l → All (λ y. bound ≤ y) l
All-above bound x [] le h = tt
All-above bound x (y ∷ l) le (p, h) = (omega arith, All-above bound x l le h)

from_first :
    (bound : ℕ) (l : List ℕ) (h : ℕ)
    → Sorted l
    → first_reaching bound l ≤ h
    → h < length l
    → reaches bound (get_elem? l h) ≡ true
unfolding first_reaching reaches
from_first bound [] h s le lt = absurd (omega arith)
from_first bound (x ∷ l) zero s le lt = ground arith
from_first bound (x ∷ l) (suc h) (p, s) le lt = elim (Bool-cases (leb bound x)) [
  | inl here ↦ reaches-All bound l h (All-above bound x l (leb→le bound x here) p) (omega arith)
  | inr later ↦ from_first bound l h s (ground arith) (omega arith)
]

search_rounds-first_reaching :
    (fuel bound : ℕ) (l : List ℕ) (i j : ℕ)
    → Sorted l
    → i ≤ first_reaching bound l
    → first_reaching bound l ≤ j
    → j ≤ length l
    → j - i ≤ fuel
    → search_rounds fuel bound l i j ≡ first_reaching bound l
unfolding search_rounds
search_rounds-first_reaching zero bound l i j s lo hi len f = omega arith
search_rounds-first_reaching (suc fuel) bound l i j s lo hi len f =
    let h = (i + j) / 2 in
    let first = first_reaching bound l in
    elim (Bool-cases (ltb i j)) [
      | inr done ↦ ground arith
      | inl more ↦ elim (Bool-cases (leb first h)) [
        | inl at_left ↦
            let here = from_first bound l h s (leb→le first h at_left) (ground arith) in
            rw (more, here)
              (search_rounds-first_reaching fuel bound l i h s lo (leb→le first h at_left)
                (ground arith) (ground arith))
        | inr at_right ↦
            let there = before_first bound l h (ground arith) in
            rw (more, there)
              (search_rounds-first_reaching fuel bound l (h + 1) j s (ground arith) hi len
                (ground arith))
      ]
    ]

-- On a sorted list the search ends within its rounds at the first element that is not below the bound.
pub search-first_reaching :
    (bound : ℕ) (l : List ℕ) → Sorted l → search bound l ≡ first_reaching bound l
unfolding search
search-first_reaching bound l s =
    search_rounds-first_reaching (length l) bound l 0 (length l) s (omega arith)
      (first_reaching-le bound l) (omega arith) (omega arith)
