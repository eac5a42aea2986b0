-- ===== src/Common/Dict.antt =====
-- Go's maps as association lists. Iteration takes the list's order, and since a theorem holds for
-- every list it holds for every order in which Go may walk the map.
use Prim.Native.Nat.{◌+◌}
use mathlib.Core.Path.{◌≡◌, refl}
use mathlib.Core.Bool.{Bool}
use mathlib.Core.Option.{Option, none, some}
use mathlib.Core.List.{List, [], ◌∷◌}
use native.Mathlib.Omega.{arith}
use muxcore.Common.Tests.{if◌then◌else◌}
use muxcore.Common.Lists.{length}
use muxcore.Common.Keys.{Key, same, same_refl}

abbrev pub Dict {κ ℓ} : Type κ → Type ℓ → Type (κ ⊔ ℓ)
Dict K V = List (K × V)

module _ {κ ℓ} {K : Type κ} {V : Type ℓ} ⦃key : Key K⦄ where
  -- `v, exists := m[k]`
  unfoldable pub lookup : K → Dict K V → Option V
  lookup k [] = none
  lookup k ((j, v) ∷ m) = if same j k then some v else lookup k m

  -- `m[k] = v`
  unfoldable pub insert : K → V → Dict K V → Dict K V
  insert k v [] = (k, v) ∷ []
  insert k v ((j, w) ∷ m) = if same j k then (j, v) ∷ m else (j, w) ∷ insert k v m

  -- `delete(m, k)`
  unfoldable pub delete : K → Dict K V → Dict K V
  delete k [] = []
  delete k ((j, w) ∷ m) = if same j k then delete k m else (j, w) ∷ delete k m

  -- Every key stands once, as in a Go map.
  abbrev pub Distinct : Dict K V → Type ℓ
  Distinct [] = Unit {ℓ}
  Distinct ((k, v) ∷ m) = (lookup k m ≡ none) × Distinct m

  pub lookup-insert :
      (k j : K) (v : V) (m : Dict K V)
      → lookup j (insert k v m) ≡ (if same k j then some v else lookup j m)
  unfolding lookup insert
  lookup-insert k j v [] = refl
  lookup-insert k j v ((i, w) ∷ m) =
      ground (arith, key.test_iff k j, key.test_iff i k, key.test_iff i j, lookup-insert k j v m)

  pub lookup-delete :
      (k j : K) (m : Dict K V) → lookup j (delete k m) ≡ (if same k j then none else lookup j m)
  unfolding lookup delete
  lookup-delete k j [] = ground arith
  lookup-delete k j ((i, w) ∷ m) =
      ground (arith, key.test_iff k j, key.test_iff i k, key.test_iff i j, lookup-delete k j m)

  pub insert-Distinct : (k : K) (v : V) (m : Dict K V) → Distinct m → Distinct (insert k v m)
  unfolding lookup insert
  insert-Distinct k v [] d = (refl, tt)
  insert-Distinct k v ((j, w) ∷ m) d =
      ground (
        arith,
        key.test_iff j k,
        key.test_iff k j,
        insert-Distinct k v m d.1,
        lookup-insert k j v m,
      )

  pub delete-Distinct : (k : K) (m : Dict K V) → Distinct m → Distinct (delete k m)
  unfolding lookup delete
  delete-Distinct k [] d = tt
  delete-Distinct k ((j, w) ∷ m) d =
      ground (arith, key.test_iff k j, delete-Distinct k m d.1, lookup-delete k j m)

  pub delete_absent : (k : K) (m : Dict K V) → lookup k m ≡ none → delete k m ≡ m
  unfolding lookup delete
  delete_absent k [] h = refl
  delete_absent k ((j, w) ∷ m) h = ground (arith, delete_absent k m)

  -- A new key that is deleted again leaves the map as it was.
  pub delete-insert_new :
      (k : K) (v : V) (m : Dict K V) → lookup k m ≡ none → delete k (insert k v m) ≡ m
  unfolding lookup insert delete
  delete-insert_new k v [] h = rw (same_refl k) refl
  delete-insert_new k v ((j, w) ∷ m) h = ground (arith, delete-insert_new k v m, same_refl k)

  pub length-insert_new :
      (k : K) (v : V) (m : Dict K V) → lookup k m ≡ none → length (insert k v m) ≡ length m + 1
  unfolding lookup insert
  length-insert_new k v [] h = omega arith
  length-insert_new k v ((j, w) ∷ m) h = ground (arith, length-insert_new k v m)

  pub length-insert_old :
      (k : K) (v : V) (m : Dict K V) {w : V}
      → lookup k m ≡ some w
      → length (insert k v m) ≡ length m
  unfolding lookup insert
  length-insert_old k v [] h = ground arith
  length-insert_old k v ((j, x) ∷ m) {w = w} h = ground (arith, length-insert_old k v m {w = w})

  pub length-delete :
      (k : K) (m : Dict K V) {w : V}
      → Distinct m
      → lookup k m ≡ some w
      → length (delete k m) + 1 ≡ length m
  unfolding lookup delete
  length-delete k [] d h = ground arith
  length-delete k ((j, x) ∷ m) {w = w} d h =
      ground (arith, key.test_iff j k, delete_absent k m, length-delete k m {w = w} d.1)

  -- The entries whose value passes a test, as a loop copies them into a new map.
  unfoldable pub keep_if : (V → Bool) → Dict K V → Dict K V
  keep_if p [] = []
  keep_if p ((j, w) ∷ m) = let rest = keep_if p m in if p w then (j, w) ∷ rest else rest

  pub lookup-keep_if :
      (p : V → Bool) (k : K) (m : Dict K V)
      → Distinct m
      → lookup k (keep_if p m)
        ≡ elim (lookup k m) [ none ↦ none | some w ↦ if p w then some w else none ]
  unfolding lookup keep_if
  lookup-keep_if p k [] d = refl
  lookup-keep_if p k ((j, w) ∷ m) d = ground (arith, key.test_iff j k, lookup-keep_if p k m d.1)

  pub keep_if-Distinct : (p : V → Bool) (m : Dict K V) → Distinct m → Distinct (keep_if p m)
  unfolding lookup keep_if
  keep_if-Distinct p [] d = tt
  keep_if-Distinct p ((j, w) ∷ m) d =
      ground (arith, lookup-keep_if p j m d.1, keep_if-Distinct p m d.1)
