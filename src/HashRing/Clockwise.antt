-- ===== src/HashRing/Clockwise.antt =====
-- core/router/enhanced_router.go: the node that the ring gives for a hash.
use muxcore.Common.{
  ℕ, ◌≤◌, ◌<◌, String, ◌≡◌, refl, sym, ap, ◌∙◌, false, Option, none, some, List, [], ◌∷◌, arith,
  leb, ◌==◌, if◌then◌else◌, length, get_elem?, ==_iff, if_cases,
}
use muxcore.Common.Keys.{string_key, number_key}
use muxcore.Common.Sorted.{Sorted, sort-Sorted, remove_first-Sorted}
use muxcore.Common.Lists.{get_elem?-lt, get_elem?-past, length_nil}
use muxcore.Common.Search.{first_reaching-le, first_reaching, search-first_reaching}
use muxcore.HashRing.{
  ConsistentHashRing, new_ring, hashes_from, add_to_ring, remove_hash, remove_hashes,
  remove_from_ring, owner, get_from_ring,
}

pub data RingOp : Type 0 where
  add_op : String → RingOp
  remove_op : String → RingOp

unfoldable pub step : RingOp → ConsistentHashRing → ConsistentHashRing
unfolding add_to_ring remove_from_ring
step (add_op id) r = add_to_ring id r
step (remove_op id) r = remove_from_ring id r

unfoldable pub run : List RingOp → ConsistentHashRing → ConsistentHashRing
unfolding step
run [] r = r
run (o ∷ l) r = run l (step o r)

-- The first hash of a list that is not below a hash.
unfoldable pub first_at : ℕ → List ℕ → Option ℕ
first_at hash [] = none
first_at hash (x ∷ l) = let rest = first_at hash l in if leb hash x then some x else rest

unfoldable pub or_first : Option ℕ → List ℕ → Option ℕ
or_first (some x) l = some x
or_first none l = get_elem? l 0

or_first-none : (l : List ℕ) → get_elem? l 0 ≡ or_first none l
unfolding or_first
or_first-none l = refl

or_first-some : (x : ℕ) (l : List ℕ) → or_first (some x) l ≡ some x
unfolding or_first
or_first-some x l = refl

get_elem?-first_reaching :
    (hash : ℕ) (l : List ℕ) → get_elem? l (first_reaching hash l) ≡ first_at hash l
unfolding first_at first_reaching
get_elem?-first_reaching hash [] = refl
get_elem?-first_reaching hash (x ∷ l) =
    if_cases (λ (i : ℕ). get_elem? (x ∷ l) i ≡ (if leb hash x then some x else first_at hash l))
      (leb hash x) (λ here. rw here refl) (λ later. rw later (get_elem?-first_reaching hash l))

first_reaching-first_at :
    (hash : ℕ) (l : List ℕ)
    → get_elem? l (if first_reaching hash l == length l then 0 else first_reaching hash l)
      ≡ or_first (first_at hash l) l
first_reaching-first_at hash l =
    let i = first_reaching hash l in
    let here = get_elem?-first_reaching hash l in
    if_cases (λ (j : ℕ). get_elem? l j ≡ or_first (first_at hash l) l) (i == length l)
      (λ past.
        let none_at : first_at hash l ≡ none =
          sym here ∙ get_elem?-past l i (omega (arith, (==_iff i (length l)).0 past)) in
        rw none_at (or_first-none l))
      (λ inside.
        let (x, found) = get_elem?-lt l i (below i (length l) (first_reaching-le hash l) inside) in
        here ∙ rw (sym here ∙ found) (sym (or_first-some x l)))
  where
    below : (i n : ℕ) → i ≤ n → (i == n) ≡ false → i < n
    below i n le h = ground arith

remove_hashes-Sorted :
    (hs : List ℕ) (r : ConsistentHashRing)
    → Sorted r.sorted_hashes
    → Sorted (remove_hashes hs r).sorted_hashes
unfolding remove_hashes remove_hash
remove_hashes-Sorted [] r s = s
remove_hashes-Sorted (h ∷ hs) r s =
    remove_hashes-Sorted hs (remove_hash h r) (remove_first-Sorted h r.sorted_hashes s)

step-Sorted :
    (o : RingOp) (r : ConsistentHashRing) → Sorted r.sorted_hashes → Sorted (step o r).sorted_hashes
unfolding step add_to_ring remove_from_ring
step-Sorted (add_op id) r s = sort-Sorted _
step-Sorted (remove_op id) r s = remove_hashes-Sorted (hashes_from id 0 r.replicas) r s

run-Sorted :
    (l : List RingOp) (r : ConsistentHashRing)
    → Sorted r.sorted_hashes
    → Sorted (run l r).sorted_hashes
unfolding run
run-Sorted [] r s = s
run-Sorted (o ∷ l) r s = run-Sorted l (step o r) (step-Sorted o r s)

owner-none : (r : ConsistentHashRing) → owner none r ≡ ""
unfolding owner
owner-none r = refl

get_from_ring-Sorted :
    (hash : ℕ) (r : ConsistentHashRing)
    → Sorted r.sorted_hashes
    → get_from_ring hash r ≡ owner (or_first (first_at hash r.sorted_hashes) r.sorted_hashes) r
unfolding get_from_ring or_first first_at
get_from_ring-Sorted hash r s =
    let l = r.sorted_hashes in
    if_cases (λ (name : String). name ≡ owner (or_first (first_at hash l) l) r) (length l == 0)
      (λ empty.
        let nil = length_nil l ((==_iff (length l) 0).0 empty) in rw nil (sym (owner-none r)))
      (λ _.
        ap (λ (i : ℕ). owner (get_elem? l (if i == length l then 0 else i)) r)
          (search-first_reaching hash l s)
        ∙ ap (λ (o : Option ℕ). owner o r) (first_reaching-first_at hash l))

-- After any sequence of Add and Remove on a new ring, Get of a hash gives the owner of the first hash in the
-- ring that is not below it, or of the smallest hash if all are below it, and "" of an empty ring.
pub get_from_ring-clockwise :
    (replicas hash : ℕ) (l : List RingOp)
    → let r = run l (new_ring replicas) in
      get_from_ring hash r ≡ owner (or_first (first_at hash r.sorted_hashes) r.sorted_hashes) r
unfolding new_ring
get_from_ring-clockwise replicas hash l =
    get_from_ring-Sorted hash _ (run-Sorted l (new_ring replicas) tt)
