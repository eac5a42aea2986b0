-- ===== src/Detector/Bloom.antt =====
-- core/detector/protocol_detector.go: the Bloom filter.
use muxcore.Common.{
  ℕ, zero, suc, ◌+◌, ◌<◌, ◌≡◌, refl, sym, ap, subst, ◌∙◌, Bool, true, false, ◌&&◌, List, [], ◌∷◌,
  arith, length, get_elem?, set, length-replicate, length-set,
}
use muxcore.Common.Keys.{string_key, number_key}
use muxcore.Detector.{
  BloomFilter, new_bloom_filter, hash, add_rounds, add, is_set, contains_rounds, contains,
}
use native.Mathlib.Nat.{mod-lt}

-- A filter that has a place for every hash.
pub record Inv (bf : BloomFilter) : Type 0 where
  pub sized : length bf.bitset ≡ bf.size
  pub some_size : 0 < bf.size

-- The bit of an index is set.
abbrev pub Bit : BloomFilter → ℕ → Type 0
Bit bf i = is_set (get_elem? bf.bitset i) ≡ true

set_here : (l : List Bool) (i : ℕ) → i < length l → is_set (get_elem? (set l i true) i) ≡ true
unfolding is_set
set_here [] i h = absurd (omega arith)
set_here (x ∷ l) zero h = refl
set_here (x ∷ l) (suc i) h = set_here l i (omega arith)

set_there :
    (l : List Bool) (i j : ℕ)
    → is_set (get_elem? l i) ≡ true
    → is_set (get_elem? (set l j true) i) ≡ true
unfolding is_set
set_there [] i j h = absurd (cc)
set_there (x ∷ l) zero zero h = refl
set_there (x ∷ l) zero (suc j) h = h
set_there (x ∷ l) (suc i) zero h = h
set_there (x ∷ l) (suc i) (suc j) h = set_there l i j h

abbrev set_bit : ℕ → BloomFilter → BloomFilter
set_bit i bf = record bf { bitset = set bf.bitset i true }

set_bit-Inv : (i : ℕ) (bf : BloomFilter) → Inv bf → Inv (set_bit i bf)
set_bit-Inv i bf v = record {
  sized = length-set bf.bitset i true ∙ v.sized;
  some_size = v.some_size;
}

-- Adding keeps the size of the filter, and what was set.
pub record Grows (bf bf' : BloomFilter) : Type 0 where
  pub inv : Inv bf'
  pub same_size : bf'.size ≡ bf.size
  pub same_count : bf'.hash_function_count ≡ bf.hash_function_count
  pub kept : (i : ℕ) → Bit bf i → Bit bf' i

add_rounds-Grows :
    (rounds seed : ℕ) (d : List ℕ) (bf : BloomFilter)
    → Inv bf
    → Grows bf (add_rounds rounds seed d bf)
unfolding add_rounds
add_rounds-Grows zero seed d bf v = record {
  inv = v;
  same_size = refl;
  same_count = refl;
  kept = λ i h. h;
}
add_rounds-Grows (suc rounds) seed d bf v =
    let i = hash bf d seed in
    let g = add_rounds-Grows rounds (seed + 1) d (set_bit i bf) (set_bit-Inv i bf v) in
    record {
      inv = g.inv;
      same_size = g.same_size;
      same_count = g.same_count;
      kept = λ j h. g.kept j (set_there bf.bitset j i h);
    }

hash-lt : (bf : BloomFilter) (d : List ℕ) (seed : ℕ) → Inv bf → hash bf d seed < length bf.bitset
unfolding hash
hash-lt bf d seed v = subst (λ (n : ℕ). hash bf d seed < n) (sym v.sized) (mod-lt _ v.some_size)

hash-size :
    (bf bf' : BloomFilter) (d : List ℕ) (seed : ℕ)
    → bf'.size ≡ bf.size
    → hash bf' d seed ≡ hash bf d seed
unfolding hash
hash-size bf bf' d seed e = ap (λ (n : ℕ). hash (record bf { size = n }) d seed) e

and_true : {a b : Bool} → a ≡ true → b ≡ true → (a && b) ≡ true
and_true {a} {b} p q = rw (p, q) refl

and_left : (a b : Bool) → (a && b) ≡ true → a ≡ true
and_left true b h = refl
and_left false b h = absurd (cc)

and_right : (a b : Bool) → (a && b) ≡ true → b ≡ true
and_right true b h = h
and_right false b h = absurd (cc)

-- What a filter contains, one with more bits contains.
contains_rounds-Grows :
    (rounds seed : ℕ) (d : List ℕ) (bf bf' : BloomFilter)
    → Grows bf bf'
    → contains_rounds rounds seed d bf ≡ true
    → contains_rounds rounds seed d bf' ≡ true
unfolding contains_rounds
contains_rounds-Grows zero seed d bf bf' g h = refl
contains_rounds-Grows (suc rounds) seed d bf bf' g h =
    let here = is_set (get_elem? bf.bitset (hash bf d seed)) in
    let later = contains_rounds rounds (seed + 1) d bf in
    and_true
      (subst (Bit bf') (sym (hash-size bf bf' d seed g.same_size))
        (g.kept (hash bf d seed) (and_left here later h)))
      (contains_rounds-Grows rounds (seed + 1) d bf bf' g (and_right here later h))

contains_rounds-add_rounds :
    (rounds seed : ℕ) (d : List ℕ) (bf : BloomFilter)
    → Inv bf
    → contains_rounds rounds seed d (add_rounds rounds seed d bf) ≡ true
unfolding contains_rounds add_rounds
contains_rounds-add_rounds zero seed d bf v = refl
contains_rounds-add_rounds (suc rounds) seed d bf v =
    let i = hash bf d seed in
    let bf' = set_bit i bf in
    let v' = set_bit-Inv i bf v in
    let added = add_rounds rounds (seed + 1) d bf' in
    let g = add_rounds-Grows rounds (seed + 1) d bf' v' in
    and_true
      (subst (Bit added) (sym (hash-size bf added d seed g.same_size))
        (g.kept i (set_here bf.bitset i (hash-lt bf d seed v))))
      (contains_rounds-add_rounds rounds (seed + 1) d bf' v')

pub add-Grows : (d : List ℕ) (bf : BloomFilter) → Inv bf → Grows bf (add d bf)
unfolding add
add-Grows d bf v = add_rounds-Grows bf.hash_function_count 0 d bf v

contains-add : (d : List ℕ) (bf : BloomFilter) → Inv bf → contains d (add d bf) ≡ true
unfolding contains add
contains-add d bf v =
    subst (λ (n : ℕ). contains_rounds n 0 d (add d bf) ≡ true) (sym (add-Grows d bf v).same_count)
      (contains_rounds-add_rounds bf.hash_function_count 0 d bf v)

contains-Grows :
    (d : List ℕ) (bf bf' : BloomFilter)
    → Grows bf bf'
    → contains d bf ≡ true
    → contains d bf' ≡ true
unfolding contains
contains-Grows d bf bf' g h =
    subst (λ (n : ℕ). contains_rounds n 0 d bf' ≡ true) (sym g.same_count)
      (contains_rounds-Grows bf.hash_function_count 0 d bf bf' g h)

-- Add of one element after the other.
pub add_all : List (List ℕ) → BloomFilter → BloomFilter
unfolding add
add_all [] bf = bf
add_all (d ∷ l) bf = add_all l (add d bf)

add_all-Inv : (l : List (List ℕ)) (bf : BloomFilter) → Inv bf → Inv (add_all l bf)
unfolding add_all
add_all-Inv [] bf v = v
add_all-Inv (d ∷ l) bf v = add_all-Inv l (add d bf) (add-Grows d bf v).inv

contains-add_all :
    (d : List ℕ) (l : List (List ℕ)) (bf : BloomFilter)
    → Inv bf
    → contains d bf ≡ true
    → contains d (add_all l bf) ≡ true
unfolding add_all
contains-add_all d [] bf v h = h
contains-add_all d (x ∷ l) bf v h =
    let g = add-Grows x bf v in
    contains-add_all d l (add x bf) g.inv (contains-Grows d bf (add x bf) g h)

new_bloom_filter-Inv : (size count : ℕ) → 0 < size → Inv (new_bloom_filter size count)
unfolding new_bloom_filter
new_bloom_filter-Inv size count h = record { sized = length-replicate size false; some_size = h }

-- A new filter with at least one bit, of any number of hash functions, contains every element that was
-- added to it, whatever was added before and after.
pub no_false_negative :
    (size count : ℕ) (before after : List (List ℕ)) (d : List ℕ)
    → 0 < size
    → contains d (add_all after (add d (add_all before (new_bloom_filter size count)))) ≡ true
no_false_negative size count before after d h =
    let bf = add_all before (new_bloom_filter size count) in
    let v = add_all-Inv before (new_bloom_filter size count) (new_bloom_filter-Inv size count h) in
    contains-add_all d after (add d bf) (add-Grows d bf v).inv (contains-add d bf v)
