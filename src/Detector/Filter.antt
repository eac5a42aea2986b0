-- ===== src/Detector/Filter.antt =====
-- core/detector/protocol_detector.go: the Bloom filter with its FNV-1a hashes, and what it is preloaded with.
use muxcore.Common.{
  ℕ, zero, suc, ◌+◌, ◌*◌, ◌%◌, ◌^◌, Bool, true, false, ◌&&◌, Option, none, some, List, [], ◌∷◌,
  ◌++◌, get_elem?, set, replicate,
}
use muxcore.Common.Keys.{string_key, number_key}
use Prim.Native.Nat.{bit_xor}

pub record BloomFilter : Type 0 where
  pub bitset : List Bool
  pub size : ℕ
  pub hash_function_count : ℕ

unfoldable pub new_bloom_filter : ℕ → ℕ → BloomFilter
new_bloom_filter size hash_function_count = record {
  bitset = replicate size false;
  size = size;
  hash_function_count = hash_function_count;
}

-- hash/fnv's New64a: the sum after some bytes.
unfoldable pub fnv64a : ℕ → List ℕ → ℕ
fnv64a h [] = h
fnv64a h (x ∷ xs) = fnv64a (bit_xor h x * 1099511628211 % 2 ^ 64) xs

unfoldable pub hash : BloomFilter → List ℕ → ℕ → ℕ
unfolding fnv64a
hash bf d seed = fnv64a 14695981039346656037 (d ++ seed % 256 ∷ []) % bf.size

-- The loop of Add, with the rounds left and the seed of the next one.
unfoldable pub add_rounds : ℕ → ℕ → List ℕ → BloomFilter → BloomFilter
unfolding hash
add_rounds zero seed d bf = bf
add_rounds (suc rounds) seed d bf =
    add_rounds rounds (seed + 1) d (record bf { bitset = set bf.bitset (hash bf d seed) true })

unfoldable pub add : List ℕ → BloomFilter → BloomFilter
unfolding add_rounds
add d bf = add_rounds bf.hash_function_count 0 d bf

unfoldable pub is_set : Option Bool → Bool
is_set none = false
is_set (some b) = b

unfoldable pub contains_rounds : ℕ → ℕ → List ℕ → BloomFilter → Bool
unfolding hash is_set
contains_rounds zero seed d bf = true
contains_rounds (suc rounds) seed d bf =
    is_set (get_elem? bf.bitset (hash bf d seed)) && contains_rounds rounds (seed + 1) d bf

unfoldable pub contains : List ℕ → BloomFilter → Bool
unfolding contains_rounds
contains d bf = contains_rounds bf.hash_function_count 0 d bf

-- Texts of the source, as bytes: "GET ", "POST", "PUT ", "DELETE", "HEAD" and "Upgrade: websocket".
abbrev pub get_bytes : List ℕ
get_bytes = 71 ∷ 69 ∷ 84 ∷ 32 ∷ []

abbrev pub post_bytes : List ℕ
post_bytes = 80 ∷ 79 ∷ 83 ∷ 84 ∷ []

abbrev pub put_bytes : List ℕ
put_bytes = 80 ∷ 85 ∷ 84 ∷ 32 ∷ []

abbrev pub delete_bytes : List ℕ
delete_bytes = 68 ∷ 69 ∷ 76 ∷ 69 ∷ 84 ∷ 69 ∷ []

abbrev pub head_bytes : List ℕ
head_bytes = 72 ∷ 69 ∷ 65 ∷ 68 ∷ []

abbrev pub upgrade_bytes : List ℕ
upgrade_bytes =
    85 ∷ 112 ∷ 103 ∷ 114 ∷ 97 ∷ 100 ∷ 101 ∷ 58 ∷ 32 ∷ 119 ∷ 101 ∷ 98 ∷ 115 ∷ 111 ∷ 99 ∷ 107 ∷ 101
    ∷ 116 ∷ []

unfoldable pub preload_protocol_signatures : BloomFilter → BloomFilter
unfolding add
preload_protocol_signatures bf = add (0 ∷ []) (
    add upgrade_bytes
      (add head_bytes (add delete_bytes (add put_bytes (add post_bytes (add get_bytes bf))))))
