-- ===== src/HashRing.antt =====
-- core/router/multidimensional_router.go and core/router/enhanced_router.go: the consistent hash ring. A
-- name's hashes are those of hash/fnv, of fewer than 2 ^ 32 bytes.
pub mod Clockwise
pub mod Restore
mod Tests
use muxcore.Common.{
  ℕ, zero, suc, ◌+◌, String, Option, none, some, List, [], ◌∷◌, ◌++◌, ◌==◌, if◌then◌else◌, length,
  get_elem?,
}
use muxcore.Common.Dict.{Dict, lookup, insert, delete}
use muxcore.Common.Keys.{string_key, number_key}
use muxcore.Common.Counts.{remove_first}
use muxcore.Common.Sorted.{sort}
use muxcore.Common.Search.{search}
use muxcore.Common.Text.{utf8, sum32a, decimal, with_colon}

pub record ConsistentHashRing : Type 0 where
  pub hash_ring : Dict ℕ String
  pub sorted_hashes : List ℕ
  pub replicas : ℕ

unfoldable pub new_ring : ℕ → ConsistentHashRing
new_ring replicas = record { hash_ring = []; sorted_hashes = []; replicas = replicas }

-- The hash of a node's replica with a number.
unfoldable pub replica_hash : String → ℕ → ℕ
unfolding utf8 sum32a decimal with_colon
replica_hash id i = sum32a (utf8 (with_colon id (decimal 18 i)))

-- The hashes of the replicas from i on, with the number of those that are left.
unfoldable pub hashes_from : String → ℕ → ℕ → List ℕ
unfolding replica_hash
hashes_from id i zero = []
hashes_from id i (suc left) = replica_hash id i ∷ hashes_from id (i + 1) left

-- One round of the loop of Add.
unfoldable pub add_hash : String → ℕ → ConsistentHashRing → ConsistentHashRing
add_hash id h r = record r {
  hash_ring = insert h id r.hash_ring;
  sorted_hashes = r.sorted_hashes ++ h ∷ [];
}

unfoldable pub add_hashes : String → List ℕ → ConsistentHashRing → ConsistentHashRing
unfolding add_hash
add_hashes id [] r = r
add_hashes id (h ∷ hs) r = add_hashes id hs (add_hash id h r)

-- Add.
unfoldable pub add_to_ring : String → ConsistentHashRing → ConsistentHashRing
unfolding add_hashes hashes_from
add_to_ring id r =
    let added = add_hashes id (hashes_from id 0 r.replicas) r in
    record added { sorted_hashes = sort added.sorted_hashes }

-- One round of the loop of Remove.
unfoldable pub remove_hash : ℕ → ConsistentHashRing → ConsistentHashRing
remove_hash h r = record r {
  hash_ring = delete h r.hash_ring;
  sorted_hashes = remove_first h r.sorted_hashes;
}

unfoldable pub remove_hashes : List ℕ → ConsistentHashRing → ConsistentHashRing
unfolding remove_hash
remove_hashes [] r = r
remove_hashes (h ∷ hs) r = remove_hashes hs (remove_hash h r)

-- Remove.
unfoldable pub remove_from_ring : String → ConsistentHashRing → ConsistentHashRing
unfolding remove_hashes hashes_from
remove_from_ring id r = remove_hashes (hashes_from id 0 r.replicas) r

-- `chr.hashRing[hash]`, of a hash that was found.
unfoldable pub owner : Option ℕ → ConsistentHashRing → String
owner none r = ""
owner (some h) r = elim (lookup h r.hash_ring) [ none ↦ "" | some id ↦ id ]

-- Get.
unfoldable pub get_from_ring : ℕ → ConsistentHashRing → String
unfolding owner
get_from_ring hash r =
    let found = search hash r.sorted_hashes in
    let i = if found == length r.sorted_hashes then 0 else found in
    if length r.sorted_hashes == 0 then "" else owner (get_elem? r.sorted_hashes i) r
