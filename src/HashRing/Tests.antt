-- ===== src/HashRing/Tests.antt =====
-- Runs of the hash ring.
use muxcore.Common.{◌≡◌, refl, List, [], ◌∷◌}
use muxcore.Common.Dict.{lookup, insert, delete}
use muxcore.Common.Keys.{string_key, number_key}
use muxcore.Common.Sorted.{sort}
use muxcore.Common.Counts.{remove_first, times}
use muxcore.Common.Search.{search}
use muxcore.HashRing.{ConsistentHashRing, new_ring, get_from_ring, hashes_from, owner}
use muxcore.HashRing.Clockwise.{
  add_op, remove_op, RingOp, run, first_at, or_first, get_from_ring-clockwise,
}
use muxcore.HashRing.Restore.{AreNew}

abbrev ring : ConsistentHashRing
ring = record { hash_ring = (10, "a") ∷ (5, "b") ∷ []; sorted_hashes = 5 ∷ 10 ∷ []; replicas = 2 }

round_the_end : get_from_ring 11 ring ≡ "b"
unfolding get_from_ring lookup search
round_the_end = refl

between : get_from_ring 6 ring ≡ "a"
unfolding get_from_ring lookup search
between = refl

ops : List RingOp
ops = add_op "a" ∷ add_op "b" ∷ remove_op "a" ∷ []

get_from_ring-clockwise_example :
    let r = run ops (new_ring 2) in
    get_from_ring 77 r ≡ owner (or_first (first_at 77 r.sorted_hashes) r.sorted_hashes) r
get_from_ring-clockwise_example = get_from_ring-clockwise 2 77 ops

only_b : get_from_ring 77 (run ops (new_ring 2)) ≡ "b"
unfolding get_from_ring run new_ring ops lookup insert delete remove_first sort search
only_b = refl

hashes-AreNew : AreNew (hashes_from "c" 0 2) ring.hash_ring
unfolding AreNew hashes_from lookup times
hashes-AreNew = (refl, refl, (refl, refl, tt))
