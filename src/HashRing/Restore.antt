-- ===== src/HashRing/Restore.antt =====
-- core/router/enhanced_router.go: Remove after Add on the ring.
use muxcore.Common.{
  ℕ, ◌-◌, String, ◌≡◌, refl, sym, ap, ◌∙◌, false, none, List, [], ◌∷◌, ◌++◌, arith, ◌==◌,
}
use muxcore.Common.Dict.{Dict, lookup, insert, delete}
use muxcore.Common.Keys.{string_key, number_key}
use mathlib.Core.List.{append-nil, append_assoc}
use muxcore.Common.Dict.{delete-insert_new}
use muxcore.Common.Counts.{remove_first, times, times-append, times-remove_first}
use muxcore.Common.Sorted.{
  sort, Sorted, sort-Sorted, remove_first-Sorted, times-sort, Sorted-unique,
}
use muxcore.HashRing.{
  ConsistentHashRing, hashes_from, add_hash, add_hashes, add_to_ring, remove_hash, remove_hashes,
  remove_from_ring,
}

-- The hashes are new to the ring, and differ from each other.
unfoldable pub AreNew : List ℕ → Dict ℕ String → Type 0
AreNew [] m = Unit
AreNew (h ∷ hs) m = (lookup h m ≡ none) × (times h hs ≡ 0) × AreNew hs m

-- The two loops on the map alone.
inserts : String → List ℕ → Dict ℕ String → Dict ℕ String
inserts id [] m = m
inserts id (h ∷ hs) m = inserts id hs (insert h id m)

deletes : List ℕ → Dict ℕ String → Dict ℕ String
deletes [] m = m
deletes (h ∷ hs) m = deletes hs (delete h m)

removes : List ℕ → List ℕ → List ℕ
removes [] l = l
removes (h ∷ hs) l = removes hs (remove_first h l)

hash_ring-add_hashes :
    (id : String) (hs : List ℕ) (r : ConsistentHashRing)
    → add_hashes id hs r
      ≡ record r { hash_ring = inserts id hs r.hash_ring; sorted_hashes = r.sorted_hashes ++ hs }
unfolding add_hashes add_hash inserts
hash_ring-add_hashes id [] r =
    ap (λ (l : List ℕ). record r { sorted_hashes = l }) (sym (append-nil r.sorted_hashes))
hash_ring-add_hashes id (h ∷ hs) r =
    hash_ring-add_hashes id hs (add_hash id h r)
    ∙ ap
        (λ (l : List ℕ). record r {
          hash_ring = inserts id hs (insert h id r.hash_ring);
          sorted_hashes = l;
        })
        (append_assoc r.sorted_hashes (h ∷ []) hs)

remove_hashes-removes :
    (hs : List ℕ) (r : ConsistentHashRing)
    → remove_hashes hs r
      ≡ record r { hash_ring = deletes hs r.hash_ring; sorted_hashes = removes hs r.sorted_hashes }
unfolding remove_hashes remove_hash deletes removes
remove_hashes-removes [] r = refl
remove_hashes-removes (h ∷ hs) r = remove_hashes-removes hs (remove_hash h r)

delete-insert_other :
    (h k : ℕ) (id : String) (m : Dict ℕ String)
    → (k == h) ≡ false
    → delete h (insert k id m) ≡ insert k id (delete h m)
unfolding delete insert
delete-insert_other h k id [] other = ground arith
delete-insert_other h k id ((j, v) ∷ m) other = ground (arith, delete-insert_other h k id m)

delete-inserts :
    (h : ℕ) (id : String) (hs : List ℕ) (m : Dict ℕ String)
    → times h hs ≡ 0
    → delete h (inserts id hs m) ≡ inserts id hs (delete h m)
unfolding inserts times
delete-inserts h id [] m absent = refl
delete-inserts h id (k ∷ hs) m absent =
    delete-inserts h id hs (insert k id m) (omega arith)
    ∙ ap (λ (d : Dict ℕ String). inserts id hs d) (delete-insert_other h k id m (ground arith))

deletes-inserts :
    (id : String) (hs : List ℕ) (m : Dict ℕ String) → AreNew hs m → deletes hs (inserts id hs m) ≡ m
unfolding deletes inserts AreNew
deletes-inserts id [] m fresh = refl
deletes-inserts id (h ∷ hs) m (absent, apart, fresh) =
    ap (λ (d : Dict ℕ String). deletes hs d)
      (delete-inserts h id hs (insert h id m) apart
        ∙ ap (λ (d : Dict ℕ String). inserts id hs d) (delete-insert_new h id m absent))
    ∙ deletes-inserts id hs m fresh

removes-Sorted : (hs l : List ℕ) → Sorted l → Sorted (removes hs l)
unfolding removes
removes-Sorted [] l s = s
removes-Sorted (h ∷ hs) l s = removes-Sorted hs (remove_first h l) (remove_first-Sorted h l s)

times-removes : (x : ℕ) (hs l : List ℕ) → times x (removes hs l) ≡ times x l - times x hs
unfolding removes times
times-removes x [] l = omega arith
times-removes x (h ∷ hs) l =
    ground (arith, times-removes x hs (remove_first h l), times-remove_first x h l)

removes-sort : (hs l : List ℕ) → Sorted l → removes hs (sort (l ++ hs)) ≡ l
removes-sort hs l s =
    Sorted-unique (removes hs (sort (l ++ hs))) l (removes-Sorted hs _ (sort-Sorted (l ++ hs))) s
      (λ x.
        omega
          (arith, times-removes x hs (sort (l ++ hs)), times-sort x (l ++ hs), times-append x l hs))

-- Remove of a node after Add of it leaves the ring as it was, if the ring is sorted and the hashes of the
-- node's replicas are new to it and differ from each other.
pub remove_from_ring-add_to_ring :
    (id : String) (r : ConsistentHashRing)
    → Sorted r.sorted_hashes
    → AreNew (hashes_from id 0 r.replicas) r.hash_ring
    → remove_from_ring id (add_to_ring id r) ≡ r
unfolding remove_from_ring add_to_ring
remove_from_ring-add_to_ring id r s fresh =
    let hs = hashes_from id 0 r.replicas in
    let sorted_again : ConsistentHashRing → ConsistentHashRing =
      λ added. record added { sorted_hashes = sort added.sorted_hashes } in
    ap
      (λ (added : ConsistentHashRing).
        remove_hashes (hashes_from id 0 added.replicas) (sorted_again added))
      (hash_ring-add_hashes id hs r)
    ∙ remove_hashes-removes hs _
    ∙ ap
        (λ (m : Dict ℕ String). record r {
          hash_ring = m;
          sorted_hashes = removes hs (sort (r.sorted_hashes ++ hs));
        })
        (deletes-inserts id hs r.hash_ring fresh)
    ∙ ap (λ (l : List ℕ). record r { sorted_hashes = l }) (removes-sort hs r.sorted_hashes s)
