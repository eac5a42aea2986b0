-- ===== src/RouterCache/Lfu.antt =====
-- core/router/router_cache.go: a full cache under the policy LFU.
use muxcore.Common.{
  ℕ, ◌+◌, ◌≤◌, ◌<◌, String, ◌≡◌, refl, ap, ◌∙◌, inl, inr, Bool, true, ◌&&◌, none, some, List, [],
  ◌∷◌, ◌++◌, arith, ltb, Bool-cases, length, lt→ltb, le→ltb, if_either,
}
use muxcore.Common.Dict.{
  Dict, lookup, insert, delete, lookup-insert, delete-insert_new, length-insert_new,
}
use muxcore.Common.Keys.{string_key, same_refl}
use muxcore.RouterCache.{
  EvictionPolicy, lfu, Value, CacheEntry, RouterCache, drop_entry, remove_entry, evict_lfu,
  evict_by, evict_oldest, make_space, forget_old, store, trim, set_entry, set_value, estimate_size,
  expiry, least_used_from,
}
use muxcore.RouterCache.Hits.{store_shape, new_entry}

-- Every entry has been found since it was stored.
unfoldable pub all_hit : Dict String CacheEntry → Bool
all_hit [] = true
all_hit ((k, e) ∷ m) = ltb 0 e.hit_count && all_hit m

least_used_from-insert :
    (first : String) (hits : ℕ) (key : String) (e : CacheEntry) (m : Dict String CacheEntry)
    → lookup key m ≡ none
    → all_hit m ≡ true
    → e.hit_count ≡ 0
    → 0 < hits
    → least_used_from first hits (insert key e m) ≡ key
unfolding least_used_from insert lookup all_hit
least_used_from-insert first hits key e [] absent hit zero_hits h =
    rw (zero_hits, lt→ltb 0 hits h) refl
least_used_from-insert first hits key e ((j, x) ∷ m) absent hit zero_hits h =
    ground (
      arith,
      least_used_from-insert j x.hit_count key e m,
      least_used_from-insert first hits key e m,
    )

evict_lfu-new :
    (key : String) (e : CacheEntry) (m : Dict String CacheEntry) (c : RouterCache)
    → c.entries ≡ insert key e m
    → lookup key m ≡ none
    → all_hit m ≡ true
    → e.hit_count ≡ 0
    → evict_lfu c ≡ remove_entry key c
unfolding evict_lfu insert lookup least_used_from all_hit
evict_lfu-new key e [] c h absent hit zero_hits =
    ap
      (λ (l : Dict String CacheEntry). elim l [
        | [] ↦ c
        | ke ∷ rest ↦ remove_entry (least_used_from ke.0 ke.1.hit_count rest) c
      ])
      h
evict_lfu-new key e ((j, x) ∷ m) c h absent hit zero_hits =
    elim (Bool-cases (string_key.test j key)) [
      | inl same ↦ absurd (ground arith)
      | inr other ↦
          ap
            (λ (l : Dict String CacheEntry). elim l [
              | [] ↦ c
              | ke ∷ rest ↦ remove_entry (least_used_from ke.0 ke.1.hit_count rest) c
            ])
            {y = (j, x) ∷ insert key e m} (h ∙ rw other refl)
          ∙ ap (λ (k : String). remove_entry k c)
              (least_used_from-insert j x.hit_count key e m (ground arith) (ground arith) zero_hits
                (ground arith))
    ]

nonempty_evict :
    (now p : ℕ) (rest : List ℕ) (c : RouterCache)
    → c.access_order ≡ p ∷ rest
    → evict_oldest now c ≡ evict_by c.eviction_policy now c
unfolding evict_oldest
nonempty_evict now p rest c e =
    ap (λ (l : List ℕ). elim l [ [] ↦ c | q ∷ r ↦ evict_by c.eviction_policy now c ]) e

append_some : (xs : List ℕ) (q : ℕ) → (p : ℕ) × (rest : List ℕ) × (xs ++ q ∷ [] ≡ p ∷ rest)
append_some [] q = (q, [], refl)
append_some (x ∷ xs) q = (x, xs ++ q ∷ [], refl)

remove_entry-entries :
    (key : String) (e : CacheEntry) (c : RouterCache)
    → lookup key c.entries ≡ some e
    → (remove_entry key c).entries ≡ delete key c.entries
unfolding remove_entry drop_entry
remove_entry-entries key e c found = rw (found, remove_entry) refl

evict_by-lfu :
    (now : ℕ) (c : RouterCache)
    → c.eviction_policy ≡ lfu
    → evict_by c.eviction_policy now c ≡ evict_lfu c
unfolding evict_by
evict_by-lfu now c e = ap (λ (p : EvictionPolicy). evict_by p now c) e

trim_over :
    (now : ℕ) (c : RouterCache) → c.max_size < length c.entries → trim now c ≡ evict_oldest now c
unfolding trim
trim_over now c h = rw (lt→ltb c.max_size (length c.entries) h) refl

set_entry-rejects :
    (key : String) (value : Value) (ttl now : ℕ) (c : RouterCache)
    → c.eviction_policy ≡ lfu
    → length c.entries ≡ c.max_size
    → all_hit c.entries ≡ true
    → lookup key c.entries ≡ none
    → (set_entry key value ttl now c).entries ≡ c.entries
unfolding set_entry
set_entry-rejects key value ttl now c policy full hit absent =
    let old = forget_old (lookup key c.entries) c in
    let s = store key value (expiry ttl now c) now old in
    let new = new_entry value ttl now c in
    let (entries, listed, same, size) = store_shape key value ttl now c (lookup key c.entries) in
    let one = ap (λ (m : Dict String CacheEntry). length m) entries in
    let grown = length-insert_new key new c.entries absent in
    let (p, rest, some_listed) = append_some old.access_order c.next_ptr in
    let found : lookup key s.entries ≡ some new =
      ap (lookup key) entries
      ∙ ground (arith, lookup-insert key key new c.entries, same_refl key) in
    ap (λ (r : RouterCache). r.entries)
      (trim_over now s (omega arith)
        ∙ nonempty_evict now p rest s (listed ∙ some_listed)
        ∙ evict_by-lfu now s (same ∙ policy)
        ∙ evict_lfu-new key new c.entries s entries absent hit refl)
    ∙ remove_entry-entries key new s found
    ∙ ap (delete key) entries
    ∙ delete-insert_new key new c.entries absent

make_space-roomy :
    (now needed : ℕ) (c : RouterCache)
    → c.current_memory + needed ≤ c.max_memory_usage
    → make_space now needed c ≡ c
unfolding make_space
make_space-roomy now needed c h = rw (le→ltb c.max_memory_usage (c.current_memory + needed) h) refl

-- On a cache under LFU that holds MaxSize entries, each of them found at least once since it was
-- stored, with memory to spare, Set of a key that is not there leaves the entries as they were: the new entry,
-- which has no hit yet, is the one that is evicted for it.
pub set_value-rejects :
    (key : String) (value : Value) (ttl now : ℕ) (c : RouterCache)
    → c.eviction_policy ≡ lfu
    → length c.entries ≡ c.max_size
    → c.current_memory + estimate_size value ≤ c.max_memory_usage
    → all_hit c.entries ≡ true
    → lookup key c.entries ≡ none
    → (set_value key value ttl now c).entries ≡ c.entries
unfolding set_value
set_value-rejects key value ttl now c policy full fits hit absent =
    let needed = estimate_size value in
    if_either (λ (r : RouterCache). r.entries ≡ c.entries) c.enabled
      (ap (λ (b : RouterCache). (set_entry key value ttl now b).entries)
          (make_space-roomy now needed c fits)
        ∙ set_entry-rejects key value ttl now c policy full hit absent)
      refl
