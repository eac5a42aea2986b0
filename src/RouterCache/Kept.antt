-- ===== src/RouterCache/Kept.antt =====
-- core/router/router_cache.go: the entries that an eviction by the list of access leaves.
use muxcore.Common.{
  ℕ, ◌+◌, String, ◌≡◌, refl, ap, ◌∙◌, ◌≢◌, inl, inr, Bool, true, false, some, List, [], ◌∷◌, arith,
  ltb, Option-cases, length, if_either,
}
use muxcore.Common.Dict.{lookup, insert, lookup-delete, length-insert_new, length-insert_old}
use muxcore.Common.Keys.{string_key}
use muxcore.RouterCache.{
  EvictionPolicy, lru, lfu, ttl_based, fifo, CacheEntry, RouterCache, drop_entry, remove_entry,
  evict_lru, evict_by, evict_oldest, forget_old, trim,
}
use muxcore.RouterCache.Order.{count, entry_at, count-head}
use muxcore.RouterCache.Invariant.{Inv, drop_entry-Inv}
use muxcore.RouterCache.Space.{drop_entry-length}

-- Under these policies the head of the list of access is evicted.
unfoldable pub by_order : EvictionPolicy → Bool
by_order lru = true
by_order fifo = true
by_order lfu = false
by_order ttl_based = false

evict_by-by_order :
    (policy : EvictionPolicy) (now : ℕ) (c : RouterCache)
    → by_order policy ≡ true
    → evict_by policy now c ≡ evict_lru c
unfolding evict_by by_order
evict_by-by_order lru now c h = refl
evict_by-by_order fifo now c h = refl
evict_by-by_order lfu now c h = absurd (cc)
evict_by-by_order ttl_based now c h = absurd (cc)

evict_oldest-by_order :
    (now p : ℕ) (rest : List ℕ) (c : RouterCache)
    → by_order c.eviction_policy ≡ true
    → c.access_order ≡ p ∷ rest
    → evict_oldest now c ≡ remove_entry (c.key_of p) c
unfolding evict_oldest evict_lru
evict_oldest-by_order now p rest c h e =
    ap (λ (l : List ℕ). elim l [ [] ↦ c | q ∷ r ↦ evict_by c.eviction_policy now c ]) e
    ∙ evict_by-by_order c.eviction_policy now c h
    ∙ ap (λ (l : List ℕ). elim l [ [] ↦ c | q ∷ r ↦ remove_entry (c.key_of q) c ]) e

drop_entry-other :
    (k key : String) (e x : CacheEntry) (c : RouterCache)
    → k ≢ key
    → lookup key c.entries ≡ some e
    → lookup key (drop_entry k x c).entries ≡ some e
unfolding drop_entry
drop_entry-other k key e x c differ found =
    ground (arith, lookup-delete k key c.entries, string_key.test_iff k key)

remove_entry-other :
    (k key : String) (e : CacheEntry) (c : RouterCache)
    → Inv c
    → k ≢ key
    → lookup key c.entries ≡ some e
    → lookup key (remove_entry k c).entries ≡ some e
unfolding remove_entry
remove_entry-other k key e c v differ found = elim (Option-cases (lookup k c.entries)) [
  | inl absent ↦ rw (absent, remove_entry) found
  | inr (x, h) ↦ rw (h, remove_entry) (drop_entry-other k key e x c differ found)
]

other_key :
    (p : ℕ) (rest : List ℕ) (key : String) (e : CacheEntry) (c : RouterCache)
    → Inv c
    → c.access_order ≡ p ∷ rest
    → p ≢ e.ptr
    → lookup key c.entries ≡ some e
    → c.key_of p ≢ key
other_key p rest key e c v h differ found = λ same.
    let (k, x, there, at) =
      entry_at p c.entries v.distinct
        (omega (arith, v.listed p, ap (count p) h, count-head p rest)) in
    let keyed = v.keyed k x there in differ (cc)

-- The head of the list of access is not evicted for a key whose address is not there.
pub trim-keeps :
    (now p : ℕ) (rest : List ℕ) (key : String) (e : CacheEntry) (c : RouterCache)
    → Inv c
    → by_order c.eviction_policy ≡ true
    → c.access_order ≡ p ∷ rest
    → p ≢ e.ptr
    → lookup key c.entries ≡ some e
    → lookup key (trim now c).entries ≡ some e
unfolding trim
trim-keeps now p rest key e c v order h differ found =
    if_either (λ (r : RouterCache). lookup key r.entries ≡ some e)
      (ltb c.max_size (length c.entries))
      (rw (evict_oldest-by_order now p rest c order h) (
        remove_entry-other (c.key_of p) key e c v (other_key p rest key e c v h differ found)
          found))
      found

-- The cache without the old entry of a key.
pub without :
    (key : String) (c : RouterCache)
    → Inv c
    → (b : RouterCache) × Inv b
      × (b.access_order ≡ (forget_old (lookup key c.entries) c).access_order)
      × (b.next_ptr ≡ c.next_ptr)
      × ((e : CacheEntry) → length (insert key e c.entries) ≡ length b.entries + 1)
unfolding forget_old drop_entry
without key c v = elim (Option-cases (lookup key c.entries)) [
  | inl absent ↦ (c, v, rw absent refl, refl, λ e. length-insert_new key e c.entries absent)
  | inr (x, found) ↦ (
    drop_entry key x c,
    drop_entry-Inv key x c v found,
    rw found refl,
    refl,
    λ e.
        omega (
          arith,
          length-insert_old key e c.entries {w = x} found,
          drop_entry-length key x c v found,
        ),
  )
]
