-- ===== src/RouterCache/Evictions.antt =====
-- core/router/router_cache.go: the evictions of the four policies, and their loop.
use muxcore.Common.{
  ℕ, String, ◌≡◌, refl, sym, ap, ◌∙◌, ◌≢◌, ◌⊎◌, inl, inr, some, List, [], ◌∷◌, arith, ltb,
  Bool-cases, Option-cases,
}
use muxcore.Common.Dict.{Dict, lookup}
use muxcore.Common.Keys.{string_key, same_refl}
use muxcore.RouterCache.{
  EvictionPolicy, lru, lfu, ttl_based, fifo, CacheEntry, RouterCache, drop_entry, remove_entry,
  evict_lru, evict_lfu, evict_expired, evict_by, evict_oldest, is_expired, first_expired,
  least_used_from,
}
use muxcore.RouterCache.Order.{
  count, count_entries, entry_at, count-head, count-nil, count_entries-nil, count_entries-head,
}
use muxcore.RouterCache.Invariant.{Inv, drop_entry-Inv}

pub List-cases {ℓ} : {A : Type ℓ} (l : List A) → (l ≡ []) ⊎ ((x : A) × (r : List A) × (l ≡ x ∷ r))
List-cases [] = inl refl
List-cases (x ∷ r) = inr (x, r, refl)

-- `c'` is `c` without one entry that it had.
abbrev pub Drops : RouterCache → RouterCache → Type 0
Drops c c' =
    (key : String) × (e : CacheEntry) × (lookup key c.entries ≡ some e) × (c' ≡ drop_entry key e c)

remove_entry-Drops :
    (key : String) (e : CacheEntry) (c : RouterCache)
    → lookup key c.entries ≡ some e
    → Drops c (remove_entry key c)
unfolding remove_entry
remove_entry-Drops key e c found = (key, e, found, rw (found, remove_entry))

-- The head of the list of access is the address of an entry.
head-Drops :
    (p : ℕ) (rest : List ℕ) (c : RouterCache)
    → Inv c
    → c.access_order ≡ p ∷ rest
    → Drops c (remove_entry (c.key_of p) c)
head-Drops p rest c v e =
    let (k, x, found, same) =
      entry_at p c.entries v.distinct
        (omega (arith, v.listed p, ap (count p) e, count-head p rest)) in
    let key : c.key_of p ≡ k = ap c.key_of (sym same) ∙ v.keyed k x found in
    rw key (remove_entry-Drops k x c found)

evict_lru-Drops :
    (p : ℕ) (rest : List ℕ) (c : RouterCache)
    → Inv c
    → c.access_order ≡ p ∷ rest
    → Drops c (evict_lru c)
unfolding evict_lru
evict_lru-Drops p rest c v e =
    let same : evict_lru c ≡ remove_entry (c.key_of p) c =
      ap (λ (l : List ℕ). elim l [ [] ↦ c | q ∷ r ↦ remove_entry (c.key_of q) c ]) e in
    rw same (head-Drops p rest c v e)

lookup-cons :
    (k r : String) (e x : CacheEntry) (m : Dict String CacheEntry)
    → lookup r m ≡ some x
    → (y : CacheEntry) × (lookup r ((k, e) ∷ m) ≡ some y)
unfolding lookup
lookup-cons k r e x m h = elim (Bool-cases (string_key.test k r)) [
  | inl same ↦ (e, rw same)
  | inr other ↦ (x, rw other h)
]

-- A key that is the first one or stands in the rest stands in the map.
found_below :
    (k : String) (e : CacheEntry) (m : Dict String CacheEntry) {r : String}
    → (r ≡ k) ⊎ ((x : CacheEntry) × (lookup r m ≡ some x))
    → (y : CacheEntry) × (lookup r ((k, e) ∷ m) ≡ some y)
unfolding lookup
found_below k e m (inl same) = (e, rw (same, same_refl k))
found_below k e m {r} (inr (x, h)) = lookup-cons k r e x m h

later :
    (key k : String) (e : CacheEntry) (m : Dict String CacheEntry) {r : String}
    → (r ≡ key) ⊎ ((x : CacheEntry) × (lookup r m ≡ some x))
    → (r ≡ key) ⊎ ((y : CacheEntry) × (lookup r ((k, e) ∷ m) ≡ some y))
later key k e m (inl same) = inl same
later key k e m {r} (inr (x, h)) = inr (lookup-cons k r e x m h)

least_used_from_found :
    (key : String) (hits : ℕ) (m : Dict String CacheEntry)
    → (least_used_from key hits m ≡ key)
      ⊎ ((x : CacheEntry) × (lookup (least_used_from key hits m) m ≡ some x))
unfolding least_used_from
least_used_from_found key hits [] = inl refl
least_used_from_found key hits ((k, e) ∷ m) = elim (Bool-cases (ltb e.hit_count hits)) [
  | inl less ↦ rw less (inr (found_below k e m (least_used_from_found k e.hit_count m)))
  | inr more ↦ rw more (later key k e m (least_used_from_found key hits m))
]

evict_lfu-Drops :
    (k : String) (e : CacheEntry) (m : Dict String CacheEntry) (c : RouterCache)
    → c.entries ≡ (k, e) ∷ m
    → Drops c (evict_lfu c)
unfolding evict_lfu
evict_lfu-Drops k e m c h =
    let key = least_used_from k e.hit_count m in
    let same : evict_lfu c ≡ remove_entry key c =
      ap
        (λ (l : Dict String CacheEntry). elim l [
          | [] ↦ c
          | ke ∷ rest ↦ remove_entry (least_used_from ke.0 ke.1.hit_count rest) c
        ])
        h in
    let (x, found) = found_below k e m (least_used_from_found k e.hit_count m) in
    rw same (remove_entry-Drops key x c (ap (lookup key) h ∙ found))

first_expired_found :
    (now : ℕ) (m : Dict String CacheEntry) (key : String)
    → first_expired now m ≡ some key
    → (x : CacheEntry) × (lookup key m ≡ some x)
unfolding first_expired
first_expired_found now [] key h = absurd (cc)
first_expired_found now ((k, e) ∷ m) key h = elim (Bool-cases (is_expired now e)) [
  | inl over ↦ found_below k e m (inl (ground arith))
  | inr live ↦ found_below k e m (inr (first_expired_found now m key (ground arith)))
]

evict_expired-Drops :
    (now p : ℕ) (rest : List ℕ) (c : RouterCache)
    → Inv c
    → c.access_order ≡ p ∷ rest
    → Drops c (evict_expired now c)
unfolding evict_expired
evict_expired-Drops now p rest c v e = elim (Option-cases (first_expired now c.entries)) [
  | inl live ↦ rw (live, evict_expired) (evict_lru-Drops p rest c v e)
  | inr (key, over) ↦
      let (x, found) = first_expired_found now c.entries key over in
      rw (over, evict_expired) (remove_entry-Drops key x c found)
]

-- A map with an entry has an address in the list of access.
entries_nonempty :
    (p : ℕ) (rest : List ℕ) (c : RouterCache)
    → Inv c
    → c.access_order ≡ p ∷ rest
    → (k : String) × (e : CacheEntry) × (m : Dict String CacheEntry) × (c.entries ≡ (k, e) ∷ m)
entries_nonempty p rest c v e = elim (List-cases c.entries) [
  | inl none_left ↦ absurd (
      omega (
        arith,
        v.listed p,
        ap (count p) e,
        count-head p rest,
        ap (count_entries p) none_left,
        count_entries-nil p,
      ))
  | inr ((k, x), m, h) ↦ (k, x, m, h)
]

evict_by-Drops :
    (policy : EvictionPolicy) (now p : ℕ) (rest : List ℕ) (c : RouterCache)
    → Inv c
    → c.access_order ≡ p ∷ rest
    → Drops c (evict_by policy now c)
unfolding evict_by
evict_by-Drops lru now p rest c v e = evict_lru-Drops p rest c v e
evict_by-Drops fifo now p rest c v e = evict_lru-Drops p rest c v e
evict_by-Drops ttl_based now p rest c v e = evict_expired-Drops now p rest c v e
evict_by-Drops lfu now p rest c v e =
    let (k, x, m, h) = entries_nonempty p rest c v e in evict_lfu-Drops k x m c h

-- With no address in the list of access, the map is empty.
pub unlisted : (c : RouterCache) → Inv c → c.access_order ≡ [] → c.entries ≡ []
unlisted c v e = elim (List-cases c.entries) [
  | inl none_left ↦ none_left
  | inr ((k, x), m, h) ↦ absurd (
      omega (
        arith,
        v.listed x.ptr,
        ap (count x.ptr) e,
        count-nil x.ptr,
        ap (count_entries x.ptr) h,
        count_entries-head k x m,
      ))
]

-- With entries in the map, an eviction removes one of them, whatever the policy.
pub evict_oldest-Drops :
    (now : ℕ) (c : RouterCache) → Inv c → c.entries ≢ [] → Drops c (evict_oldest now c)
unfolding evict_oldest
evict_oldest-Drops now c v some_left = elim (List-cases c.access_order) [
  | inl e ↦ absurd (some_left (unlisted c v e))
  | inr (p, rest, e) ↦
      let same : evict_oldest now c ≡ evict_by c.eviction_policy now c =
        ap (λ (l : List ℕ). elim l [ [] ↦ c | q ∷ r ↦ evict_by c.eviction_policy now c ]) e in
      rw same (evict_by-Drops c.eviction_policy now p rest c v e)
]

-- With none, it does nothing.
pub evict_oldest-empty :
    (now : ℕ) (c : RouterCache) → Inv c → c.entries ≡ [] → evict_oldest now c ≡ c
unfolding evict_oldest
evict_oldest-empty now c v e = elim (List-cases c.access_order) [
  | inl h ↦ ap (λ (l : List ℕ). elim l [ [] ↦ c | q ∷ r ↦ evict_by c.eviction_policy now c ]) h
  | inr (p, rest, h) ↦ absurd (
      omega (
        arith,
        v.listed p,
        ap (count p) h,
        count-head p rest,
        ap (count_entries p) e,
        count_entries-nil p,
      ))
]

pub evict_oldest-Inv : (now : ℕ) (c : RouterCache) → Inv c → Inv (evict_oldest now c)
evict_oldest-Inv now c v = elim (List-cases c.entries) [
  | inl e ↦ rw (evict_oldest-empty now c v e) v
  | inr (x, m, e) ↦
      let (k, y, found, same) = evict_oldest-Drops now c v (λ h. cc) in
      rw same (drop_entry-Inv k y c v found)
]
