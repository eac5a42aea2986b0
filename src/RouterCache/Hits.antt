-- ===== src/RouterCache/Hits.antt =====
-- core/router/router_cache.go: what Get finds after Set.
use muxcore.Common.{
  ℕ, ◌+◌, ◌≤◌, String, ◌≡◌, refl, sym, ap, subst, ◌∙◌, ◌≢◌, inl, inr, Bool, true, Option, none,
  some, List, [], ◌∷◌, ◌++◌, arith, ltb, ◌==◌, if◌then◌else◌, length, le→ltb, if_either, if_cases,
}
use muxcore.Common.Dict.{Dict, lookup, insert, lookup-insert}
use muxcore.Common.Keys.{string_key, same_refl}
use muxcore.RouterCache.{
  EvictionPolicy, Value, CacheEntry, RouterCache, make_space, forget_old, store, trim, set_entry,
  set_value, get_found, get_value, is_expired, estimate_size, expiry,
}
use muxcore.RouterCache.Order.{count, entry_at, count-head}
use muxcore.RouterCache.Invariant.{Inv, store-Inv}
use muxcore.RouterCache.Evictions.{List-cases, unlisted}
use muxcore.RouterCache.Space.{evict_oldest-Shrinks, make_space-Shrinks}
use muxcore.RouterCache.Operations.{make_space-Inv}
use muxcore.RouterCache.Limits.{forget_old-Kept, store-Grown}
use muxcore.RouterCache.Kept.{by_order, trim-keeps, without}

-- The entry that Set stores.
abbrev pub new_entry : Value → ℕ → ℕ → RouterCache → CacheEntry
new_entry value ttl now c = record {
  ptr = c.next_ptr;
  value = value;
  expire_time = expiry ttl now c;
  access_time = now;
  hit_count = 0;
  size = estimate_size value;
}

pub append_nonempty :
    (p : ℕ) (rest xs : List ℕ) (q : ℕ) → xs ≡ p ∷ rest → xs ++ q ∷ [] ≡ p ∷ rest ++ q ∷ []
append_nonempty p rest xs q e = ap (λ (l : List ℕ). l ++ q ∷ []) e

-- An old address is not the next one.
old_address :
    (p : ℕ) (rest : List ℕ) (b : RouterCache) → Inv b → b.access_order ≡ p ∷ rest → p ≢ b.next_ptr
old_address p rest b v h = λ same.
    let (k, x, there, at) =
      entry_at p b.entries v.distinct
        (omega (arith, v.listed p, ap (count p) h, count-head p rest)) in
    omega (arith, v.fresh k x there)

-- What store leaves of the rest.
pub store_shape :
    (key : String) (value : Value) (ttl now : ℕ) (c : RouterCache) (old : Option CacheEntry)
    → let s = store key value (expiry ttl now c) now (forget_old old c) in
      (s.entries ≡ insert key (new_entry value ttl now c) c.entries)
      × (s.access_order ≡ (forget_old old c).access_order ++ c.next_ptr ∷ [])
      × (s.eviction_policy ≡ c.eviction_policy)
      × (s.max_size ≡ c.max_size)
unfolding store forget_old
store_shape key value ttl now c none = (refl, refl, refl, refl)
store_shape key value ttl now c (some e) = (refl, refl, refl, refl)

trim_under : (now : ℕ) (c : RouterCache) → length c.entries ≤ c.max_size → trim now c ≡ c
unfolding trim
trim_under now c h = rw (le→ltb c.max_size (length c.entries) h) refl

set_entry-stored :
    (key : String) (value : Value) (ttl now : ℕ) (c : RouterCache)
    → Inv c
    → by_order c.eviction_policy ≡ true
    → 1 ≤ c.max_size
    → lookup key (set_entry key value ttl now c).entries ≡ some (new_entry value ttl now c)
unfolding set_entry
set_entry-stored key value ttl now c v order room =
    let s = store key value (expiry ttl now c) now (forget_old (lookup key c.entries) c) in
    let w = store-Inv key value (expiry ttl now c) now c v in
    let (b, u, same, next, l) = without key c v in
    let (entries, listed, policy, size) = store_shape key value ttl now c (lookup key c.entries) in
    let new = new_entry value ttl now c in
    let found : lookup key s.entries ≡ some new =
      ap (lookup key) entries
      ∙ ground (arith, lookup-insert key key new c.entries, same_refl key) in
    elim (List-cases b.access_order) [
      | inl e ↦
          let none_left = ap (λ (m : Dict String CacheEntry). length m) (unlisted b u e) in
          let one = ap (λ (m : Dict String CacheEntry). length m) entries in
          ap (λ (r : RouterCache). lookup key r.entries) (trim_under now s (omega (arith, l new)))
          ∙ found
      | inr (p, rest, e) ↦
          trim-keeps now p (rest ++ c.next_ptr ∷ []) key new s w (ap by_order policy ∙ order)
            (listed ∙ append_nonempty p rest _ c.next_ptr (sym same ∙ e))
            (λ h. old_address p rest b u e (h ∙ sym next)) found
    ]

settings-kept :
    (now needed : ℕ) (c : RouterCache)
    → Inv c
    → let b = make_space now needed c in
      (b.eviction_policy ≡ c.eviction_policy)
      × (b.max_size ≡ c.max_size)
      × (b.enabled ≡ c.enabled)
      × (b.ttl ≡ c.ttl)
settings-kept now needed c v =
    let same = (make_space-Shrinks now needed c v).0 in
    (
      ap (λ (x : Bool × ℕ × ℕ × EvictionPolicy × ℕ). x.3) same,
      ap (λ (x : Bool × ℕ × ℕ × EvictionPolicy × ℕ). x.1) same,
      ap (λ (x : Bool × ℕ × ℕ × EvictionPolicy × ℕ). x.0) same,
      ap (λ (x : Bool × ℕ × ℕ × EvictionPolicy × ℕ). x.2) same,
    )

-- Get of a live entry gives its value.
get_live :
    (key : String) (now : ℕ) (c : RouterCache) (e : CacheEntry)
    → c.enabled ≡ true
    → lookup key c.entries ≡ some e
    → now ≤ e.expire_time
    → (get_value key now c).1 ≡ some e.value
unfolding get_value get_found
get_live key now c e on found live =
    if_cases (λ (r : RouterCache × Option Value). r.1 ≡ some e.value) c.enabled
      (λ h.
        ap (λ (f : Option CacheEntry). (get_found key f now c).1) found
        ∙ if_cases (λ (r : RouterCache × Option Value). r.1 ≡ some e.value) (is_expired now e)
            (λ over. absurd (ground arith)) (λ fresh. refl))
      (λ off. absurd (cc))

trim-enabled : (now : ℕ) (c : RouterCache) → Inv c → (trim now c).enabled ≡ c.enabled
unfolding trim
trim-enabled now c v =
    if_either (λ (r : RouterCache). r.enabled ≡ c.enabled) (ltb c.max_size (length c.entries))
      (ap (λ (x : Bool × ℕ × ℕ × EvictionPolicy × ℕ). x.0) (evict_oldest-Shrinks now c v).0) refl

set_entry-enabled :
    (key : String) (value : Value) (ttl now : ℕ) (c : RouterCache)
    → Inv c
    → (set_entry key value ttl now c).enabled ≡ c.enabled
unfolding set_entry
set_entry-enabled key value ttl now c v =
    let c' = forget_old (lookup key c.entries) c in
    let same = (store-Grown key value (expiry ttl now c) now c').2 in
    let kept = (forget_old-Kept (lookup key c.entries) c).2 in
    trim-enabled now (store key value (expiry ttl now c) now c')
      (store-Inv key value (expiry ttl now c) now c v)
    ∙ ap (λ (x : Bool × ℕ × ℕ × EvictionPolicy × ℕ). x.0) (same ∙ kept)

-- On a consistent cache that is enabled, has room for an entry and evicts by the list of access
-- (LRU or FIFO), Get of a key at any time up to the expiry that Set has given it, with no call between the two, gives the value that
-- Set was called with, whatever Set had to evict for it.
pub get_value-set_value :
    (key : String) (value : Value) (ttl now later : ℕ) (c : RouterCache)
    → Inv c
    → c.enabled ≡ true
    → by_order c.eviction_policy ≡ true
    → 1 ≤ c.max_size
    → later ≤ expiry ttl now c
    → (get_value key later (set_value key value ttl now c)).1 ≡ some value
unfolding set_value
get_value-set_value key value ttl now later c v on order room live =
    let needed = estimate_size value in
    let b = make_space now needed c in
    let u = make_space-Inv now needed c v in
    let (policy, size, enabled, lives) = settings-kept now needed c v in
    if_cases (λ (r : RouterCache). (get_value key later r).1 ≡ some value) c.enabled
      (λ h.
        get_live key later (set_entry key value ttl now b) (new_entry value ttl now b)
          (set_entry-enabled key value ttl now b u ∙ enabled ∙ on)
          (set_entry-stored key value ttl now b u (ap by_order policy ∙ order) (omega arith))
          (subst (λ (t : ℕ). later ≤ (if ttl == 0 then now + t else now + ttl)) (sym lives) live))
      (λ off. absurd (cc))
