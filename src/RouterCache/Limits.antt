-- ===== src/RouterCache/Limits.antt =====
-- core/router/router_cache.go: Set and the limits of memory and of entries.
use muxcore.Common.{
  ℕ, ◌+◌, ◌≤◌, String, ◌≡◌, refl, ap, ◌∙◌, ◌≢◌, inl, inr, Bool, true, false, Option, none, some, [],
  ◌∷◌, arith, ltb, Bool-cases, Option-cases, length, if_either, if_cases,
}
use muxcore.Common.Dict.{Dict, lookup, insert, length-insert_new, length-insert_old}
use muxcore.Common.Keys.{string_key}
use muxcore.RouterCache.{
  EvictionPolicy, Value, CacheEntry, RouterCache, evict_to_make_space, make_space, forget_old,
  store, trim, set_entry, set_value, estimate_size, expiry, is_nil,
}
use muxcore.RouterCache.Order.{total_size, total_size-nil}
use muxcore.RouterCache.Invariant.{Inv, store-Inv}
use muxcore.RouterCache.Space.{
  evict_oldest-length, evict_oldest-Shrinks, settings, make_space-Shrinks, evict_to_make_space-Inv,
  evict_to_make_space-ends, evict_to_make_space-Shrinks, is_due,
}
use muxcore.RouterCache.Operations.{make_space-Inv}

-- The limits of a cache are kept.
abbrev pub Within : RouterCache → Type 0
Within c = (c.current_memory ≤ c.max_memory_usage) × (length c.entries ≤ c.max_size)

total_size-is_nil : (m : Dict String CacheEntry) → is_nil m ≡ true → total_size m ≡ 0
total_size-is_nil [] h = total_size-nil
total_size-is_nil (x ∷ m) h = absurd (cc)

not_due :
    (needed : ℕ) (c : RouterCache)
    → is_due needed c ≡ false
    → is_nil c.entries ≡ false
    → c.current_memory + needed ≤ c.max_memory_usage
not_due needed c h e = ground arith

-- After the eviction there is room for a value that fits into the memory at all.
pub make_space-fits :
    (now needed : ℕ) (c : RouterCache)
    → Inv c
    → needed ≤ c.max_memory_usage
    → (make_space now needed c).current_memory + needed ≤ c.max_memory_usage
unfolding make_space
make_space-fits now needed c v fits =
    if_cases (λ (r : RouterCache). r.current_memory + needed ≤ c.max_memory_usage)
      (ltb c.max_memory_usage (c.current_memory + needed))
      (λ over.
        let c' = evict_to_make_space (length c.entries) now needed c in
        let v' = evict_to_make_space-Inv (length c.entries) now needed c v in
        let (same, n, m, l) = evict_to_make_space-Shrinks (length c.entries) now needed c v in
        let ends = evict_to_make_space-ends (length c.entries) now needed c v (omega arith) in
        let max : c'.max_memory_usage ≡ c.max_memory_usage =
          ap (λ (x : Bool × ℕ × ℕ × EvictionPolicy × ℕ). x.4) same in
        elim (Bool-cases (is_nil c'.entries)) [
          | inl e ↦ omega (arith, v'.memory, total_size-is_nil c'.entries e)
          | inr e ↦ omega (arith, not_due needed c' ends e)
        ])
      (λ under. ground arith)

length-insert_le :
    (key : String) (e : CacheEntry) (m : Dict String CacheEntry)
    → length (insert key e m) ≤ length m + 1
length-insert_le key e m = elim (Option-cases (lookup key m)) [
  | inl absent ↦ omega (arith, length-insert_new key e m absent)
  | inr (x, found) ↦ omega (arith, length-insert_old key e m {w = x} found)
]

pub long_nonempty : (n : ℕ) (m : Dict String CacheEntry) → ltb n (length m) ≡ true → m ≢ []
long_nonempty n [] h = absurd (ground arith)
long_nonempty n (x ∷ m) h = λ e. cc

pub forget_old-Kept :
    (old : Option CacheEntry) (c : RouterCache)
    → ((forget_old old c).entries ≡ c.entries)
      × ((forget_old old c).current_memory ≤ c.current_memory)
      × (settings (forget_old old c) ≡ settings c)
unfolding forget_old
forget_old-Kept none c = (refl, omega arith, refl)
forget_old-Kept (some e) c = (refl, omega arith, refl)

pub store-Grown :
    (key : String) (value : Value) (expire now : ℕ) (c : RouterCache)
    → (length (store key value expire now c).entries ≤ length c.entries + 1)
      × ((store key value expire now c).current_memory ≡ c.current_memory + estimate_size value)
      × (settings (store key value expire now c) ≡ settings c)
unfolding store
store-Grown key value expire now c = (length-insert_le key _ c.entries, refl, refl)

trim-Within :
    (now : ℕ) (c : RouterCache)
    → Inv c
    → c.current_memory ≤ c.max_memory_usage
    → length c.entries ≤ c.max_size + 1
    → Within (trim now c)
unfolding trim
trim-Within now c v memory size =
    if_cases Within (ltb c.max_size (length c.entries))
      (λ over.
        let (same, n, m, l) = evict_oldest-Shrinks now c v in
        let max = ap (λ (x : Bool × ℕ × ℕ × EvictionPolicy × ℕ). x.4) same in
        let slots = ap (λ (x : Bool × ℕ × ℕ × EvictionPolicy × ℕ). x.1) same in
        let one = evict_oldest-length now c v (long_nonempty c.max_size c.entries over) in
        (omega arith, omega arith))
      (λ under. (memory, ground arith))

set_entry-Within :
    (key : String) (value : Value) (ttl now : ℕ) (c : RouterCache)
    → Inv c
    → c.current_memory + estimate_size value ≤ c.max_memory_usage
    → length c.entries ≤ c.max_size
    → Within (set_entry key value ttl now c)
unfolding set_entry
set_entry-Within key value ttl now c v memory size =
    let c' = forget_old (lookup key c.entries) c in
    let (e, m, same) = forget_old-Kept (lookup key c.entries) c in
    let (l, m', same') = store-Grown key value (expiry ttl now c) now c' in
    let max = ap (λ (x : Bool × ℕ × ℕ × EvictionPolicy × ℕ). x.4) (same' ∙ same) in
    let slots = ap (λ (x : Bool × ℕ × ℕ × EvictionPolicy × ℕ). x.1) (same' ∙ same) in
    let kept : length c'.entries ≡ length c.entries =
      ap (λ (l : Dict String CacheEntry). length l) e in
    trim-Within now (store key value (expiry ttl now c) now c')
      (store-Inv key value (expiry ttl now c) now c v) (omega arith) (omega arith)

-- On a consistent cache within its limits, Set of a value that fits into the memory at all leaves
-- a cache within the limits: the recorded memory is at most MaxMemoryUsage and there are at most
-- MaxSize entries, whatever the policy and the clock.
pub set_value-Within :
    (key : String) (value : Value) (ttl now : ℕ) (c : RouterCache)
    → Inv c
    → Within c
    → estimate_size value ≤ c.max_memory_usage
    → Within (set_value key value ttl now c)
unfolding set_value
set_value-Within key value ttl now c v (memory, size) fits =
    let needed = estimate_size value in
    let (same, n, m, l) = make_space-Shrinks now needed c v in
    let max = ap (λ (x : Bool × ℕ × ℕ × EvictionPolicy × ℕ). x.4) same in
    let slots = ap (λ (x : Bool × ℕ × ℕ × EvictionPolicy × ℕ). x.1) same in
    if_either Within c.enabled
      (set_entry-Within key value ttl now (make_space now needed c) (make_space-Inv now needed c v)
        (omega (arith, make_space-fits now needed c v fits)) (omega arith))
      (memory, size)
