-- ===== src/RouterCache/Space.antt =====
-- core/router/router_cache.go: the loop of evictToMakeSpace, and what it leaves as it was.
use muxcore.Common.{
  ℕ, zero, suc, ◌+◌, ◌≤◌, String, ◌≡◌, refl, ◌∙◌, ◌≢◌, inl, inr, Bool, true, false, not, ◌&&◌, some,
  [], ◌∷◌, arith, ltb, Bool-cases, length, if_either,
}
use muxcore.Common.Dict.{Dict, lookup, length-delete}
use muxcore.Common.Keys.{string_key}
use muxcore.RouterCache.{
  EvictionPolicy, CacheEntry, RouterCache, drop_entry, evict_oldest, evict_to_make_space,
  make_space, is_nil,
}
use muxcore.RouterCache.Invariant.{Inv}
use muxcore.RouterCache.Evictions.{
  List-cases, evict_oldest-Drops, evict_oldest-Inv, evict_oldest-empty,
}

-- The next round of the loop of evictToMakeSpace is due.
abbrev pub is_due : ℕ → RouterCache → Bool
is_due needed c = ltb c.max_memory_usage (c.current_memory + needed) && not (is_nil c.entries)

pub drop_entry-length :
    (key : String) (e : CacheEntry) (c : RouterCache)
    → Inv c
    → lookup key c.entries ≡ some e
    → length (drop_entry key e c).entries + 1 ≡ length c.entries
unfolding drop_entry
drop_entry-length key e c v found = length-delete key c.entries {w = e} v.distinct found

-- What the keeper of the cache has set.
abbrev pub settings : RouterCache → Bool × ℕ × ℕ × EvictionPolicy × ℕ
settings c = (c.enabled, c.max_size, c.ttl, c.eviction_policy, c.max_memory_usage)

-- It is kept, no address is given anew, and the memory does not grow.
abbrev pub Shrinks : RouterCache → RouterCache → Type 0
Shrinks c c' =
    (settings c' ≡ settings c)
    × (c'.next_ptr ≡ c.next_ptr)
    × (c'.current_memory ≤ c.current_memory)
    × (length c'.entries ≤ length c.entries)

Shrinks-refl : (c : RouterCache) → Shrinks c c
Shrinks-refl c = (refl, refl, omega arith, omega arith)

drop_entry-Shrinks :
    (key : String) (e : CacheEntry) (c : RouterCache)
    → Inv c
    → lookup key c.entries ≡ some e
    → Shrinks c (drop_entry key e c)
unfolding drop_entry
drop_entry-Shrinks key e c v found =
    (refl, refl, omega arith, omega (arith, length-delete key c.entries {w = e} v.distinct found))

pub not_nil : (m : Dict String CacheEntry) → not (is_nil m) ≡ true → m ≢ []
not_nil [] h = cc
not_nil (x ∷ m) h = λ e. cc

pub evict_oldest-length :
    (now : ℕ) (c : RouterCache)
    → Inv c
    → c.entries ≢ []
    → length (evict_oldest now c).entries + 1 ≡ length c.entries
evict_oldest-length now c v some_left =
    let (k, y, found, same) = evict_oldest-Drops now c v some_left in
    rw same (drop_entry-length k y c v found)

pub evict_oldest-Shrinks : (now : ℕ) (c : RouterCache) → Inv c → Shrinks c (evict_oldest now c)
evict_oldest-Shrinks now c v = elim (List-cases c.entries) [
  | inl e ↦ rw (evict_oldest-empty now c v e) (Shrinks-refl c)
  | inr (x, m, e) ↦
      let (k, y, found, same) = evict_oldest-Drops now c v (λ h. cc) in
      rw same (drop_entry-Shrinks k y c v found)
]

pub evict_to_make_space-Inv :
    (rounds now needed : ℕ) (c : RouterCache)
    → Inv c
    → Inv (evict_to_make_space rounds now needed c)
unfolding evict_to_make_space
evict_to_make_space-Inv zero now needed c v = v
evict_to_make_space-Inv (suc rounds) now needed c v = elim (Bool-cases (is_due needed c)) [
  | inl due ↦
      rw due
        (evict_to_make_space-Inv rounds now needed (evict_oldest now c) (evict_oldest-Inv now c v))
  | inr over ↦ rw over v
]

nil_when_empty : (m : Dict String CacheEntry) → length m ≤ 0 → is_nil m ≡ true
nil_when_empty [] h = refl
nil_when_empty (x ∷ m) h = absurd (omega arith)

and_false : (b : Bool) → (b && false) ≡ false
and_false true = refl
and_false false = refl

due_nonempty : (needed : ℕ) (c : RouterCache) → is_due needed c ≡ true → c.entries ≢ []
due_nonempty needed c due = not_nil c.entries (ground arith)

-- With as many rounds as entries the loop ends by its own test.
pub evict_to_make_space-ends :
    (rounds now needed : ℕ) (c : RouterCache)
    → Inv c
    → length c.entries ≤ rounds
    → is_due needed (evict_to_make_space rounds now needed c) ≡ false
unfolding evict_to_make_space
evict_to_make_space-ends zero now needed c v enough =
    rw (nil_when_empty c.entries enough)
      (and_false (ltb c.max_memory_usage (c.current_memory + needed)))
evict_to_make_space-ends (suc rounds) now needed c v enough = elim (Bool-cases (is_due needed c)) [
  | inl due ↦ rw due (
      evict_to_make_space-ends rounds now needed (evict_oldest now c) (evict_oldest-Inv now c v)
        (omega (arith, evict_oldest-length now c v (due_nonempty needed c due))))
  | inr over ↦ rw over over
]

Shrinks-trans : (a b c : RouterCache) → Shrinks a b → Shrinks b c → Shrinks a c
Shrinks-trans a b c (s, n, m, l) (s', n', m', l') = (s' ∙ s, n' ∙ n, omega arith, omega arith)

pub evict_to_make_space-Shrinks :
    (rounds now needed : ℕ) (c : RouterCache)
    → Inv c
    → Shrinks c (evict_to_make_space rounds now needed c)
unfolding evict_to_make_space
evict_to_make_space-Shrinks zero now needed c v = Shrinks-refl c
evict_to_make_space-Shrinks (suc rounds) now needed c v =
    let c' = evict_oldest now c in
    if_either (Shrinks c) (is_due needed c)
      (Shrinks-trans c c' (evict_to_make_space rounds now needed c') (evict_oldest-Shrinks now c v)
        (evict_to_make_space-Shrinks rounds now needed c' (evict_oldest-Inv now c v)))
      (Shrinks-refl c)

pub make_space-Shrinks :
    (now needed : ℕ) (c : RouterCache) → Inv c → Shrinks c (make_space now needed c)
unfolding make_space
make_space-Shrinks now needed c v =
    if_either (Shrinks c) (ltb c.max_memory_usage (c.current_memory + needed))
      (evict_to_make_space-Shrinks (length c.entries) now needed c v) (Shrinks-refl c)
