-- ===== src/RouterCache/Cleanup.antt =====
-- core/router/router_cache.go: cleanup.
use muxcore.Common.{
  ℕ, String, ◌≡◌, refl, ◌∙◌, inl, inr, Bool, false, ◌||◌, Option, none, some, List, [], ◌∷◌, arith,
  if◌then◌else◌, Option-cases,
}
use muxcore.Common.Dict.{Dict, lookup, Distinct, lookup-delete}
use muxcore.Common.Keys.{string_key}
use muxcore.RouterCache.{
  CacheEntry, RouterCache, drop_entry, remove_entry, cleanup, remove_all, expired_keys, is_expired,
}

pub lookup-remove_entry :
    (k j : String) (c : RouterCache)
    → lookup j (remove_entry k c).entries
      ≡ (if string_key.test k j then none else lookup j c.entries)
unfolding remove_entry drop_entry
lookup-remove_entry k j c = elim (Option-cases (lookup k c.entries)) [
  | inl absent ↦ rw (absent, remove_entry) (ground (arith, string_key.test_iff k j))
  | inr (e, found) ↦ rw (found, remove_entry) (lookup-delete k j c.entries)
]

-- The key is one of those collected.
unfoldable pub among : String → List String → Bool
among j [] = false
among j (k ∷ ks) = string_key.test k j || among j ks

lookup-remove_all :
    (ks : List String) (j : String) (c : RouterCache)
    → lookup j (remove_all ks c).entries ≡ (if among j ks then none else lookup j c.entries)
unfolding remove_all among
lookup-remove_all [] j c = refl
lookup-remove_all (k ∷ ks) j c =
    ground (arith, lookup-remove_all ks j (remove_entry k c), lookup-remove_entry k j c)

-- An entry that is not expired.
pub unexpired : ℕ → Option CacheEntry → Option CacheEntry
unexpired now none = none
unexpired now (some e) = if is_expired now e then none else some e

among-absent :
    (now : ℕ) (j : String) (m : Dict String CacheEntry)
    → lookup j m ≡ none
    → among j (expired_keys now m) ≡ false
unfolding among expired_keys lookup
among-absent now j [] h = refl
among-absent now j ((k, e) ∷ m) h = ground (arith, among-absent now j m)

among-expired_keys :
    (now : ℕ) (j : String) (m : Dict String CacheEntry)
    → Distinct m
    → (if among j (expired_keys now m) then none else lookup j m) ≡ unexpired now (lookup j m)
unfolding among expired_keys lookup unexpired
among-expired_keys now j [] d = refl
among-expired_keys now j ((k, e) ∷ m) d =
    ground (arith, string_key.test_iff k j, among-absent now j m, among-expired_keys now j m d.1)

-- On a cache with distinct keys, cleanup leaves of each key the entry that is not expired at its
-- reading of the clock, as it was, and removes every entry that is.
pub lookup-cleanup :
    (now : ℕ) (j : String) (c : RouterCache)
    → Distinct c.entries
    → lookup j (cleanup now c).entries ≡ unexpired now (lookup j c.entries)
unfolding cleanup
lookup-cleanup now j c d =
    lookup-remove_all (expired_keys now c.entries) j c ∙ among-expired_keys now j c.entries d
