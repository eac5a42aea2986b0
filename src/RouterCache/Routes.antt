-- ===== src/RouterCache/Routes.antt =====
-- core/router/router_cache.go: RouteCache, the cache by method and path.
use muxcore.Common.{
  ℕ, String, ◌≡◌, refl, ◌∙◌, Bool, false, ◌&&◌, Option, none, List, [], ◌∷◌, map, arith,
  if◌then◌else◌, Bool-cases, if_cases,
}
use muxcore.Common.Dict.{Dict, lookup}
use muxcore.Common.Keys.{string_key}
use muxcore.RouterCache.{Value, CacheEntry, RouterCache, set_value, get_value, delete_key}
use muxcore.RouterCache.{get_keys}
use muxcore.RouterCache.Cleanup.{among, lookup-remove_entry}
use Prim.Native.String

pub route_key : String → String → String
route_key method path = String.◌++◌ method (String.◌++◌ ":" path)

pub cache_route : String → String → Value → ℕ → RouterCache → RouterCache
unfolding route_key set_value
cache_route method path result now c = set_value (route_key method path) result 0 now c

pub get_cached_route : String → String → ℕ → RouterCache → RouterCache × Option Value
unfolding route_key get_value
get_cached_route method path now c = get_value (route_key method path) now c

pub invalidate_route : String → String → RouterCache → RouterCache
unfolding route_key delete_key
invalidate_route method path c = delete_key (route_key method path) c

-- The loop of InvalidatePattern; `matches` is the answer of filepath.Match, false on an error.
pub invalidate_keys : (String → Bool) → List String → RouterCache → RouterCache
unfolding delete_key
invalidate_keys matches [] c = c
invalidate_keys matches (k ∷ ks) c =
    invalidate_keys matches ks (if matches k then delete_key k c else c)

pub invalidate_pattern : (String → Bool) → RouterCache → RouterCache
unfolding invalidate_keys get_keys
invalidate_pattern matches c = invalidate_keys matches (get_keys c) c

-- One round of the loop.
lookup-invalidate_one :
    (matches : String → Bool) (k j : String) (c : RouterCache)
    → lookup j (if matches k then delete_key k c else c).entries
      ≡ (if string_key.test k j && matches j then none else lookup j c.entries)
unfolding delete_key
lookup-invalidate_one matches k j c =
    if_cases
      (λ (r : RouterCache).
        lookup j r.entries
        ≡ (if string_key.test k j && matches j then none else lookup j c.entries))
      (matches k) (λ hit. ground (arith, lookup-remove_entry k j c, string_key.test_iff k j))
      (λ miss. ground (arith, string_key.test_iff k j))

lookup-invalidate_keys :
    (matches : String → Bool) (ks : List String) (j : String) (c : RouterCache)
    → lookup j (invalidate_keys matches ks c).entries
      ≡ (if among j ks && matches j then none else lookup j c.entries)
unfolding invalidate_keys among
lookup-invalidate_keys matches [] j c = refl
lookup-invalidate_keys matches (k ∷ ks) j c =
    lookup-invalidate_keys matches ks j (if matches k then delete_key k c else c)
    ∙ ground (arith, lookup-invalidate_one matches k j c)

among-get_keys :
    (j : String) (m : Dict String CacheEntry)
    → among j (map (λ (ke : String × CacheEntry). ke.0) m) ≡ false
    → lookup j m ≡ none
unfolding among lookup
among-get_keys j [] h = refl
among-get_keys j ((k, e) ∷ m) h = ground (arith, among-get_keys j m)

-- After InvalidatePattern no key that the pattern matches is in the cache, and every other key has
-- the entry that it had.
pub lookup-invalidate_pattern :
    (matches : String → Bool) (j : String) (c : RouterCache)
    → lookup j (invalidate_pattern matches c).entries
      ≡ (if matches j then none else lookup j c.entries)
unfolding invalidate_pattern get_keys
lookup-invalidate_pattern matches j c = ground (
  arith,
  lookup-invalidate_keys matches (get_keys c) j c,
  among-get_keys j c.entries,
  Bool-cases (among j (get_keys c)),
)
