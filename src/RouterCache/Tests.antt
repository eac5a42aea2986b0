-- ===== src/RouterCache/Tests.antt =====
-- Runs of the cache of routes.
use muxcore.Common.{
  ℕ, ◌+◌, ◌≤◌, ◌≡◌, refl, true, Option, none, some, List, [], ◌∷◌, ◌++◌, arith, length,
}
use muxcore.Common.Dict.{lookup, insert, delete}
use muxcore.Common.Keys.{string_key}
use muxcore.RouterCache.{
  CacheConfig, text, number, flag, lfu, RouterCache, set_value, get_value, estimate_size, expiry,
  new_router_cache,
}
use muxcore.RouterCache.Invariant.{Inv}
use muxcore.RouterCache.Operations.{Call, set_call, get_call, policy_call, run, reachable-Inv}
use muxcore.RouterCache.Limits.{set_value-Within, Within}
use muxcore.RouterCache.Hits.{get_value-set_value}
use muxcore.RouterCache.Kept.{by_order}
use muxcore.RouterCache.Lfu.{all_hit}

abbrev small : Option CacheConfig
small = some (record { enabled = true; ttl = 100; max_size = 2; eviction_policy = "lru" })

abbrev two_sets : List (Call × ℕ)
two_sets = (set_call "a" (number 1) 0, 1) ∷ (set_call "b" (text (104 ∷ 105 ∷ [])) 5, 2) ∷ []

abbrev two_hits : List (Call × ℕ)
two_hits = two_sets ++ (get_call "a", 3) ∷ (get_call "b", 4) ∷ (policy_call lfu, 5) ∷ []

reachable-Inv_example : Inv (run two_hits (new_router_cache small))
reachable-Inv_example = reachable-Inv small two_hits

-- The cache after two_sets, and after two_hits.
abbrev full : RouterCache
full = run two_sets (new_router_cache small)

abbrev full_lfu : RouterCache
full_lfu = run two_hits (new_router_cache small)

full-Within : Within full
unfolding run lookup insert delete new_router_cache
full-Within = (omega arith, omega arith)

full_settings :
    (full.enabled ≡ true)
    × (by_order full.eviction_policy ≡ true)
    × (1 ≤ full.max_size)
    × (1 ≤ full.max_memory_usage)
    × (50 ≤ expiry 0 9 full)
unfolding run lookup insert delete new_router_cache by_order
full_settings = (refl, refl, omega arith, omega arith, omega arith)

set_value-Within_example : Within (set_value "c" (flag true) 0 9 full)
set_value-Within_example =
    set_value-Within "c" (flag true) 0 9 full (reachable-Inv small two_sets) full-Within
      (unfold estimate_size in full_settings.3)

get_value-set_value_example :
    (get_value "c" 50 (set_value "c" (flag true) 0 9 full)).1 ≡ some (flag true)
get_value-set_value_example =
    get_value-set_value "c" (flag true) 0 9 50 full (reachable-Inv small two_sets) full_settings.0
      full_settings.1 full_settings.2 full_settings.4

full_lfu_state :
    (full_lfu.eviction_policy ≡ lfu)
    × (length full_lfu.entries ≡ full_lfu.max_size)
    × (full_lfu.current_memory + estimate_size (flag true) ≤ full_lfu.max_memory_usage)
    × (all_hit full_lfu.entries ≡ true)
    × (lookup "c" full_lfu.entries ≡ none)
unfolding run lookup insert delete new_router_cache estimate_size all_hit
full_lfu_state = (refl, refl, omega arith, refl, refl)
