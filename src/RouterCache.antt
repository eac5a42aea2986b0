-- ===== src/RouterCache.antt =====
-- core/router/router_cache.go: the cache of routes. An entry is an object: `ptr` is its address, and
-- `key_of` gives the key of the object at an address, which never changes; the list of access holds
-- addresses. One reading of the clock serves a whole call.
mod Entries
pub mod Order
pub mod Invariant
pub mod Evictions
pub mod Space
pub mod Operations
pub mod Limits
pub mod Kept
pub mod Hits
pub mod Lfu
pub mod Cleanup
pub mod Routes
mod Tests
unfoldable pub use Entries.*
use muxcore.Common.{
  ℕ, ◌+◌, ◌-◌, ◌*◌, String, Option, none, some, List, [], ◌∷◌, ◌++◌, map, ltb, ◌==◌, if◌then◌else◌,
  length,
}
use muxcore.Common.Dict.{Dict, lookup, insert}
use muxcore.Common.Keys.{string_key}

-- The part of Set behind the eviction for memory: an old entry of the key leaves the list of access.
pub forget_old : Option CacheEntry → RouterCache → RouterCache
unfolding remove_ptr
forget_old none c = c
forget_old (some old) c = record c {
  current_memory = c.current_memory - old.size;
  access_order = remove_ptr old.ptr c.access_order;
}

-- The new object is stored in the map and at the end of the list of access.
pub store : String → Value → ℕ → ℕ → RouterCache → RouterCache
unfolding estimate_size
store key value expire now c = record c {
  entries =
      insert key
        (record {
          ptr = c.next_ptr;
          value = value;
          expire_time = expire;
          access_time = now;
          hit_count = 0;
          size = estimate_size value;
        })
        c.entries;
  access_order = c.access_order ++ c.next_ptr ∷ [];
  current_memory = c.current_memory + estimate_size value;
  key_of = λ p. if p == c.next_ptr then key else c.key_of p;
  next_ptr = c.next_ptr + 1;
}

abbrev pub expiry : ℕ → ℕ → RouterCache → ℕ
expiry ttl now c = if ttl == 0 then now + c.ttl else now + ttl

pub make_space : ℕ → ℕ → RouterCache → RouterCache
unfolding evict_to_make_space
make_space now needed c =
    if ltb c.max_memory_usage (c.current_memory + needed)
    then evict_to_make_space (length c.entries) now needed c
    else c

-- `if len(rc.entries) > rc.config.MaxSize { rc.evictOldest() }`
pub trim : ℕ → RouterCache → RouterCache
unfolding evict_oldest
trim now c = if ltb c.max_size (length c.entries) then evict_oldest now c else c

pub set_entry : String → Value → ℕ → ℕ → RouterCache → RouterCache
unfolding forget_old store trim
set_entry key value ttl now c =
    trim now (store key value (expiry ttl now c) now (forget_old (lookup key c.entries) c))

-- Set.
pub set_value : String → Value → ℕ → ℕ → RouterCache → RouterCache
unfolding make_space set_entry
set_value key value ttl now c =
    if c.enabled then set_entry key value ttl now (make_space now (estimate_size value) c) else c

-- Get of a live entry: the entry is updated where it stands, and goes to the end of the list.
pub touch : String → CacheEntry → ℕ → RouterCache → RouterCache
unfolding remove_ptr
touch key e now c = record c {
  entries = insert key (record e { access_time = now; hit_count = e.hit_count + 1 }) c.entries;
  access_order = remove_ptr e.ptr c.access_order ++ e.ptr ∷ [];
  hits = c.hits + 1;
}

abbrev pub count_miss : RouterCache → RouterCache
count_miss c = record c { misses = c.misses + 1 }

pub get_found : String → Option CacheEntry → ℕ → RouterCache → RouterCache × Option Value
unfolding touch remove_entry
get_found key none now c = (count_miss c, none)
get_found key (some e) now c =
    if is_expired now e
    then (count_miss (remove_entry key c), none)
    else (touch key e now c, some e.value)

-- Get.
pub get_value : String → ℕ → RouterCache → RouterCache × Option Value
unfolding get_found
get_value key now c = if c.enabled then get_found key (lookup key c.entries) now c else (c, none)

-- Delete.
pub delete_key : String → RouterCache → RouterCache
unfolding remove_entry
delete_key key c = remove_entry key c

pub clear : RouterCache → RouterCache
clear c = record c {
  entries = [];
  access_order = [];
  current_memory = 0;
  hits = 0;
  misses = 0;
  evictions = 0;
  stats_size = 0;
}

pub set_eviction_policy : EvictionPolicy → RouterCache → RouterCache
set_eviction_policy policy c = record c { eviction_policy = policy }

-- The keys that cleanup collects.
pub expired_keys : ℕ → Dict String CacheEntry → List String
expired_keys now [] = []
expired_keys now ((k, e) ∷ m) =
    let rest = expired_keys now m in if is_expired now e then k ∷ rest else rest

pub remove_all : List String → RouterCache → RouterCache
unfolding remove_entry
remove_all [] c = c
remove_all (k ∷ ks) c = remove_all ks (remove_entry k c)

pub cleanup : ℕ → RouterCache → RouterCache
unfolding remove_all expired_keys
cleanup now c = remove_all (expired_keys now c.entries) c

pub update_stats : RouterCache → RouterCache
update_stats c = record c { stats_size = length c.entries }

pub get_keys : RouterCache → List String
get_keys c = map (λ (ke : String × CacheEntry). ke.0) c.entries

pub record CacheStats : Type 0 where
  pub hits : ℕ
  pub misses : ℕ
  pub evictions : ℕ
  pub size : ℕ
  pub entry_count : ℕ
  -- The quotient that is computed in float64, as its two numbers.
  pub hit_rate : ℕ × ℕ
  pub memory_usage : ℕ

pub get_stats : RouterCache → CacheStats
get_stats c = record {
  hits = c.hits;
  misses = c.misses;
  evictions = c.evictions;
  size = c.stats_size;
  entry_count = length c.entries;
  hit_rate = if ltb 0 (c.hits + c.misses) then (c.hits, c.hits + c.misses) else (0, 1);
  memory_usage = c.current_memory;
}
