-- ===== src/RouterCache/Entries.antt =====
-- core/router/router_cache.go: the entries, their removal, and the four policies of eviction.
use muxcore.Common.{
  ℕ, zero, suc, ◌+◌, ◌-◌, ◌*◌, String, Bool, true, false, not, ◌&&◌, Option, none, some, List, [],
  ◌∷◌, ltb, ◌==◌, if◌then◌else◌, length,
}
use muxcore.Common.Dict.{Dict, lookup, delete}
use muxcore.Common.Keys.{string_key}

pub data EvictionPolicy : Type 0 where
  lru lfu ttl_based fifo : EvictionPolicy

-- The cases of estimateSize.
pub data Value : Type 0 where
  text : List ℕ → Value
  raw : List ℕ → Value
  number : ℕ → Value
  flag : Bool → Value
  other : ℕ → Value

pub record CacheEntry : Type 0 where
  pub ptr : ℕ
  pub value : Value
  pub expire_time : ℕ
  pub access_time : ℕ
  pub hit_count : ℕ
  pub size : ℕ

pub record RouterCache : Type 0 where
  pub enabled : Bool
  pub max_size : ℕ
  pub ttl : ℕ
  pub entries : Dict String CacheEntry
  pub access_order : List ℕ
  pub hits : ℕ
  pub misses : ℕ
  pub evictions : ℕ
  pub stats_size : ℕ
  pub running : Bool
  pub eviction_policy : EvictionPolicy
  pub max_memory_usage : ℕ
  pub current_memory : ℕ
  pub key_of : ℕ → String
  pub next_ptr : ℕ

pub record CacheConfig : Type 0 where
  pub enabled : Bool
  pub ttl : ℕ
  pub max_size : ℕ
  pub eviction_policy : String

abbrev pub hour : ℕ
hour = 3600 * 1000000000

-- The configuration in place of a nil one.
abbrev pub default_config : CacheConfig
default_config = record { enabled = true; ttl = hour; max_size = 10000; eviction_policy = "lru" }

abbrev pub config_or_default : Option CacheConfig → CacheConfig
config_or_default none = default_config
config_or_default (some config) = config

unfoldable pub new_router_cache : Option CacheConfig → RouterCache
new_router_cache config = record {
  enabled = (config_or_default config).enabled;
  max_size = (config_or_default config).max_size;
  ttl = (config_or_default config).ttl;
  entries = [];
  access_order = [];
  hits = 0;
  misses = 0;
  evictions = 0;
  stats_size = 0;
  running = false;
  eviction_policy = lru;
  max_memory_usage = 100 * 1024 * 1024;
  current_memory = 0;
  key_of = λ p. "";
  next_ptr = 0;
}

unfoldable pub start : RouterCache → RouterCache
start c = if c.enabled then record c { running = true } else c

unfoldable pub stop : RouterCache → RouterCache
stop c = record c { running = false }

unfoldable pub estimate_size : Value → ℕ
estimate_size (text s) = length s
estimate_size (raw s) = length s
estimate_size (number n) = 8
estimate_size (flag b) = 1
estimate_size (other n) = 256

-- removeFromAccessOrder: the first occurrence of the address.
unfoldable pub remove_ptr : ℕ → List ℕ → List ℕ
remove_ptr p [] = []
remove_ptr p (q ∷ l) = if q == p then l else q ∷ remove_ptr p l

-- The part of removeEntry behind its lookup.
unfoldable pub drop_entry : String → CacheEntry → RouterCache → RouterCache
unfolding remove_ptr
drop_entry key e c = record c {
  entries = delete key c.entries;
  access_order = remove_ptr e.ptr c.access_order;
  current_memory = c.current_memory - e.size;
  evictions = c.evictions + 1;
}

unfoldable pub remove_entry : String → RouterCache → RouterCache
unfolding drop_entry
remove_entry key c = elim (lookup key c.entries) [ none ↦ c | some e ↦ drop_entry key e c ]

unfoldable pub evict_lru : RouterCache → RouterCache
unfolding remove_entry
evict_lru c = elim c.access_order [ [] ↦ c | p ∷ rest ↦ remove_entry (c.key_of p) c ]

-- The loop of evictLFU, from the least used entry so far.
unfoldable pub least_used_from : String → ℕ → Dict String CacheEntry → String
least_used_from key hits [] = key
least_used_from key hits ((k, e) ∷ m) =
    if ltb e.hit_count hits then least_used_from k e.hit_count m else least_used_from key hits m

unfoldable pub evict_lfu : RouterCache → RouterCache
unfolding remove_entry least_used_from
evict_lfu c = elim c.entries [
  | [] ↦ c
  | ke ∷ m ↦ remove_entry (least_used_from ke.0 ke.1.hit_count m) c
]

-- `now.After(entry.ExpireTime)`
abbrev pub is_expired : ℕ → CacheEntry → Bool
is_expired now e = ltb e.expire_time now

unfoldable pub first_expired : ℕ → Dict String CacheEntry → Option String
first_expired now [] = none
first_expired now ((k, e) ∷ m) = if is_expired now e then some k else first_expired now m

unfoldable pub evict_expired : ℕ → RouterCache → RouterCache
unfolding remove_entry evict_lru first_expired
evict_expired now c = elim (first_expired now c.entries) [
  | some key ↦ remove_entry key c
  | none ↦ evict_lru c
]

unfoldable pub evict_by : EvictionPolicy → ℕ → RouterCache → RouterCache
unfolding evict_lru evict_lfu evict_expired
evict_by lru now c = evict_lru c
evict_by lfu now c = evict_lfu c
evict_by ttl_based now c = evict_expired now c
evict_by fifo now c = evict_lru c

unfoldable pub evict_oldest : ℕ → RouterCache → RouterCache
unfolding evict_by
evict_oldest now c = elim c.access_order [ [] ↦ c | p ∷ rest ↦ evict_by c.eviction_policy now c ]

abbrev pub is_nil {ℓ} : {A : Type ℓ} → List A → Bool
is_nil [] = true
is_nil (x ∷ xs) = false

-- The loop of evictToMakeSpace on fuel; as many rounds as there are entries are enough.
unfoldable pub evict_to_make_space : ℕ → ℕ → ℕ → RouterCache → RouterCache
unfolding evict_oldest
evict_to_make_space zero now needed c = c
evict_to_make_space (suc rounds) now needed c =
    let rest = evict_to_make_space rounds now needed (evict_oldest now c) in
    if ltb c.max_memory_usage (c.current_memory + needed) && not (is_nil c.entries) then rest else c
