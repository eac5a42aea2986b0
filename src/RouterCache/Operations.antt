-- ===== src/RouterCache/Operations.antt =====
-- core/router/router_cache.go: the operations, one after the other.
use muxcore.Common.{
  ℕ, ◌+◌, String, ◌≡◌, refl, sym, ◌∙◌, true, Option, none, some, List, [], ◌∷◌, ltb, length,
  if_either,
}
use muxcore.Common.Dict.{lookup}
use muxcore.Common.Keys.{string_key}
use muxcore.RouterCache.{
  CacheConfig, EvictionPolicy, Value, CacheEntry, RouterCache, remove_entry, make_space, forget_old,
  store, trim, set_entry, set_value, get_found, get_value, count_miss, delete_key, clear, cleanup,
  remove_all, expired_keys, update_stats, is_expired, estimate_size, expiry, set_eviction_policy,
  new_router_cache, start, stop,
}
use muxcore.RouterCache.Order.{total_size-nil, count-nil, count_entries-nil}
use muxcore.RouterCache.Invariant.{Inv, remove_entry-Inv, store-Inv, touch-Inv}
use muxcore.RouterCache.Evictions.{evict_oldest-Inv}
use muxcore.RouterCache.Space.{evict_to_make_space-Inv}

pub new_router_cache-Inv : (config : Option CacheConfig) → Inv (new_router_cache config)
unfolding new_router_cache lookup
new_router_cache-Inv config = record {
  distinct = tt;
  listed = λ p. count-nil p ∙ sym (count_entries-nil p);
  keyed = λ k e h. absurd (cc);
  fresh = λ k e h. absurd (cc);
  memory = sym total_size-nil;
}

pub make_space-Inv : (now needed : ℕ) (c : RouterCache) → Inv c → Inv (make_space now needed c)
unfolding make_space
make_space-Inv now needed c v =
    if_either Inv (ltb c.max_memory_usage (c.current_memory + needed))
      (evict_to_make_space-Inv (length c.entries) now needed c v) v

pub trim-Inv : (now : ℕ) (c : RouterCache) → Inv c → Inv (trim now c)
unfolding trim
trim-Inv now c v = if_either Inv (ltb c.max_size (length c.entries)) (evict_oldest-Inv now c v) v

pub set_entry-Inv :
    (key : String) (value : Value) (ttl now : ℕ) (c : RouterCache)
    → Inv c
    → Inv (set_entry key value ttl now c)
unfolding set_entry
set_entry-Inv key value ttl now c v =
    trim-Inv now (store key value (expiry ttl now c) now (forget_old (lookup key c.entries) c))
      (store-Inv key value (expiry ttl now c) now c v)

set_value-Inv :
    (key : String) (value : Value) (ttl now : ℕ) (c : RouterCache)
    → Inv c
    → Inv (set_value key value ttl now c)
unfolding set_value
set_value-Inv key value ttl now c v =
    let needed = estimate_size value in
    if_either Inv c.enabled
      (set_entry-Inv key value ttl now (make_space now needed c) (make_space-Inv now needed c v)) v

count_miss-Inv : (c : RouterCache) → Inv c → Inv (count_miss c)
count_miss-Inv c v = record {
  distinct = v.distinct;
  listed = v.listed;
  keyed = v.keyed;
  fresh = v.fresh;
  memory = v.memory;
}

get_found-Inv :
    (key : String) (found : Option CacheEntry) (now : ℕ) (c : RouterCache)
    → Inv c
    → lookup key c.entries ≡ found
    → Inv (get_found key found now c).0
unfolding get_found
get_found-Inv key none now c v h = count_miss-Inv c v
get_found-Inv key (some e) now c v h =
    if_either (λ (r : RouterCache × Option Value). Inv r.0) (is_expired now e)
      (count_miss-Inv (remove_entry key c) (remove_entry-Inv key c v)) (touch-Inv key e c v h now)

get_value-Inv : (key : String) (now : ℕ) (c : RouterCache) → Inv c → Inv (get_value key now c).0
unfolding get_value
get_value-Inv key now c v =
    if_either (λ (r : RouterCache × Option Value). Inv r.0) c.enabled
      (get_found-Inv key (lookup key c.entries) now c v refl) v

remove_all-Inv : (ks : List String) (c : RouterCache) → Inv c → Inv (remove_all ks c)
unfolding remove_all
remove_all-Inv [] c v = v
remove_all-Inv (k ∷ ks) c v = remove_all-Inv ks (remove_entry k c) (remove_entry-Inv k c v)

-- The operations of the cache.
pub data Call : Type 0 where
  set_call : String → Value → ℕ → Call
  get_call : String → Call
  delete_call : String → Call
  policy_call : EvictionPolicy → Call
  clear_call cleanup_call stats_call start_call stop_call : Call

-- A call at a reading of the clock.
pub call : Call → ℕ → RouterCache → RouterCache
unfolding set_value get_value delete_key set_eviction_policy clear cleanup update_stats start stop
call (set_call key value ttl) now c = set_value key value ttl now c
call (get_call key) now c = (get_value key now c).0
call (delete_call key) now c = delete_key key c
call (policy_call policy) now c = set_eviction_policy policy c
call clear_call now c = clear c
call cleanup_call now c = cleanup now c
call stats_call now c = update_stats c
call start_call now c = start c
call stop_call now c = stop c

unfoldable pub run : List (Call × ℕ) → RouterCache → RouterCache
unfolding call
run [] c = c
run ((o, now) ∷ l) c = run l (call o now c)

-- The statistics, the policy and the like play no part in it.
same-Inv :
    (c c' : RouterCache)
    → Inv c
    → c'.entries ≡ c.entries
    → c'.access_order ≡ c.access_order
    → c'.current_memory ≡ c.current_memory
    → c'.key_of ≡ c.key_of
    → c'.next_ptr ≡ c.next_ptr
    → Inv c'
same-Inv c c' v e a m k n = record {
  distinct = rw e v.distinct;
  listed = rw (e, a) v.listed;
  keyed = rw (e, k) v.keyed;
  fresh = rw (e, n) v.fresh;
  memory = rw (e, m) v.memory;
}

start-Inv : (c : RouterCache) → Inv c → Inv (start c)
unfolding start
start-Inv c v =
    if_either Inv c.enabled (same-Inv c (record c { running = true }) v refl refl refl refl refl) v

call-Inv : (o : Call) (now : ℕ) (c : RouterCache) → Inv c → Inv (call o now c)
unfolding call lookup delete_key set_eviction_policy clear cleanup update_stats stop
call-Inv (set_call key value ttl) now c v = set_value-Inv key value ttl now c v
call-Inv (get_call key) now c v = get_value-Inv key now c v
call-Inv (delete_call key) now c v = remove_entry-Inv key c v
call-Inv (policy_call policy) now c v =
    same-Inv c (set_eviction_policy policy c) v refl refl refl refl refl
call-Inv clear_call now c v = record {
  distinct = tt;
  listed = λ p. count-nil p ∙ sym (count_entries-nil p);
  keyed = λ k e h. absurd (cc);
  fresh = λ k e h. absurd (cc);
  memory = sym total_size-nil;
}
call-Inv cleanup_call now c v = remove_all-Inv (expired_keys now c.entries) c v
call-Inv stats_call now c v = same-Inv c (update_stats c) v refl refl refl refl refl
call-Inv start_call now c v = start-Inv c v
call-Inv stop_call now c v = same-Inv c (stop c) v refl refl refl refl refl

run-Inv : (l : List (Call × ℕ)) (c : RouterCache) → Inv c → Inv (run l c)
unfolding run
run-Inv [] c v = v
run-Inv ((o, now) ∷ l) c v = run-Inv l (call o now c) (call-Inv o now c v)

-- After any calls on a new cache, the keys are distinct, the list of access holds exactly the
-- addresses of the entries of the map, an address gives back the key of its entry, and the recorded
-- memory is the sum of the entries' sizes.
pub reachable-Inv :
    (config : Option CacheConfig) (l : List (Call × ℕ)) → Inv (run l (new_router_cache config))
reachable-Inv config l = run-Inv l (new_router_cache config) (new_router_cache-Inv config)
