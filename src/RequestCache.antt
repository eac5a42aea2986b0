-- ===== src/RequestCache.antt =====
-- core/router/enhanced_router.go: OptimizedRouteCache. A node is a value of the type N; times are nanoseconds.
-- The criteria are walked in the order of their list.
pub mod Accesses
pub mod Bounds
pub mod Fixed
pub mod Lookups
mod Tests
use muxcore.Common.{
  ℕ, ◌+◌, ◌%◌, ◌^◌, String, ◌||◌, Option, none, some, [], ◌∷◌, ltb, leb, if◌then◌else◌, length,
}
use muxcore.Common.Dict.{Dict, lookup, insert, delete}
use muxcore.Common.Keys.{string_key, number_key}
use muxcore.Common.Text.{utf8, sum64a_from, hex}

pub record RouteCacheEntry (N : Type 0) : Type 0 where
  pub node : N
  pub expire_time : ℕ
  pub access_time : ℕ
  pub hit_count : ℕ

pub record RequestCache (N : Type 0) : Type 0 where
  pub entries : Dict String (RouteCacheEntry N)
  pub max_size : ℕ
  pub ttl : ℕ
  pub hits : ℕ
  pub misses : ℕ
  pub evictions : ℕ

-- The bytes of the criteria behind a sum.
unfoldable pub criteria_sum : ℕ → Dict String String → ℕ
unfolding sum64a_from utf8
criteria_sum h [] = h
criteria_sum h ((k, v) ∷ m) = criteria_sum (sum64a_from (sum64a_from h (utf8 k)) (utf8 v)) m

-- generateKey.
unfoldable pub generate_key : String → String → Dict String String → String
unfolding criteria_sum hex
generate_key method path criteria =
    let start = sum64a_from 14695981039346656037 (utf8 method) in
    hex 15 (criteria_sum (sum64a_from start (utf8 path)) criteria)

module _ {N : Type 0} where
  unfoldable pub new_request_cache : ℕ → ℕ → RequestCache N
  new_request_cache max_size ttl = record {
    entries = [];
    max_size = max_size;
    ttl = ttl;
    hits = 0;
    misses = 0;
    evictions = 0;
  }

  unfoldable pub get_entry :
      Option (RouteCacheEntry N) → ℕ → String → RequestCache N → RequestCache N × Option N
  get_entry none now key c = (record c { misses = (c.misses + 1) % 2 ^ 64 }, none)
  get_entry (some e) now key c =
      if ltb e.expire_time now then (record c { misses = (c.misses + 1) % 2 ^ 64 }, none) else (
        record c {
          entries =
              insert key (record e { access_time = now; hit_count = (e.hit_count + 1) % 2 ^ 64 })
                c.entries;
          hits = (c.hits + 1) % 2 ^ 64;
        },
        some e.node,
      )

  -- Get, of the key that generateKey makes.
  unfoldable pub get_route : ℕ → String → RequestCache N → RequestCache N × Option N
  unfolding get_entry
  get_route now key c = get_entry (lookup key c.entries) now key c

  -- The loop of evictLRU; "" stands for no key yet.
  unfoldable pub oldest_key : String → ℕ → Dict String (RouteCacheEntry N) → String
  oldest_key best time [] = best
  oldest_key best time ((k, e) ∷ m) =
      let here = oldest_key k e.access_time m in
      let there = oldest_key best time m in
      if string_key.test best "" || ltb e.access_time time then here else there

  unfoldable pub evict_key : String → RequestCache N → RequestCache N
  evict_key key c =
      if string_key.test key ""
      then c
      else record c { entries = delete key c.entries; evictions = (c.evictions + 1) % 2 ^ 64 }

  -- evictLRU.
  unfoldable pub evict_least_used : RequestCache N → RequestCache N
  unfolding oldest_key evict_key
  evict_least_used c = evict_key (oldest_key "" 0 c.entries) c

  unfoldable pub make_room : RequestCache N → RequestCache N
  unfolding evict_least_used
  make_room c = if leb c.max_size (length c.entries) then evict_least_used c else c

  unfoldable pub store_route : ℕ → String → N → RequestCache N → RequestCache N
  store_route now key node c = record c {
    entries =
        insert key
          (record { node = node; expire_time = now + c.ttl; access_time = now; hit_count = 0 })
          c.entries;
  }

  -- Put.
  unfoldable pub put_route : ℕ → String → N → RequestCache N → RequestCache N
  unfolding make_room store_route
  put_route now key node c = store_route now key node (make_room c)

  unfoldable pub expired_rounds :
      ℕ → Dict String (RouteCacheEntry N) → RequestCache N → RequestCache N
  expired_rounds now [] c = c
  expired_rounds now ((k, e) ∷ m) c = expired_rounds now m (
      if ltb e.expire_time now
      then record c { entries = delete k c.entries; evictions = (c.evictions + 1) % 2 ^ 64 }
      else c)

  -- Cleanup.
  unfoldable pub remove_expired : ℕ → RequestCache N → RequestCache N
  unfolding expired_rounds
  remove_expired now c = expired_rounds now c.entries c
