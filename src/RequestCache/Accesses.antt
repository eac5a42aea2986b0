-- ===== src/RequestCache/Accesses.antt =====
-- core/router/enhanced_router.go: the counters of hits and misses of OptimizedRouteCache.
use muxcore.Common.{
  ℕ, ◌+◌, ◌%◌, ◌^◌, String, ◌≡◌, refl, ◌∙◌, Option, none, some, [], ◌∷◌, arith, ltb, leb,
  if◌then◌else◌, length, if_either,
}
use muxcore.Common.Dict.{Dict, delete}
use muxcore.Common.Keys.{string_key, number_key}
use muxcore.RequestCache.{
  RouteCacheEntry, RequestCache, get_entry, evict_least_used, evict_key, oldest_key, make_room,
  put_route, store_route, expired_rounds, remove_expired,
}

module _ {N : Type 0} where
  abbrev pub accesses : RequestCache N → ℕ
  accesses c = c.hits + c.misses

  pub accesses-get_entry :
      (o : Option (RouteCacheEntry N)) (now : ℕ) (key : String) (c : RequestCache N)
      → accesses (get_entry o now key c).0 % 2 ^ 64 ≡ (accesses c + 1) % 2 ^ 64
  unfolding get_entry
  accesses-get_entry none now key c = omega arith
  accesses-get_entry (some e) now key c =
      if_either
        (λ (p : RequestCache N × Option N). accesses p.0 % 2 ^ 64 ≡ (accesses c + 1) % 2 ^ 64)
        (ltb e.expire_time now) (omega arith) (omega arith)

  pub accesses-put_route :
      (now : ℕ) (key : String) (node : N) (c : RequestCache N)
      → accesses (put_route now key node c) ≡ accesses c
  unfolding put_route store_route make_room evict_least_used evict_key
  accesses-put_route now key node c =
      if_either (λ (c' : RequestCache N). accesses c' ≡ accesses c)
        (leb c.max_size (length c.entries))
        (if_either (λ (c' : RequestCache N). accesses c' ≡ accesses c)
          (string_key.test (oldest_key "" 0 c.entries) "") refl refl)
        refl

  expired_rounds_keep :
      (now : ℕ) (m : Dict String (RouteCacheEntry N)) (c : RequestCache N)
      → accesses (expired_rounds now m c) ≡ accesses c
  unfolding expired_rounds
  expired_rounds_keep now [] c = refl
  expired_rounds_keep now ((k, e) ∷ m) c =
      expired_rounds_keep now m (
        if ltb e.expire_time now
        then record c { entries = delete k c.entries; evictions = (c.evictions + 1) % 2 ^ 64 }
        else c)
      ∙ if_either (λ (c' : RequestCache N). accesses c' ≡ accesses c) (ltb e.expire_time now)
          {x = record c { entries = delete k c.entries; evictions = (c.evictions + 1) % 2 ^ 64 }}
          refl refl

  pub accesses-remove_expired :
      (now : ℕ) (c : RequestCache N) → accesses (remove_expired now c) ≡ accesses c
  unfolding remove_expired
  accesses-remove_expired now c = expired_rounds_keep now c.entries c
