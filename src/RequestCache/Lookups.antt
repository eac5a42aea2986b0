-- ===== src/RequestCache/Lookups.antt =====
-- core/router/enhanced_router.go: runs of calls of OptimizedRouteCache, and what Get finds.
use muxcore.Common.{
  ℕ, ◌+◌, ◌-◌, ◌%◌, ◌^◌, ◌≤◌, String, ◌≡◌, refl, sym, ap, subst, ◌∙◌, Bool, true, false, Option,
  none, some, List, [], ◌∷◌, arith, ltb, leb, if◌then◌else◌, length, All, le→ltb, if_either,
  if_cases,
}
use muxcore.Common.Dict.{
  Dict, lookup, insert, delete, Distinct, lookup-insert, delete-Distinct, insert-Distinct,
  length-insert_old,
}
use muxcore.Common.Keys.{string_key, number_key, same_refl}
use muxcore.RequestCache.{
  RouteCacheEntry, RequestCache, new_request_cache, get_entry, get_route, evict_least_used,
  put_route, make_room, store_route, expired_rounds, remove_expired,
}
use muxcore.RequestCache.Fixed.{Fixed, make_room-Fixed, get_entry-Fixed, expired_rounds-Fixed}
use muxcore.RequestCache.Bounds.{
  Inv, Named, insert-Named, delete-Named, length-delete-le, length-insert-le, evict_least_used-Kept,
  length-evict_least_used,
}

pub data CacheOp (N : Type 0) : Type 0 where
  get_op : ℕ → String → CacheOp N
  put_op : ℕ → String → N → CacheOp N
  cleanup_op : ℕ → CacheOp N

room_left :
    (n m size : ℕ)
    → n ≤ (if leb 1 size then size else 1)
    → m ≡ n - 1
    → leb size n ≡ true
    → m + 1 ≤ (if leb 1 size then size else 1)
room_left n m size bound e full = ground arith

room_free : (n size : ℕ) → leb size n ≡ false → n + 1 ≤ (if leb 1 size then size else 1)
room_free n size h = ground arith

module _ {N : Type 0} where
  -- A key that generateKey makes is not empty.
  abbrev pub IsKey : CacheOp N → Type 0
  IsKey (get_op now key) = string_key.test key "" ≡ false
  IsKey (put_op now key node) = string_key.test key "" ≡ false
  IsKey (cleanup_op now) = Unit

  unfoldable pub step : CacheOp N → RequestCache N → RequestCache N
  unfolding get_route put_route remove_expired
  step (get_op now key) c = (get_route now key c).0
  step (put_op now key node) c = put_route now key node c
  step (cleanup_op now) c = remove_expired now c

  unfoldable pub run : List (CacheOp N) → RequestCache N → RequestCache N
  unfolding step
  run [] c = c
  run (o ∷ l) c = run l (step o c)

  get_entry-Inv :
      (o : Option (RouteCacheEntry N)) (now : ℕ) (key : String) (c : RequestCache N)
      → lookup key c.entries ≡ o
      → string_key.test key "" ≡ false
      → Inv c
      → Inv (get_entry o now key c).0
  unfolding get_entry
  get_entry-Inv none now key c found is_key v = record {
    distinct = v.distinct;
    named = v.named;
    bounded = v.bounded;
  }
  get_entry-Inv (some e) now key c found is_key v =
      if_either (λ (p : RequestCache N × Option N). Inv p.0) (ltb e.expire_time now)
        (record { distinct = v.distinct; named = v.named; bounded = v.bounded })
        (record {
          distinct = insert-Distinct key _ c.entries v.distinct;
          named = insert-Named key _ c.entries is_key v.named;
          bounded = omega (
            arith,
            v.bounded,
            length-insert_old key
                (record e { access_time = now; hit_count = (e.hit_count + 1) % 2 ^ 64 }) c.entries
                found,
          );
        })

  -- A cache with a place for one entry more.
  record Roomy (c : RequestCache N) : Type 0 where
    distinct : Distinct c.entries
    named : Named c.entries
    room : length c.entries + 1 ≤ (if leb 1 c.max_size then c.max_size else 1)

  make_room-Roomy : (c : RequestCache N) → Inv c → Roomy (make_room c)
  unfolding make_room
  make_room-Roomy c v =
      let kept = evict_least_used-Kept c v.distinct v.named in
      if_cases Roomy (leb c.max_size (length c.entries))
        (λ full. record {
          distinct = kept.distinct;
          named = kept.named;
          room =
              subst
                (λ (size : ℕ).
                  length (evict_least_used c).entries + 1 ≤ (if leb 1 size then size else 1))
                (sym kept.same_size)
                (room_left (length c.entries) (length (evict_least_used c).entries) c.max_size
                  v.bounded (length-evict_least_used c v.distinct v.named) full);
        })
        (λ free. record {
          distinct = v.distinct;
          named = v.named;
          room = room_free (length c.entries) c.max_size free;
        })

  store_route-Inv :
      (now : ℕ) (key : String) (node : N) (c : RequestCache N)
      → string_key.test key "" ≡ false
      → Roomy c
      → Inv (store_route now key node c)
  unfolding store_route
  store_route-Inv now key node c is_key v =
      let new : RouteCacheEntry N = record {
        node = node;
        expire_time = now + c.ttl;
        access_time = now;
        hit_count = 0;
      } in
      record {
        distinct = insert-Distinct key new c.entries v.distinct;
        named = insert-Named key new c.entries is_key v.named;
        bounded = omega (arith, v.room, length-insert-le key new c.entries);
      }

  expired_rounds-Inv :
      (now : ℕ) (m : Dict String (RouteCacheEntry N)) (c : RequestCache N)
      → Inv c
      → Inv (expired_rounds now m c)
  unfolding expired_rounds
  expired_rounds-Inv now [] c v = v
  expired_rounds-Inv now ((k, e) ∷ m) c v = expired_rounds-Inv now m _ (
      if_either Inv (ltb e.expire_time now)
        {x = record c { entries = delete k c.entries; evictions = (c.evictions + 1) % 2 ^ 64 }}
        (record {
          distinct = delete-Distinct k c.entries v.distinct;
          named = delete-Named k c.entries v.named;
          bounded = omega (arith, v.bounded, length-delete-le k c.entries);
        })
        v)

  step-Inv : (o : CacheOp N) (c : RequestCache N) → IsKey o → Inv c → Inv (step o c)
  unfolding step get_route put_route remove_expired
  step-Inv (get_op now key) c is_key v =
      get_entry-Inv (lookup key c.entries) now key c refl is_key v
  step-Inv (put_op now key node) c is_key v =
      store_route-Inv now key node (make_room c) is_key (make_room-Roomy c v)
  step-Inv (cleanup_op now) c is_key v = expired_rounds-Inv now c.entries c v

  run-Inv-from : (l : List (CacheOp N)) (c : RequestCache N) → All IsKey l → Inv c → Inv (run l c)
  unfolding run
  run-Inv-from [] c keys v = v
  run-Inv-from (o ∷ l) c (key, keys) v = run-Inv-from l (step o c) keys (step-Inv o c key v)

  new_request_cache-Inv : (size ttl : ℕ) → Inv (new_request_cache {N = N} size ttl)
  unfolding new_request_cache lookup
  new_request_cache-Inv size ttl = record { distinct = tt; named = refl; bounded = omega arith }

  step-Fixed : (o : CacheOp N) (c : RequestCache N) → Fixed c (step o c)
  unfolding step get_route put_route store_route remove_expired
  step-Fixed (get_op now key) c = get_entry-Fixed (lookup key c.entries) now key c
  step-Fixed (put_op now key node) c = make_room-Fixed c
  step-Fixed (cleanup_op now) c = expired_rounds-Fixed now c.entries c

  max_size-run : (l : List (CacheOp N)) (c : RequestCache N) → (run l c).max_size ≡ c.max_size
  unfolding run
  max_size-run [] c = refl
  max_size-run (o ∷ l) c = max_size-run l (step o c) ∙ (step-Fixed o c).0

  -- After any run of calls with keys of generateKey on a new cache, the cache holds at most as many entries
  -- as its maximum says, or one if the maximum is 0.
  pub request_cache_bounded :
      (l : List (CacheOp N)) (size ttl : ℕ)
      → All IsKey l
      → length (run l (new_request_cache size ttl)).entries ≤ (if leb 1 size then size else 1)
  unfolding new_request_cache
  request_cache_bounded l size ttl keys =
      subst
        (λ (n : ℕ).
          length (run l (new_request_cache size ttl)).entries ≤ (if leb 1 n then n else 1))
        (max_size-run l (new_request_cache size ttl))
        (run-Inv-from l (new_request_cache size ttl) keys (new_request_cache-Inv size ttl)).bounded

  get_entry-some :
      (e : RouteCacheEntry N) (now : ℕ) (key : String) (c : RequestCache N)
      → now ≤ e.expire_time
      → (get_entry (some e) now key c).1 ≡ some e.node
  unfolding get_entry
  get_entry-some e now key c fresh = rw (le→ltb e.expire_time now fresh) refl

  -- Get of a key gives the node that Put has just stored under it, whatever the cache held and however full
  -- it was, up to the time at which the entry expires.
  pub get_route-put_route :
      (earlier now : ℕ) (key : String) (node : N) (c : RequestCache N)
      → now ≤ earlier + c.ttl
      → (get_route now key (put_route earlier key node c)).1 ≡ some node
  unfolding get_route put_route store_route
  get_route-put_route earlier now key node c fresh =
      let c' = make_room c in
      let new : RouteCacheEntry N = record {
        node = node;
        expire_time = earlier + c'.ttl;
        access_time = earlier;
        hit_count = 0;
      } in
      let after = record c' { entries = insert key new c'.entries } in
      let found : lookup key (insert key new c'.entries) ≡ some new =
        lookup-insert key key new c'.entries
        ∙ ap (λ (t : Bool). if t then some new else lookup key c'.entries) (same_refl key) in
      ap (λ (o : Option (RouteCacheEntry N)). (get_entry o now key after).1) found
      ∙ get_entry-some new now key after (omega (arith, (make_room-Fixed c).1))
