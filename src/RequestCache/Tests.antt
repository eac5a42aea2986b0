-- ===== src/RequestCache/Tests.antt =====
-- Runs of the cache of requests.
use muxcore.Common.{ℕ, ◌≤◌, String, ◌≡◌, refl, false, List, [], ◌∷◌, map, length, All}
use muxcore.Common.Dict.{lookup, insert, delete}
use muxcore.Common.Keys.{string_key, number_key}
use muxcore.RequestCache.{RouteCacheEntry, new_request_cache, generate_key}
use muxcore.RequestCache.Lookups.{
  CacheOp, get_op, put_op, cleanup_op, run, IsKey, request_cache_bounded,
}

ops : List (CacheOp ℕ)
ops = put_op 1 "aa" 7 ∷ put_op 2 "bb" 8 ∷ get_op 3 "aa" ∷ put_op 4 "cc" 9 ∷ cleanup_op 5 ∷ []

ops-keys : All IsKey ops
unfolding ops
ops-keys = (refl, (refl, (refl, (refl, (tt, tt)))))

request_cache_bounded_example : length (run ops (new_request_cache 2 10)).entries ≤ 2
request_cache_bounded_example = request_cache_bounded ops 2 10 ops-keys

-- The entry of "bb" was the least recently used one.
oldest_gone :
    map (λ (e : String × RouteCacheEntry ℕ). e.0) (run ops (new_request_cache 2 10)).entries
    ≡ "aa" ∷ "cc" ∷ []
unfolding run ops new_request_cache lookup insert delete
oldest_gone = refl

order_matters :
    string_key.test
      (generate_key "GET" "/" (("a", "1") ∷ ("b", "2") ∷ []))
      (generate_key "GET" "/" (("b", "2") ∷ ("a", "1") ∷ []))
    ≡ false
unfolding generate_key
order_matters = refl
