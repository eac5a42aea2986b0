-- ===== src/RequestCache/Fixed.antt =====
-- core/router/enhanced_router.go: what no call of OptimizedRouteCache writes.
use muxcore.Common.{
  ℕ, ◌+◌, ◌%◌, ◌^◌, String, ◌≡◌, refl, ◌∙◌, Option, none, some, [], ◌∷◌, ltb, leb, if◌then◌else◌,
  length, if_either,
}
use muxcore.Common.Dict.{Dict, delete}
use muxcore.Common.Keys.{string_key, number_key}
use muxcore.RequestCache.{
  RouteCacheEntry, RequestCache, get_entry, evict_least_used, evict_key, oldest_key, make_room,
  expired_rounds,
}

module _ {N : Type 0} where
  -- The maximum and the time to live never change.
  abbrev pub Fixed : RequestCache N → RequestCache N → Type 0
  Fixed c c' = (c'.max_size ≡ c.max_size) × (c'.ttl ≡ c.ttl)

  pub make_room-Fixed : (c : RequestCache N) → Fixed c (make_room c)
  unfolding make_room evict_least_used evict_key
  make_room-Fixed c =
      if_either (Fixed c) (leb c.max_size (length c.entries))
        (if_either (Fixed c) (string_key.test (oldest_key "" 0 c.entries) "") (refl, refl)
          (refl, refl))
        (refl, refl)

  pub get_entry-Fixed :
      (o : Option (RouteCacheEntry N)) (now : ℕ) (key : String) (c : RequestCache N)
      → Fixed c (get_entry o now key c).0
  unfolding get_entry
  get_entry-Fixed none now key c = (refl, refl)
  get_entry-Fixed (some e) now key c =
      if_either (λ (p : RequestCache N × Option N). Fixed c p.0) (ltb e.expire_time now)
        (refl, refl) (refl, refl)

  pub expired_rounds-Fixed :
      (now : ℕ) (m : Dict String (RouteCacheEntry N)) (c : RequestCache N)
      → Fixed c (expired_rounds now m c)
  unfolding expired_rounds
  expired_rounds-Fixed now [] c = (refl, refl)
  expired_rounds-Fixed now ((k, e) ∷ m) c =
      let (size, ttl) = expired_rounds-Fixed now m (
        if ltb e.expire_time now
        then record c { entries = delete k c.entries; evictions = (c.evictions + 1) % 2 ^ 64 }
        else c) in
      let (size', ttl') =
        if_either (Fixed c) (ltb e.expire_time now)
          {x = record c { entries = delete k c.entries; evictions = (c.evictions + 1) % 2 ^ 64 }}
          (refl, refl) (refl, refl) in
      (size ∙ size', ttl ∙ ttl')
