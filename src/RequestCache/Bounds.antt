-- ===== src/RequestCache/Bounds.antt =====
-- core/router/enhanced_router.go: the size of OptimizedRouteCache.
use muxcore.Common.{
  ℕ, ◌+◌, ◌-◌, ◌≤◌, ◌<◌, String, ◌≡◌, refl, sym, ap, ◌∙◌, ◌⊎◌, inl, inr, false, ◌||◌, Option, none,
  some, [], ◌∷◌, arith, ltb, leb, if◌then◌else◌, Bool-cases, length, ltb→lt, if_either, if_cases,
}
use muxcore.Common.Dict.{
  Dict, lookup, insert, delete, Distinct, lookup-insert, lookup-delete, delete-Distinct,
  length-delete,
}
use muxcore.Common.Keys.{string_key, number_key}
use muxcore.RequestCache.{RouteCacheEntry, RequestCache, oldest_key, evict_key, evict_least_used}

module _ {N : Type 0} where
  -- The key of no entry is empty, as a hash in hexadecimal is not.
  abbrev pub Named : Dict String (RouteCacheEntry N) → Type 0
  Named m = lookup "" m ≡ none

  pub record Inv (c : RequestCache N) : Type 0 where
    pub distinct : Distinct c.entries
    pub named : Named c.entries
    pub bounded : length c.entries ≤ (if leb 1 c.max_size then c.max_size else 1)

  pub insert-Named :
      (k : String) (e : RouteCacheEntry N) (m : Dict String (RouteCacheEntry N))
      → string_key.test k "" ≡ false
      → Named m
      → Named (insert k e m)
  insert-Named k e m other h = lookup-insert k "" e m ∙ rw other h

  pub delete-Named :
      (k : String) (m : Dict String (RouteCacheEntry N)) → Named m → Named (delete k m)
  delete-Named k m h =
      lookup-delete k "" m
      ∙ if_either (λ (o : Option (RouteCacheEntry N)). o ≡ none) (string_key.test k "") refl h

  pub length-delete-le :
      (k : String) (m : Dict String (RouteCacheEntry N)) → length (delete k m) ≤ length m
  unfolding delete
  length-delete-le k [] = omega arith
  length-delete-le k ((j, e) ∷ m) = ground (arith, length-delete-le k m)

  pub length-insert-le :
      (k : String) (e : RouteCacheEntry N) (m : Dict String (RouteCacheEntry N))
      → length (insert k e m) ≤ length m + 1
  unfolding insert
  length-insert-le k e [] = omega arith
  length-insert-le k e ((j, d) ∷ m) = ground (arith, length-insert-le k e m)

  Present : String → Dict String (RouteCacheEntry N) → Type 0
  Present key m = (e : RouteCacheEntry N) × (lookup key m ≡ some e)

  Present-cons :
      (k key : String) (e : RouteCacheEntry N) (m : Dict String (RouteCacheEntry N))
      → lookup k m ≡ none
      → Present key m
      → Present key ((k, e) ∷ m)
  unfolding Present lookup
  Present-cons k key e m absent (d, found) = elim (Bool-cases (string_key.test k key)) [
    | inl same ↦
        let moved = ap (λ (j : String). lookup j m) ((string_key.test_iff k key).0 same) in
        absurd (cc)
    | inr other ↦ (d, rw other found)
  ]

  Present-head :
      (k key : String) (e : RouteCacheEntry N) (m : Dict String (RouteCacheEntry N))
      → key ≡ k
      → Present key ((k, e) ∷ m)
  unfolding Present lookup
  Present-head k key e m same = (e, rw ((string_key.test_iff k key).1 (sym same)) refl)

  -- The loop ends with its start or with a key of the map.
  oldest_key-Present :
      (best : String) (time : ℕ) (m : Dict String (RouteCacheEntry N))
      → Distinct m
      → (oldest_key best time m ≡ best) ⊎ Present (oldest_key best time m) m
  unfolding oldest_key
  oldest_key-Present best time [] d = inl refl
  oldest_key-Present best time ((k, e) ∷ m) (absent, d) =
      if_either (λ (key : String). (key ≡ best) ⊎ Present key ((k, e) ∷ m))
        (string_key.test best "" || ltb e.access_time time)
        (elim (oldest_key-Present k e.access_time m d) [
          | inl here ↦ inr (Present-head k (oldest_key k e.access_time m) e m here)
          | inr later ↦ inr (Present-cons k (oldest_key k e.access_time m) e m absent later)
        ])
        (elim (oldest_key-Present best time m d) [
          | inl start ↦ inl start
          | inr later ↦ inr (Present-cons k (oldest_key best time m) e m absent later)
        ])

  oldest_key_found :
      (m : Dict String (RouteCacheEntry N))
      → Distinct m
      → 0 < length m
      → Present (oldest_key "" 0 m) m
  unfolding oldest_key
  oldest_key_found [] d h = absurd (omega arith)
  oldest_key_found ((k, e) ∷ m) (absent, d) h = elim (oldest_key-Present k e.access_time m d) [
    | inl here ↦ Present-head k (oldest_key k e.access_time m) e m here
    | inr later ↦ Present-cons k (oldest_key k e.access_time m) e m absent later
  ]

  length-evict_key :
      (key : String) (c : RequestCache N)
      → Distinct c.entries
      → Named c.entries
      → Present key c.entries
      → length (evict_key key c).entries + 1 ≡ length c.entries
  unfolding evict_key Present
  length-evict_key key c d named (e, found) =
      if_cases (λ (c' : RequestCache N). length c'.entries + 1 ≡ length c.entries)
        (string_key.test key "")
        (λ none_yet.
          let moved =
            ap (λ (j : String). lookup j c.entries) ((string_key.test_iff key "").0 none_yet) in
          absurd (cc))
        (λ _. length-delete key c.entries d found)

  -- What every call keeps, whatever the size is.
  pub record Kept (c c' : RequestCache N) : Type 0 where
    pub distinct : Distinct c'.entries
    pub named : Named c'.entries
    pub same_size : c'.max_size ≡ c.max_size
    pub no_longer : length c'.entries ≤ length c.entries

  evict_key-Kept :
      (key : String) (c : RequestCache N)
      → Distinct c.entries
      → Named c.entries
      → Kept c (evict_key key c)
  unfolding evict_key
  evict_key-Kept key c d named =
      if_either (Kept c) (string_key.test key "")
        (record { distinct = d; named = named; same_size = refl; no_longer = omega arith })
        (record {
          distinct = delete-Distinct key c.entries d;
          named = delete-Named key c.entries named;
          same_size = refl;
          no_longer = length-delete-le key c.entries;
        })

  pub evict_least_used-Kept :
      (c : RequestCache N) → Distinct c.entries → Named c.entries → Kept c (evict_least_used c)
  unfolding evict_least_used
  evict_least_used-Kept c d named = evict_key-Kept (oldest_key "" 0 c.entries) c d named

  pub length-evict_least_used :
      (c : RequestCache N)
      → Distinct c.entries
      → Named c.entries
      → length (evict_least_used c).entries ≡ length c.entries - 1
  unfolding evict_least_used
  length-evict_least_used c d named = elim (Bool-cases (ltb 0 (length c.entries))) [
    | inl more ↦ omega (
      arith,
      length-evict_key (oldest_key "" 0 c.entries) c d named
          (oldest_key_found c.entries d (ltb→lt 0 (length c.entries) more)),
    )
    | inr empty ↦ omega (
      arith,
      (evict_key-Kept (oldest_key "" 0 c.entries) c d named).no_longer,
      ltb_false (length c.entries) empty,
    )
  ]
    where
      ltb_false : (n : ℕ) → ltb 0 n ≡ false → n ≡ 0
      ltb_false n h = ground arith
