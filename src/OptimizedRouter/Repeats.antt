-- ===== src/OptimizedRouter/Repeats.antt =====
-- core/router/enhanced_router.go: a request that comes again, over the selection of a node and the cache.
use muxcore.Common.{
  ℕ, ◌+◌, ◌-◌, ◌≤◌, String, ◌≡◌, refl, sym, ap, ◌∙◌, Bool, true, false, Option, none, some, arith,
  if_cases,
}
use muxcore.Common.Dict.{lookup}
use muxcore.Common.Keys.{string_key, number_key}
use muxcore.Common.Floats.{FloatOps}
use muxcore.NodeRouter.{RouteNode}
use muxcore.RequestCache.{RequestCache, get_route, put_route}
use muxcore.RequestCache.Fixed.{get_entry-Fixed}
use muxcore.RequestCache.Lookups.{get_route-put_route}
use muxcore.OptimizedRouter.{
  RouteRequest, RouterConfig, RouteResult, OptimizedRouter, worker_select, note_selected, or_select,
  request_key, process_request,
}
use muxcore.OptimizedRouter.Kept.{worker_select-Selected}

-- The result of a request whose node is in the cache.
abbrev pub hit_answer : {W : Type 0} → ℕ → ℕ → RouteNode W → RouteResult W
hit_answer now later n = record {
  node = some n;
  latency = later - now;
  cache_hit = true;
  error = none;
  timestamp = now;
}

the_same : {W : Type 0} {m n : W} → some m ≡ some n → m ≡ n
the_same h = cc

ttl-get_route :
    {N : Type 0} (now : ℕ) (key : String) (c : RequestCache N) → (get_route now key c).0.ttl ≡ c.ttl
unfolding get_route
ttl-get_route now key c = (get_entry-Fixed (lookup key c.entries) now key c).1

off_and_on : {b : Bool} → b ≡ false → b ≡ true → ⊥
off_and_on off on = cc

module _ {f : FloatOps} where
  process_cached :
      (now later : ℕ) (random : Option f.Carrier) (q : RouteRequest) (r : OptimizedRouter f)
      → r.config.enable_caching ≡ true
      → process_request f now later random q r
        ≡ or_select f now later random q (get_route now (request_key q) r.route_cache) r
  unfolding process_request
  process_cached now later random q r on =
      if_cases
        (λ (p : OptimizedRouter f × RouteResult f.Carrier).
          p ≡ or_select f now later random q (get_route now (request_key q) r.route_cache) r)
        r.config.enable_caching (λ h. refl) (λ off. absurd (off_and_on off on))

  -- The cache holds the node that was selected.
  note_selected-stores :
      (now later : ℕ) (q : RouteRequest) (n : RouteNode f.Carrier)
      (p : OptimizedRouter f × Option (RouteNode f.Carrier))
      → p.0.config.enable_caching ≡ true
      → (note_selected f now later q p).1.node ≡ some n
      → (note_selected f now later q p).0.route_cache
        ≡ put_route later (request_key q) n p.0.route_cache
  unfolding note_selected
  note_selected-stores now later q n (r, none) on selected = cc
  note_selected-stores now later q n (r, some m) on selected =
      if_cases
        (λ (r' : OptimizedRouter f).
          r'.route_cache ≡ put_route later (request_key q) n r.route_cache)
        r.config.enable_caching
        (λ h.
          ap (λ (x : RouteNode f.Carrier). put_route later (request_key q) x r.route_cache)
            (the_same selected))
        (λ off. absurd (off_and_on off on))

  or_select-hit :
      (now later : ℕ) (random : Option f.Carrier) (q : RouteRequest) (n : RouteNode f.Carrier)
      (p : RequestCache (RouteNode f.Carrier) × Option (RouteNode f.Carrier))
      (r : OptimizedRouter f)
      → p.1 ≡ some n
      → (or_select f now later random q p r).1 ≡ hit_answer now later n
  unfolding or_select
  or_select-hit now later random q n (c, none) r found = cc
  or_select-hit now later random q n (c, some m) r found =
      ap (hit_answer now later) (the_same found)

  or_select-miss :
      (now later : ℕ) (random : Option f.Carrier) (q : RouteRequest) (n : RouteNode f.Carrier)
      (p : RequestCache (RouteNode f.Carrier) × Option (RouteNode f.Carrier))
      (r : OptimizedRouter f)
      → r.config.enable_caching ≡ true
      → (or_select f now later random q p r).1.cache_hit ≡ false
      → (or_select f now later random q p r).1.node ≡ some n
      → (or_select f now later random q p r).0.route_cache ≡ put_route later (request_key q) n p.0
  unfolding or_select
  or_select-miss now later random q n (c, some m) r on miss selected = cc
  or_select-miss now later random q n (c, none) r on miss selected =
      let r' = record r { route_cache = c } in
      let kept = worker_select-Selected random q r' in
      note_selected-stores now later q n (worker_select f random q r')
        (ap (λ (s : RouterConfig). s.enable_caching) kept.0.same_config ∙ on) selected
      ∙ ap (put_route later (request_key q) n) kept.1

  -- Where processRequest with caching on has selected a node that it did not find in the cache, processRequest
  -- of a request with the same key gives that node from the cache, without an error, up to the time to
  -- live of the cache, in any router with caching on and with the cache as it was left, whichever
  -- nodes it has.
  pub process_request-again :
      (now later : ℕ) (random : Option f.Carrier) (q : RouteRequest) (r : OptimizedRouter f)
      (n : RouteNode f.Carrier) (now' later' : ℕ) (random' : Option f.Carrier) (q' : RouteRequest)
      (r' : OptimizedRouter f)
      → r.config.enable_caching ≡ true
      → (process_request f now later random q r).1.cache_hit ≡ false
      → (process_request f now later random q r).1.node ≡ some n
      → r'.config.enable_caching ≡ true
      → r'.route_cache ≡ (process_request f now later random q r).0.route_cache
      → request_key q' ≡ request_key q
      → now' ≤ later + r.route_cache.ttl
      → (process_request f now' later' random' q' r').1 ≡ hit_answer now' later' n
  process_request-again now later random q r n now' later' random' q' r' on miss selected on' same
        key fresh =
      let p = process_request f now later random q r in
      let e = process_cached now later random q r on in
      let found = get_route now (request_key q) r.route_cache in
      let stored : p.0.route_cache ≡ put_route later (request_key q) n found.0 =
        ap (λ (x : OptimizedRouter f × RouteResult f.Carrier). x.0.route_cache) e
        ∙ or_select-miss now later random q n found r on
            (ap (λ (x : OptimizedRouter f × RouteResult f.Carrier). x.1.cache_hit) (sym e) ∙ miss)
            (ap (λ (x : OptimizedRouter f × RouteResult f.Carrier). x.1.node) (sym e) ∙ selected) in
      let hit : (get_route now' (request_key q') r'.route_cache).1 ≡ some n =
        ap (λ (k : String). (get_route now' k r'.route_cache).1) key
        ∙ ap (λ (c : RequestCache (RouteNode f.Carrier)). (get_route now' (request_key q) c).1)
            (same ∙ stored)
        ∙ get_route-put_route later now' (request_key q) n found.0
            (omega (arith, fresh, ttl-get_route now (request_key q) r.route_cache)) in
      ap (λ (x : OptimizedRouter f × RouteResult f.Carrier). x.1)
        (process_cached now' later' random' q' r' on')
      ∙ or_select-hit now' later' random' q' n _ r' hit
