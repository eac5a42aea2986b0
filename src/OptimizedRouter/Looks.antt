-- ===== src/OptimizedRouter/Looks.antt =====
-- core/router/enhanced_router.go: how often processRequest looks into the cache.
use muxcore.Common.{
  ℕ, ◌+◌, ◌%◌, ◌^◌, ◌≡◌, refl, ap, ◌∙◌, Option, none, some, arith, if_either, if_cases,
}
use muxcore.Common.Counts.{one_if}
use muxcore.Common.Dict.{lookup}
use muxcore.Common.Keys.{string_key, number_key}
use muxcore.Common.Floats.{FloatOps}
use muxcore.NodeRouter.{RouteNode}
use muxcore.RequestCache.{RequestCache, get_route}
use muxcore.RequestCache.Accesses.{accesses, accesses-get_entry, accesses-put_route}
use muxcore.OptimizedRouter.{
  RouteRequest, RouteResult, OptimizedRouter, worker_select, note_selected, or_select, request_key,
  process_request,
}
use muxcore.OptimizedRouter.Kept.{worker_select-Selected}

module _ {f : FloatOps} where
  abbrev pub cache_accesses : OptimizedRouter f → ℕ
  cache_accesses r = accesses r.route_cache

  note_selected_keeps :
      (now later : ℕ) (q : RouteRequest) (p : OptimizedRouter f × Option (RouteNode f.Carrier))
      → cache_accesses (note_selected f now later q p).0 ≡ cache_accesses p.0
  unfolding note_selected
  note_selected_keeps now later q (r, none) = refl
  note_selected_keeps now later q (r, some n) =
      if_either (λ (r' : OptimizedRouter f). cache_accesses r' ≡ cache_accesses r)
        r.config.enable_caching (accesses-put_route later (request_key q) n r.route_cache) refl

  select_keeps :
      (now later : ℕ) (random : Option f.Carrier) (q : RouteRequest) (r : OptimizedRouter f)
      → cache_accesses (note_selected f now later q (worker_select f random q r)).0
        ≡ cache_accesses r
  select_keeps now later random q r =
      note_selected_keeps now later q (worker_select f random q r)
      ∙ ap accesses (worker_select-Selected random q r).1

  or_select_keeps :
      (now later : ℕ) (random : Option f.Carrier) (q : RouteRequest)
      (p : RequestCache (RouteNode f.Carrier) × Option (RouteNode f.Carrier))
      (r : OptimizedRouter f)
      → cache_accesses (or_select f now later random q p r).0 ≡ accesses p.0
  unfolding or_select
  or_select_keeps now later random q (c, some n) r = refl
  or_select_keeps now later random q (c, none) r =
      select_keeps now later random q (record r { route_cache = c })

  pub process_request_looks :
      (now later : ℕ) (random : Option f.Carrier) (q : RouteRequest) (r : OptimizedRouter f)
      → cache_accesses (process_request f now later random q r).0 % 2 ^ 64
        ≡ (cache_accesses r + one_if r.config.enable_caching) % 2 ^ 64
  unfolding process_request get_route
  process_request_looks now later random q r =
      if_cases
        (λ (p : OptimizedRouter f × RouteResult f.Carrier).
          cache_accesses p.0 % 2 ^ 64
          ≡ (cache_accesses r + one_if r.config.enable_caching) % 2 ^ 64)
        r.config.enable_caching
        (λ on.
          let key = request_key q in
          let found = get_route now key r.route_cache in
          omega (
            arith,
            ap one_if on,
            or_select_keeps now later random q found r,
            accesses-get_entry (lookup key r.route_cache.entries) now key r.route_cache,
          ))
        (λ off. omega (arith, ap one_if off, select_keeps now later random q r))
