-- ===== src/OptimizedRouter/Kept.antt =====
-- core/router/enhanced_router.go: what processRequest of a worker leaves alone.
use muxcore.Common.{ℕ, ◌≡◌, refl, Option, none, some, length, ◌==◌, if_either}
use muxcore.Common.Keys.{string_key, number_key}
use muxcore.Common.Floats.{FloatOps}
use muxcore.NodeRouter.{RouteNode, NodeRouter, Candidate}
use muxcore.NodeRouter.Selection.{select_node}
use muxcore.LoadBalancer.{LoadBalancer, next_node}
use muxcore.RequestCache.{RequestCache, get_route}
use muxcore.OptimizedRouter.{
  RouteRequest, RouteResult, OptimizedRouter, select_balanced, or_balanced, worker_select,
  request_key, note_selected, or_select, process_request,
}

module _ {f : FloatOps} where
  pub record Kept (r r' : OptimizedRouter f) : Type 0 where
    pub same_config : r'.config ≡ r.config
    pub same_workers : r'.workers ≡ r.workers
    pub same_requests : r'.request_queue ≡ r.request_queue
    pub same_results : r'.result_queue ≡ r.result_queue
    pub same_capacity : r'.capacity ≡ r.capacity
    pub same_metrics : r'.metrics ≡ r.metrics

  other_parts-Kept :
      (m : NodeRouter f) (lb : LoadBalancer f.Carrier) (c : RequestCache (RouteNode f.Carrier))
      (r : OptimizedRouter f)
      → Kept r (record r { multidim_router = m; load_balancer = lb; route_cache = c })
  other_parts-Kept m lb c r = record {
    same_config = refl;
    same_workers = refl;
    same_requests = refl;
    same_results = refl;
    same_capacity = refl;
    same_metrics = refl;
  }

  -- What the selection of a node leaves alone: the cache too.
  abbrev pub Selected :
      OptimizedRouter f → OptimizedRouter f × Option (RouteNode f.Carrier) → Type 0
  Selected r p = Kept r p.0 × (p.0.route_cache ≡ r.route_cache)

  select_balanced-Selected :
      (random : Option f.Carrier) (q : RouteRequest) (m : NodeRouter f) (r : OptimizedRouter f)
      → Selected r (select_balanced f random q (record r { multidim_router = m }))
  unfolding select_balanced
  select_balanced-Selected random q m r =
      (other_parts-Kept m (next_node f random q.path r.load_balancer).0 r.route_cache r, refl)

  or_balanced-Selected :
      (p : NodeRouter f × Option (Candidate f.Carrier)) (random : Option f.Carrier)
      (q : RouteRequest) (r : OptimizedRouter f)
      → Selected r (or_balanced f p random q r)
  unfolding or_balanced
  or_balanced-Selected (m, some (id, n)) random q r =
      (other_parts-Kept m r.load_balancer r.route_cache r, refl)
  or_balanced-Selected (m, none) random q r = select_balanced-Selected random q m r

  pub worker_select-Selected :
      (random : Option f.Carrier) (q : RouteRequest) (r : OptimizedRouter f)
      → Selected r (worker_select f random q r)
  unfolding worker_select
  worker_select-Selected random q r =
      if_either (Selected r) (length q.criteria == 0)
        (select_balanced-Selected random q r.multidim_router r)
        (or_balanced-Selected (select_node f q.criteria r.multidim_router) random q r)

  note_selected-Kept :
      (now later : ℕ) (q : RouteRequest) (r : OptimizedRouter f)
      (p : OptimizedRouter f × Option (RouteNode f.Carrier))
      → Kept r p.0
      → Kept r (note_selected f now later q p).0
  unfolding note_selected
  note_selected-Kept now later q r (r', none) k = k
  note_selected-Kept now later q r (r', some n) k =
      if_either (Kept r) r'.config.enable_caching
        (record {
          same_config = k.same_config;
          same_workers = k.same_workers;
          same_requests = k.same_requests;
          same_results = k.same_results;
          same_capacity = k.same_capacity;
          same_metrics = k.same_metrics;
        })
        k

  select_after_miss-Kept :
      (now later : ℕ) (random : Option f.Carrier) (q : RouteRequest)
      (c : RequestCache (RouteNode f.Carrier)) (r : OptimizedRouter f)
      → Kept r
          (note_selected f now later q (worker_select f random q (record r { route_cache = c }))).0
  select_after_miss-Kept now later random q c r =
      let r' = record r { route_cache = c } in
      let k = (worker_select-Selected random q r').0 in
      note_selected-Kept now later q r (worker_select f random q r') (record {
        same_config = k.same_config;
        same_workers = k.same_workers;
        same_requests = k.same_requests;
        same_results = k.same_results;
        same_capacity = k.same_capacity;
        same_metrics = k.same_metrics;
      })

  or_select-Kept :
      (now later : ℕ) (random : Option f.Carrier) (q : RouteRequest)
      (p : RequestCache (RouteNode f.Carrier) × Option (RouteNode f.Carrier))
      (r : OptimizedRouter f)
      → Kept r (or_select f now later random q p r).0
  unfolding or_select
  or_select-Kept now later random q (c, some n) r =
      other_parts-Kept r.multidim_router r.load_balancer c r
  or_select-Kept now later random q (c, none) r = select_after_miss-Kept now later random q c r

  pub process_request-Kept :
      (now later : ℕ) (random : Option f.Carrier) (q : RouteRequest) (r : OptimizedRouter f)
      → Kept r (process_request f now later random q r).0
  unfolding process_request
  process_request-Kept now later random q r =
      if_either (λ (p : OptimizedRouter f × RouteResult f.Carrier). Kept r p.0)
        r.config.enable_caching
        (or_select-Kept now later random q (get_route now (request_key q) r.route_cache) r)
        (note_selected-Kept now later q r (worker_select f random q r)
          (worker_select-Selected random q r).0)
