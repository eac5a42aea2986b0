-- ===== src/OptimizedRouter/Events.antt =====
-- core/router/enhanced_router.go: RouteRequest, the loop of the workers and the calls that change the router, as
-- events in the order in which they happen. A select with no case ready leaves the state as it is; the channels
-- have room for at least one, as they do when MaxConcurrency is not 0.
use muxcore.Common.{
  ℕ, ◌+◌, ◌%◌, ◌^◌, String, Bool, true, false, Option, none, some, List, [], ◌∷◌, ◌++◌, ltb,
  if◌then◌else◌, length, get_elem?, set,
}
use muxcore.Common.Floats.{FloatOps}
use muxcore.NodeRouter.{RouteNode}
use muxcore.RequestCache.{remove_expired}
use muxcore.OptimizedRouter.{
  RouteRequest, RouterConfig, RouteResult, RouterWorker, OptimizedRouter, start_workers,
  process_request, add_route_node, remove_route_node,
}
use muxcore.OptimizedRouter.Metrics.{update_router_metrics}

-- What an event does to a request.
pub data Outcome (W : Type 0) : Type 0 where
  quiet : Outcome W
  queued : Outcome W
  timed_out : Outcome W
  worked : Bool → Outcome W
  answered : RouteResult W → Outcome W
  dropped : Outcome W

-- A worker that stops while it holds a result drops it.
unfoldable pub loss : {W : Type 0} → Option (RouteResult W) → Outcome W
loss none = quiet
loss (some result) = dropped

module _ (f : FloatOps) where
  pub data RouterEvent : Type 0 where
    start_event stop_event : RouterEvent
    submit_event : RouteRequest → RouterEvent
    take_event : ℕ → ℕ → ℕ → Option f.Carrier → RouterEvent
    give_event : ℕ → RouterEvent
    quit_event : ℕ → RouterEvent
    receive_event : ℕ → RouterEvent
    add_event : RouteNode f.Carrier → RouterEvent
    remove_event : String → RouterEvent
    cleanup_event : ℕ → RouterEvent
    config_event : RouterConfig → RouterEvent

  abbrev Router : Type 0
  Router = OptimizedRouter f

  abbrev After : Type 0
  After = OptimizedRouter f × Outcome f.Carrier

  abbrev put_worker : ℕ → RouterWorker f.Carrier → Router → Router
  put_worker i w r = record r { workers = set r.workers i w }

  -- The first select of RouteRequest.
  unfoldable pub send_request : RouteRequest → Router → After
  send_request q r =
      if ltb (length r.request_queue) r.capacity
      then (record r { request_queue = r.request_queue ++ q ∷ [] }, queued)
      else (r, timed_out)

  unfoldable pub count_error : Option String → ℕ → ℕ
  count_error none n = n
  count_error (some e) n = (n + 1) % 2 ^ 64

  unfoldable pub keep_result : ℕ → RouterWorker f.Carrier → Router × RouteResult f.Carrier → Router
  unfolding count_error
  keep_result i w (r, result) =
      put_worker i
        (record w {
          processed = (w.processed + 1) % 2 ^ 64;
          errors = count_error result.error w.errors;
          held = some result;
        })
        r

  -- A worker takes a request and processes it.
  unfoldable pub take_with :
      ℕ
      → ℕ
      → ℕ
      → Option f.Carrier
      → Bool
      → Option (RouteResult f.Carrier)
      → RouterWorker f.Carrier
      → List RouteRequest
      → Router
      → After
  unfolding keep_result process_request
  take_with i now later random true none w (q ∷ l) r = (
    keep_result i w (process_request f now later random q (record r { request_queue = l })),
    worked r.config.enable_caching,
  )
  take_with i now later random true none w [] r = (r, quiet)
  take_with i now later random true (some result) w l r = (r, quiet)
  take_with i now later random false held w l r = (r, quiet)

  -- A worker sends the result that it holds.
  unfoldable pub give_with :
      ℕ → Bool → Option (RouteResult f.Carrier) → RouterWorker f.Carrier → Router → After
  give_with i true (some result) w r =
      if ltb (length r.result_queue) r.capacity
      then (
        put_worker i (record w { held = none })
            (record r { result_queue = r.result_queue ++ result ∷ [] }),
        quiet,
      )
      else (r, quiet)
  give_with i true none w r = (r, quiet)
  give_with i false held w r = (r, quiet)

  -- A worker sees that its context is done and returns.
  unfoldable pub quit_with : ℕ → Bool → Bool → RouterWorker f.Carrier → Router → After
  unfolding loss
  quit_with i true true w r =
      (put_worker i (record w { held = none; running = false }) r, loss w.held)
  quit_with i true false w r = (r, quiet)
  quit_with i false running w r = (r, quiet)

  -- The second select of RouteRequest.
  unfoldable pub receive_from : ℕ → List (RouteResult f.Carrier) → Router → After
  unfolding update_router_metrics
  receive_from now [] r = (r, timed_out)
  receive_from now (result ∷ l) r =
      (update_router_metrics f now result (record r { result_queue = l }), answered result)

  unfoldable pub by_worker :
      Option (RouterWorker f.Carrier) → (RouterWorker f.Carrier → Router → After) → Router → After
  by_worker none g r = (r, quiet)
  by_worker (some w) g r = g w r

  unfoldable pub step : RouterEvent → Router → After
  unfolding send_request take_with give_with quit_with receive_from by_worker start_workers
      add_route_node remove_route_node remove_expired
  step start_event r = (start_workers f r, quiet)
  step stop_event r = (record r { stopped = true }, quiet)
  step (submit_event q) r = send_request q r
  step (take_event i now later random) r =
      by_worker (get_elem? r.workers i)
        (λ w r'. take_with i now later random w.running w.held w r'.request_queue r') r
  step (give_event i) r =
      by_worker (get_elem? r.workers i) (λ w r'. give_with i w.running w.held w r') r
  step (quit_event i) r =
      by_worker (get_elem? r.workers i) (λ w r'. quit_with i r'.stopped w.running w r') r
  step (receive_event now) r = receive_from now r.result_queue r
  step (add_event n) r = (add_route_node f n r, quiet)
  step (remove_event id) r = (remove_route_node f id r, quiet)
  step (cleanup_event now) r = (record r { route_cache = remove_expired now r.route_cache }, quiet)
  step (config_event config) r = (record r { config = config }, quiet)

  unfoldable pub run_events : List RouterEvent → Router → Router
  unfolding step
  run_events [] r = r
  run_events (e ∷ l) r = run_events l (step e r).0

  unfoldable pub outcomes : List RouterEvent → Router → List (Outcome f.Carrier)
  unfolding step
  outcomes [] r = []
  outcomes (e ∷ l) r = (step e r).1 ∷ outcomes l (step e r).0
