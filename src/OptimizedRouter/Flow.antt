-- ===== src/OptimizedRouter/Flow.antt =====
-- core/router/enhanced_router.go: what becomes of the requests that RouteRequest puts into the channel.
use muxcore.Common.{
  ℕ, zero, suc, ◌+◌, ◌%◌, ◌^◌, ◌≡◌, refl, ap, ◌∙◌, Bool, true, false, Option, none, some, List, [],
  ◌∷◌, arith, ltb, length, get_elem?, replicate, length-append, if_either,
}
use muxcore.Common.Counts.{one_if, total, total-append, total-set}
use muxcore.Common.Floats.{FloatOps}
use muxcore.OptimizedRouter.{
  RouteRequest, RouteResult, RouterWorker, OptimizedRouter, create_worker, start_workers,
  add_route_node, remove_route_node, process_request,
}
use muxcore.OptimizedRouter.Events.{
  Outcome, quiet, queued, timed_out, worked, answered, dropped, RouterEvent, start_event,
  stop_event, submit_event, take_event, give_event, quit_event, receive_event, add_event,
  remove_event, cleanup_event, config_event, send_request, count_error, keep_result, take_with,
  give_with, quit_with, loss, receive_from, by_worker, step, run_events, outcomes,
}
use muxcore.OptimizedRouter.Metrics.{update_router_metrics}
use muxcore.OptimizedRouter.Kept.{process_request-Kept}

module _ {W : Type 0} where
  abbrev pub tally : (Outcome W → Bool) → List (Outcome W) → ℕ
  tally test [] = 0
  tally test (o ∷ l) = one_if (test o) + tally test l

  abbrev pub is_queued : Outcome W → Bool
  is_queued queued = true
  is_queued quiet = false
  is_queued timed_out = false
  is_queued (worked b) = false
  is_queued (answered a) = false
  is_queued dropped = false

  -- The request has left the router, with an answer or without.
  abbrev pub is_over : Outcome W → Bool
  is_over queued = false
  is_over quiet = false
  is_over timed_out = false
  is_over (worked b) = false
  is_over (answered a) = true
  is_over dropped = true

  abbrev pub one_held : Option (RouteResult W) → ℕ
  one_held none = 0
  one_held (some result) = 1

  abbrev pub held_in : RouterWorker W → ℕ
  held_in w = one_held w.held

  abbrev pub busy : List (RouterWorker W) → ℕ
  busy l = total held_in l

  held_or_lost :
      (o : Option (RouteResult W))
      → (one_if (is_queued (loss o)) ≡ 0) × (one_held o ≡ one_if (is_over (loss o)))
  unfolding loss
  held_or_lost none = (refl, refl)
  held_or_lost (some result) = (refl, refl)

busy-replicate : (W : Type 0) (n : ℕ) → busy (replicate n (create_worker {W = W})) ≡ 0
unfolding create_worker
busy-replicate W zero = refl
busy-replicate W (suc n) = omega (arith, busy-replicate W n)

module _ {f : FloatOps} where
  -- The requests that wait, that a worker has processed, and that wait as results.
  abbrev pub in_flight : OptimizedRouter f → ℕ
  in_flight r = length r.request_queue + busy r.workers + length r.result_queue

  -- A request that comes in or goes out is all that changes their number.
  abbrev Balanced : OptimizedRouter f → OptimizedRouter f × Outcome f.Carrier → Type 0
  Balanced r (r', o) = one_if (is_queued o) + in_flight r ≡ one_if (is_over o) + in_flight r'

  send_request-Balanced :
      (q : RouteRequest) (r : OptimizedRouter f) → Balanced r (send_request f q r)
  unfolding send_request
  send_request-Balanced q r =
      if_either (Balanced r) (ltb (length r.request_queue) r.capacity)
        (omega (arith, length-append r.request_queue (q ∷ []))) refl

  take_with-Balanced :
      (i now later : ℕ) (random : Option f.Carrier) (running : Bool)
      (held : Option (RouteResult f.Carrier)) (w : RouterWorker f.Carrier) (l : List RouteRequest)
      (r : OptimizedRouter f)
      → get_elem? r.workers i ≡ some w
      → w.held ≡ held
      → r.request_queue ≡ l
      → Balanced r (take_with f i now later random running held w l r)
  unfolding take_with keep_result
  take_with-Balanced i now later random true none w (q ∷ l) r at idle waiting =
      let before = record r { request_queue = l } in
      let p = process_request f now later random q before in
      let k = process_request-Kept now later random q before in
      let w' = record w {
        processed = (w.processed + 1) % 2 ^ 64;
        errors = count_error f p.1.error w.errors;
        held = some p.1;
      } in
      omega (
        arith,
        ap length waiting,
        ap length k.same_requests,
        ap length k.same_results,
        ap one_held idle,
        ap busy k.same_workers,
        total-set held_in p.0.workers i w w'
            (ap (λ (s : List (RouterWorker f.Carrier)). get_elem? s i) k.same_workers ∙ at),
      )
  take_with-Balanced i now later random true none w [] r at idle waiting = refl
  take_with-Balanced i now later random true (some result) w l r at idle waiting = refl
  take_with-Balanced i now later random false held w l r at idle waiting = refl

  give_with-Balanced :
      (i : ℕ) (running : Bool) (held : Option (RouteResult f.Carrier)) (w : RouterWorker f.Carrier)
      (r : OptimizedRouter f)
      → get_elem? r.workers i ≡ some w
      → w.held ≡ held
      → Balanced r (give_with f i running held w r)
  unfolding give_with
  give_with-Balanced i true (some result) w r at holds =
      if_either (Balanced r) (ltb (length r.result_queue) r.capacity)
        (omega (
          arith,
          length-append r.result_queue (result ∷ []),
          ap one_held holds,
          total-set held_in r.workers i w (record w { held = none }) at,
        ))
        refl
  give_with-Balanced i true none w r at holds = refl
  give_with-Balanced i false held w r at holds = refl

  quit_with-Balanced :
      (i : ℕ) (stopped running : Bool) (w : RouterWorker f.Carrier) (r : OptimizedRouter f)
      → get_elem? r.workers i ≡ some w
      → Balanced r (quit_with f i stopped running w r)
  unfolding quit_with
  quit_with-Balanced i true true w r at = omega (
    arith,
    held_or_lost w.held,
    total-set held_in r.workers i w (record w { held = none; running = false }) at,
  )
  quit_with-Balanced i true false w r at = refl
  quit_with-Balanced i false running w r at = refl

  receive_from-Balanced :
      (now : ℕ) (l : List (RouteResult f.Carrier)) (r : OptimizedRouter f)
      → r.result_queue ≡ l
      → Balanced r (receive_from f now l r)
  unfolding receive_from update_router_metrics
  receive_from-Balanced now [] r waiting = refl
  receive_from-Balanced now (result ∷ l) r waiting = omega (arith, ap length waiting)

  by_worker-Balanced :
      (o : Option (RouterWorker f.Carrier))
      (g : RouterWorker f.Carrier → OptimizedRouter f → OptimizedRouter f × Outcome f.Carrier)
      (r : OptimizedRouter f)
      → ((w : RouterWorker f.Carrier) → o ≡ some w → Balanced r (g w r))
      → Balanced r (by_worker f o g r)
  unfolding by_worker
  by_worker-Balanced none g r each = refl
  by_worker-Balanced (some w) g r each = each w refl

  pub step-Balanced : (e : RouterEvent f) (r : OptimizedRouter f) → Balanced r (step f e r)
  unfolding step start_workers add_route_node remove_route_node
  step-Balanced start_event r = omega (
    arith,
    total-append held_in r.workers (replicate r.config.max_concurrency create_worker),
    busy-replicate f.Carrier r.config.max_concurrency,
  )
  step-Balanced stop_event r = refl
  step-Balanced (submit_event q) r = send_request-Balanced q r
  step-Balanced (take_event i now later random) r =
      by_worker-Balanced (get_elem? r.workers i)
        (λ w r'. take_with f i now later random w.running w.held w r'.request_queue r') r
        (λ w at.
          take_with-Balanced i now later random w.running w.held w r.request_queue r at refl refl)
  step-Balanced (give_event i) r =
      by_worker-Balanced (get_elem? r.workers i) (λ w r'. give_with f i w.running w.held w r') r
        (λ w at. give_with-Balanced i w.running w.held w r at refl)
  step-Balanced (quit_event i) r =
      by_worker-Balanced (get_elem? r.workers i) (λ w r'. quit_with f i r'.stopped w.running w r') r
        (λ w at. quit_with-Balanced i r.stopped w.running w r at)
  step-Balanced (receive_event now) r = receive_from-Balanced now r.result_queue r refl
  step-Balanced (add_event n) r = refl
  step-Balanced (remove_event id) r = refl
  step-Balanced (cleanup_event now) r = refl
  step-Balanced (config_event config) r = refl

  -- Over any run of events, the requests under way at the start and those that RouteRequest has put into the
  -- channel since are as many as the results received, the results that a worker dropped when it
  -- stopped, and the requests under way at the end.
  pub requests_conserved :
      (l : List (RouterEvent f)) (r : OptimizedRouter f)
      → tally is_queued (outcomes f l r) + in_flight r
        ≡ tally is_over (outcomes f l r) + in_flight (run_events f l r)
  unfolding outcomes run_events
  requests_conserved [] r = refl
  requests_conserved (e ∷ l) r =
      omega (arith, step-Balanced e r, requests_conserved l (step f e r).0)
