-- ===== src/OptimizedRouter/Counts.antt =====
-- core/router/enhanced_router.go: the counters of OptimizedRouterMetrics and of the cache over runs of events.
use muxcore.Common.{
  ℕ, ◌+◌, ◌%◌, ◌^◌, String, ◌≡◌, refl, ap, Bool, true, false, Option, none, some, List, [], ◌∷◌,
  ◌++◌, arith, ltb, length, get_elem?, if_either,
}
use muxcore.Common.Counts.{one_if}
use muxcore.Common.Keys.{string_key, number_key}
use muxcore.Common.Floats.{FloatOps}
use muxcore.RequestCache.{RequestCache, new_request_cache}
use muxcore.RequestCache.Accesses.{accesses, accesses-remove_expired}
use muxcore.OptimizedRouter.{
  RouteRequest, RouteResult, RouterWorker, OptimizedRouter, RouterConfig, RouterMetrics,
  new_optimized_router, start_workers, add_route_node, remove_route_node,
}
use muxcore.OptimizedRouter.Metrics.{count_access, count_result, update_router_metrics}
use muxcore.OptimizedRouter.Events.{
  Outcome, quiet, queued, timed_out, worked, answered, dropped, RouterEvent, start_event,
  stop_event, submit_event, take_event, give_event, quit_event, receive_event, add_event,
  remove_event, cleanup_event, config_event, send_request, keep_result, take_with, give_with,
  quit_with, loss, receive_from, by_worker, step, run_events, outcomes,
}
use muxcore.OptimizedRouter.Kept.{process_request-Kept}
use muxcore.OptimizedRouter.Looks.{cache_accesses, process_request_looks}
use muxcore.OptimizedRouter.Flow.{tally}

module _ {W : Type 0} where
  abbrev pub is_answered : Outcome W → Bool
  is_answered queued = false
  is_answered quiet = false
  is_answered timed_out = false
  is_answered (worked b) = false
  is_answered (answered a) = true
  is_answered dropped = false

  -- A worker has looked into the cache.
  abbrev pub is_lookup : Outcome W → Bool
  is_lookup queued = false
  is_lookup quiet = false
  is_lookup timed_out = false
  is_lookup (worked b) = b
  is_lookup (answered a) = false
  is_lookup dropped = false

loss_uncounted :
    {W : Type 0} (o : Option (RouteResult W))
    → (is_answered (loss o) ≡ false) × (is_lookup (loss o) ≡ false)
unfolding loss
loss_uncounted none = (refl, refl)
loss_uncounted (some result) = (refl, refl)

count_access_counts :
    {N : Type 0} (hit : Bool) (c : RequestCache N)
    → accesses (count_access hit c) % 2 ^ 64 ≡ (accesses c + 1) % 2 ^ 64
unfolding count_access
count_access_counts true c = omega arith
count_access_counts false c = omega arith

count_result_counts :
    {W : Type 0} (e : Option String) (m : RouterMetrics W)
    → ((count_result e m).successful_requests + (count_result e m).failed_requests) % 2 ^ 64
      ≡ (m.successful_requests + m.failed_requests + 1) % 2 ^ 64
unfolding count_result
count_result_counts none m = omega arith
count_result_counts (some e) m = omega arith

module _ {f : FloatOps} where
  abbrev settled : OptimizedRouter f → ℕ
  settled r = r.metrics.successful_requests + r.metrics.failed_requests

  -- What an event adds to the counters, as words of 64 bits.
  record Counted (r : OptimizedRouter f) (p : OptimizedRouter f × Outcome f.Carrier) : Type 0 where
    total :
        p.0.metrics.total_requests % 2 ^ 64
        ≡ (r.metrics.total_requests + one_if (is_answered p.1)) % 2 ^ 64
    results : settled p.0 % 2 ^ 64 ≡ (settled r + one_if (is_answered p.1)) % 2 ^ 64
    looks :
        cache_accesses p.0 % 2 ^ 64
        ≡ (cache_accesses r + one_if (is_answered p.1) + one_if (is_lookup p.1)) % 2 ^ 64

  -- An event that only moves requests, or adds and removes what is not counted.
  uncounted :
      (r r' : OptimizedRouter f) (o : Outcome f.Carrier)
      → is_answered o ≡ false
      → is_lookup o ≡ false
      → r'.metrics ≡ r.metrics
      → cache_accesses r' ≡ cache_accesses r
      → Counted r (r', o)
  uncounted r r' o no_answer no_lookup metrics cache = record {
    total = omega (
      arith,
      ap one_if no_answer,
      ap (λ (m : RouterMetrics f.Carrier). m.total_requests) metrics,
    );
    results = omega (
      arith,
      ap one_if no_answer,
      ap (λ (m : RouterMetrics f.Carrier). m.successful_requests + m.failed_requests) metrics,
    );
    looks = omega (arith, ap one_if no_answer, ap one_if no_lookup, cache);
  }

  send_request-Counted : (q : RouteRequest) (r : OptimizedRouter f) → Counted r (send_request f q r)
  unfolding send_request
  send_request-Counted q r =
      if_either (Counted r) (ltb (length r.request_queue) r.capacity)
        (uncounted r (record r { request_queue = r.request_queue ++ q ∷ [] }) queued refl refl refl
          refl)
        (uncounted r r timed_out refl refl refl refl)

  take_with-Counted :
      (i now later : ℕ) (random : Option f.Carrier) (running : Bool)
      (held : Option (RouteResult f.Carrier)) (w : RouterWorker f.Carrier) (l : List RouteRequest)
      (r : OptimizedRouter f)
      → Counted r (take_with f i now later random running held w l r)
  unfolding take_with keep_result
  take_with-Counted i now later random true none w (q ∷ l) r =
      let before = record r { request_queue = l } in
      let k = process_request-Kept now later random q before in
      record {
        total =
            omega (arith, ap (λ (m : RouterMetrics f.Carrier). m.total_requests) k.same_metrics);
        results = omega (
          arith,
          ap (λ (m : RouterMetrics f.Carrier). m.successful_requests + m.failed_requests)
              k.same_metrics,
        );
        looks = omega (arith, process_request_looks now later random q before);
      }
  take_with-Counted i now later random true none w [] r = uncounted r r quiet refl refl refl refl
  take_with-Counted i now later random true (some result) w l r =
      uncounted r r quiet refl refl refl refl
  take_with-Counted i now later random false held w l r = uncounted r r quiet refl refl refl refl

  give_with-Counted :
      (i : ℕ) (running : Bool) (held : Option (RouteResult f.Carrier)) (w : RouterWorker f.Carrier)
      (r : OptimizedRouter f)
      → Counted r (give_with f i running held w r)
  unfolding give_with
  give_with-Counted i true (some result) w r =
      if_either (Counted r) (ltb (length r.result_queue) r.capacity)
        (uncounted r _ quiet refl refl refl refl) (uncounted r r quiet refl refl refl refl)
  give_with-Counted i true none w r = uncounted r r quiet refl refl refl refl
  give_with-Counted i false held w r = uncounted r r quiet refl refl refl refl

  quit_with-Counted :
      (i : ℕ) (stopped running : Bool) (w : RouterWorker f.Carrier) (r : OptimizedRouter f)
      → Counted r (quit_with f i stopped running w r)
  unfolding quit_with
  quit_with-Counted i true true w r =
      let unseen = loss_uncounted w.held in uncounted r _ (loss w.held) unseen.0 unseen.1 refl refl
  quit_with-Counted i true false w r = uncounted r r quiet refl refl refl refl
  quit_with-Counted i false running w r = uncounted r r quiet refl refl refl refl

  receive_from-Counted :
      (now : ℕ) (l : List (RouteResult f.Carrier)) (r : OptimizedRouter f)
      → Counted r (receive_from f now l r)
  unfolding receive_from update_router_metrics
  receive_from-Counted now [] r = uncounted r r timed_out refl refl refl refl
  receive_from-Counted now (result ∷ l) r = record {
    total = omega arith;
    results = count_result_counts result.error r.metrics;
    looks = omega (arith, count_access_counts result.cache_hit r.route_cache);
  }

  by_worker-Counted :
      (o : Option (RouterWorker f.Carrier))
      (g : RouterWorker f.Carrier → OptimizedRouter f → OptimizedRouter f × Outcome f.Carrier)
      (r : OptimizedRouter f)
      → ((w : RouterWorker f.Carrier) → Counted r (g w r))
      → Counted r (by_worker f o g r)
  unfolding by_worker
  by_worker-Counted none g r each = uncounted r r quiet refl refl refl refl
  by_worker-Counted (some w) g r each = each w

  step-Counted : (e : RouterEvent f) (r : OptimizedRouter f) → Counted r (step f e r)
  unfolding step start_workers add_route_node remove_route_node
  step-Counted start_event r = uncounted r _ quiet refl refl refl refl
  step-Counted stop_event r = uncounted r _ quiet refl refl refl refl
  step-Counted (submit_event q) r = send_request-Counted q r
  step-Counted (take_event i now later random) r =
      by_worker-Counted (get_elem? r.workers i)
        (λ w r'. take_with f i now later random w.running w.held w r'.request_queue r') r
        (λ w. take_with-Counted i now later random w.running w.held w r.request_queue r)
  step-Counted (give_event i) r =
      by_worker-Counted (get_elem? r.workers i) (λ w r'. give_with f i w.running w.held w r') r
        (λ w. give_with-Counted i w.running w.held w r)
  step-Counted (quit_event i) r =
      by_worker-Counted (get_elem? r.workers i) (λ w r'. quit_with f i r'.stopped w.running w r') r
        (λ w. quit_with-Counted i r.stopped w.running w r)
  step-Counted (receive_event now) r = receive_from-Counted now r.result_queue r
  step-Counted (add_event n) r = uncounted r _ quiet refl refl refl refl
  step-Counted (remove_event id) r = uncounted r _ quiet refl refl refl refl
  step-Counted (cleanup_event now) r =
      uncounted r _ quiet refl refl refl (accesses-remove_expired now r.route_cache)
  step-Counted (config_event config) r = uncounted r _ quiet refl refl refl refl

  -- What a run adds to the counters.
  record Summed (l : List (RouterEvent f)) (r : OptimizedRouter f) : Type 0 where
    total :
        (run_events f l r).metrics.total_requests % 2 ^ 64
        ≡ (r.metrics.total_requests + tally is_answered (outcomes f l r)) % 2 ^ 64
    results :
        settled (run_events f l r) % 2 ^ 64
        ≡ (settled r + tally is_answered (outcomes f l r)) % 2 ^ 64
    looks :
        cache_accesses (run_events f l r) % 2 ^ 64
        ≡ (cache_accesses r + tally is_answered (outcomes f l r) + tally is_lookup (outcomes f l r))
          % 2 ^ 64

  run_events-Summed : (l : List (RouterEvent f)) (r : OptimizedRouter f) → Summed l r
  unfolding run_events outcomes
  run_events-Summed [] r = record {
    total = omega arith;
    results = omega arith;
    looks = omega arith;
  }
  run_events-Summed (e ∷ l) r =
      let rest = run_events-Summed l (step f e r).0 in
      let first = step-Counted e r in
      record {
        total = omega (arith, rest.total, first.total);
        results = omega (arith, rest.results, first.results);
        looks = omega (arith, rest.looks, first.looks);
      }

  -- After any run of events on a new router, TotalRequests is the number of results received, and so is the sum of
  -- SuccessfulRequests and FailedRequests, while the hits and misses of the cache add up to that number
  -- and the number of requests for which a worker looked into the cache, all as numbers of 64 bits.
  pub requests_counted :
      (config : RouterConfig) (now : ℕ) (l : List (RouterEvent f))
      → let start = new_optimized_router f config now in
        let r = run_events f l start in
        let received = tally is_answered (outcomes f l start) in
        let looked = tally is_lookup (outcomes f l start) in
        (r.metrics.total_requests % 2 ^ 64 ≡ received % 2 ^ 64)
        × ((r.metrics.successful_requests + r.metrics.failed_requests) % 2 ^ 64 ≡ received % 2 ^ 64)
        × ((r.route_cache.hits + r.route_cache.misses) % 2 ^ 64 ≡ (received + looked) % 2 ^ 64)
  unfolding new_optimized_router new_request_cache
  requests_counted config now l =
      let s = run_events-Summed l (new_optimized_router f config now) in
      (omega (arith, s.total), omega (arith, s.results), omega (arith, s.looks))
