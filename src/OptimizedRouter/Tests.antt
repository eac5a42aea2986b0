-- ===== src/OptimizedRouter/Tests.antt =====
-- Runs of the router with its workers.
use muxcore.Common.{
  ℕ, ◌+◌, ◌*◌, ◌/◌, ◌%◌, ◌^◌, String, ◌≡◌, refl, true, Option, none, some, List, [], ◌∷◌, ◌++◌,
  arith, ltb, leb, ◌==◌,
}
use muxcore.Common.Dict.{lookup, insert}
use muxcore.Common.Keys.{string_key, number_key}
use muxcore.Common.Int.{pos_part}
use muxcore.Common.Floats.{FloatOps}
use muxcore.NodeRouter.{RouteNode, node_healthy, round_robin}
use muxcore.RequestCache.{generate_key}
use muxcore.OptimizedRouter.{
  RouteRequest, RouterConfig, OptimizedRouter, new_optimized_router, add_route_node,
  remove_route_node, process_request,
}
use muxcore.OptimizedRouter.Events.{
  Outcome, quiet, queued, timed_out, worked, answered, dropped, RouterEvent, start_event,
  stop_event, submit_event, take_event, give_event, quit_event, receive_event, add_event,
  run_events, outcomes,
}
use muxcore.OptimizedRouter.Flow.{tally, is_queued, is_over, in_flight, requests_conserved}
use muxcore.OptimizedRouter.Counts.{is_answered, is_lookup, requests_counted}
use muxcore.OptimizedRouter.Repeats.{process_request-again}

abbrev whole : FloatOps
whole = record {
  Carrier = ℕ;
  of_int = λ n. pos_part n;
  add = λ a b. a + b;
  mul = λ a b. a * b;
  div = λ a b. a / b;
  less = λ a b. ltb a b;
  at_most = λ a b. leb a b;
  equal = λ a b. a == b;
}

abbrev node : String → RouteNode ℕ
node id = record {
  id = id;
  address = "10.0.0.1";
  capacity = 10;
  load = 1;
  status = node_healthy;
  last_health_check = 0;
  response_time = 5;
  weight = 1;
  connections = 0;
  failure_count = 0;
  success_count = 0;
}

abbrev request : String → String → RouteRequest
request id path = record {
  id = id;
  method = "GET";
  path = path;
  headers = [];
  params = [];
  criteria = [];
  timestamp = 0;
  priority = 0;
}

abbrev config : RouterConfig
config = record {
  max_concurrency = 2;
  enable_caching = true;
  cache_size = 8;
  cache_ttl = 100;
  load_balance_strategy = round_robin;
}

-- The second worker answers first.
abbrev events : List (RouterEvent whole)
events =
    start_event
    ∷ add_event (node "a")
    ∷ add_event (node "b")
    ∷ submit_event (request "1" "/x")
    ∷ submit_event (request "2" "/y")
    ∷ take_event 0 1 2 (some 0)
    ∷ take_event 1 3 4 (some 0)
    ∷ give_event 1
    ∷ give_event 0
    ∷ receive_event 6
    ∷ submit_event (request "3" "/x")
    ∷ take_event 0 8 9 (some 0)
    ∷ stop_event
    ∷ quit_event 0
    ∷ []

abbrev start : OptimizedRouter whole
start = new_optimized_router whole config 0

requests_conserved_example :
    tally is_queued (outcomes whole events start) + in_flight start
    ≡ tally is_over (outcomes whole events start) + in_flight (run_events whole events start)
requests_conserved_example = requests_conserved events start

three_in_two_out :
    (tally is_queued (outcomes whole events start) ≡ 3)
    × (tally is_over (outcomes whole events start) ≡ 2)
unfolding outcomes new_optimized_router generate_key lookup insert
three_in_two_out = (refl, refl)

requests_counted_example :
    let r = run_events whole events start in
    let received = tally is_answered (outcomes whole events start) in
    let looked = tally is_lookup (outcomes whole events start) in
    (r.metrics.total_requests % 2 ^ 64 ≡ received % 2 ^ 64)
    × ((r.metrics.successful_requests + r.metrics.failed_requests) % 2 ^ 64 ≡ received % 2 ^ 64)
    × ((r.route_cache.hits + r.route_cache.misses) % 2 ^ 64 ≡ (received + looked) % 2 ^ 64)
requests_counted_example = requests_counted config 0 events

abbrev id_of : Option (RouteNode ℕ) → List String
id_of none = []
id_of (some n) = n.id ∷ []

abbrev id_in : Outcome ℕ → List String
id_in (answered result) = id_of result.node
id_in quiet = []
id_in queued = []
id_in timed_out = []
id_in (worked b) = []
id_in dropped = []

abbrev got : List (Outcome ℕ) → List String
got [] = []
got (o ∷ l) = id_in o ++ got l

-- The first receive gets the result of the second request.
other_result : got (outcomes whole events start) ≡ "a" ∷ []
unfolding outcomes new_optimized_router generate_key lookup insert
other_result = refl

unfoldable with_nodes : OptimizedRouter whole
unfolding new_optimized_router add_route_node
with_nodes = add_route_node whole (node "b") (add_route_node whole (node "a") start)

unfoldable without_b : OptimizedRouter whole
unfolding with_nodes remove_route_node process_request generate_key
without_b =
    remove_route_node whole "b" (process_request whole 1 2 (some 0) (request "1" "/x") with_nodes).0

process_request-again_example :
    (process_request whole 50 51 (some 0) (request "2" "/x") without_b).1
    ≡ record { node = some (node "b"); latency = 1; cache_hit = true; error = none; timestamp = 50 }
unfolding with_nodes without_b lookup
process_request-again_example =
    process_request-again 1 2 (some 0) (request "1" "/x") with_nodes (node "b") 50 51 (some 0)
      (request "2" "/x") without_b refl refl refl refl refl refl (omega arith)
