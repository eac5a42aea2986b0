-- ===== src/LoadBalancer/Tests.antt =====
-- Runs of the load balancer.
use muxcore.Common.{
  ℕ, ◌+◌, ◌*◌, ◌/◌, ◌%◌, String, ◌≡◌, refl, some, [], ◌∷◌, ◌++◌, map, arith, ltb, leb, ◌==◌, length,
  take, drop,
}
use muxcore.Common.Keys.{string_key, number_key}
use muxcore.Common.Int.{pos_part}
use muxcore.Common.Floats.{FloatOps}
use muxcore.NodeRouter.{
  RouteNode, NodeStatus, node_healthy, node_unhealthy, LoadBalanceStrategy, round_robin,
  least_connections,
}
use muxcore.LoadBalancer.{LoadBalancer, next_node, get_healthy_nodes}
use muxcore.LoadBalancer.Fair.{calls, next_node_fair}

abbrev whole : FloatOps
whole = record {
  Carrier = ℕ;
  of_int = λ n. pos_part n;
  add = λ a b. a + b;
  mul = λ a b. a * b;
  div = λ a b. a / b;
  less = λ a b. ltb a b;
  at_most = λ a b. leb a b;
  equal = λ a b. a == b;
}

abbrev node : String → NodeStatus → ℕ → RouteNode ℕ
node id status connections = record {
  id = id;
  address = "10.0.0.1";
  capacity = 10;
  load = 1;
  status = status;
  last_health_check = 0;
  response_time = 5;
  weight = 1;
  connections = connections;
  failure_count = 0;
  success_count = 0;
}

abbrev balancer : LoadBalanceStrategy → LoadBalancer ℕ
balancer strategy = record {
  strategy = strategy;
  nodes = node "a" node_healthy 4 ∷ node "b" node_unhealthy 0 ∷ node "c" node_healthy 2 ∷ [];
  current_index = 6;
  consistent_hash = record { hash_ring = []; sorted_hashes = []; replicas = 2 };
}

two_healthy :
    get_healthy_nodes (balancer round_robin)
    ≡ node "a" node_healthy 4 ∷ node "c" node_healthy 2 ∷ []
unfolding get_healthy_nodes
two_healthy = refl

next_node_fair_example :
    let lb = balancer round_robin in
    let l = get_healthy_nodes lb in
    let start = 7 % length l in
    calls whole ((some 0, "/") ∷ (some 0, "/") ∷ []) lb
    ≡ map (λ (n : RouteNode ℕ). some n) (drop start l ++ take start l)
unfolding get_healthy_nodes
next_node_fair_example =
    next_node_fair whole ((some 0, "/") ∷ (some 0, "/") ∷ []) (balancer round_robin) refl
      (omega arith) refl (omega arith)

c_chosen :
    (next_node whole (some 0) "/" (balancer least_connections)).1 ≡ some (node "c" node_healthy 2)
unfolding next_node
c_chosen = refl
