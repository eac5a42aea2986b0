-- ===== src/LoadBalancer.antt =====
-- core/router/enhanced_router.go: LoadBalancer. A node is its record; the counters that other components
-- write into it meanwhile are left out. float64 is the parameter `f`, and the number that selectWeightedRoundRobin
-- draws from the clock is an argument, `none` where its modulo by int64(totalWeight*1000) panics. A result `none` stands for
-- nil, for that panic and for the panic of an index below zero.
pub mod Fair
pub mod Least
mod Tests
use muxcore.Common.{
  ℕ, ◌+◌, ◌-◌, ◌%◌, ◌^◌, String, Bool, true, false, ◌&&◌, Option, none, some, List, [], ◌∷◌, ◌++◌,
  map, ltb, leb, ◌==◌, if◌then◌else◌, length, get_elem?,
}
use muxcore.Common.Keys.{string_key, number_key}
use muxcore.Common.Int.{pos}
use muxcore.Common.Floats.{FloatOps}
use muxcore.Common.Text.{utf8, sum32a}
use muxcore.NodeRouter.{
  RouteNode, is_healthy, is_unhealthy, node_healthy, node_unhealthy, LoadBalanceStrategy,
  round_robin, weighted_round_robin, least_connections, least_response_time, consistent_hash,
  sum_weights,
}
use muxcore.HashRing.{ConsistentHashRing, new_ring, add_to_ring, remove_from_ring, get_from_ring}

pub record LoadBalancer (W : Type 0) : Type 0 where
  pub strategy : LoadBalanceStrategy
  pub nodes : List (RouteNode W)
  pub current_index : ℕ
  pub consistent_hash : ConsistentHashRing

module _ {W : Type 0} where
  unfoldable pub new_load_balancer : LoadBalanceStrategy → LoadBalancer W
  new_load_balancer strategy = record {
    strategy = strategy;
    nodes = [];
    current_index = 0;
    consistent_hash = new_ring 100;
  }

  unfoldable pub healthy_nodes : List (RouteNode W) → List (RouteNode W)
  unfolding is_healthy
  healthy_nodes [] = []
  healthy_nodes (n ∷ l) =
      let rest = healthy_nodes l in if is_healthy n.status then n ∷ rest else rest

  unfoldable pub get_healthy_nodes : LoadBalancer W → List (RouteNode W)
  unfolding healthy_nodes
  get_healthy_nodes lb = healthy_nodes lb.nodes

  -- `nodes[index]` with the remainder of an int64, which is negative for a negative counter.
  unfoldable pub node_at : ℕ → List (RouteNode W) → Option (RouteNode W)
  node_at i l =
      if ltb i (2 ^ 63)
      then get_elem? l (i % length l)
      else if (2 ^ 64 - i) % length l == 0
      then get_elem? l 0
      else none

  unfoldable pub next_round_robin :
      List (RouteNode W) → LoadBalancer W → LoadBalancer W × Option (RouteNode W)
  unfolding node_at
  next_round_robin [] lb = (lb, none)
  next_round_robin (n ∷ l) lb =
      let i = (lb.current_index + 1) % 2 ^ 64 in
      (record lb { current_index = i }, node_at i (n ∷ l))

  -- The loops that look for a smaller value than that of the node selected so far.
  unfoldable pub least_from : (RouteNode W → ℕ) → RouteNode W → List (RouteNode W) → RouteNode W
  least_from value best [] = best
  least_from value best (n ∷ l) =
      let here = least_from value n l in
      let there = least_from value best l in if ltb (value n) (value best) then here else there

  unfoldable pub select_least : (RouteNode W → ℕ) → List (RouteNode W) → Option (RouteNode W)
  unfolding least_from
  select_least value [] = none
  select_least value (n ∷ l) = some (least_from value n l)

  unfoldable pub node_with_id : String → List (RouteNode W) → Option (RouteNode W)
  node_with_id id [] = none
  node_with_id id (n ∷ l) =
      let rest = node_with_id id l in if string_key.test n.id id then some n else rest

  unfoldable pub or_head : Option (RouteNode W) → List (RouteNode W) → Option (RouteNode W)
  or_head (some n) l = some n
  or_head none [] = none
  or_head none (m ∷ l) = some m

  -- selectConsistentHash, for the path of the request.
  unfoldable pub select_consistent :
      String → List (RouteNode W) → LoadBalancer W → Option (RouteNode W)
  unfolding node_with_id or_head sum32a utf8
  select_consistent path l lb =
      or_head (node_with_id (get_from_ring (sum32a (utf8 path)) lb.consistent_hash) l) l

  unfoldable pub add_balanced : RouteNode W → LoadBalancer W → LoadBalancer W
  add_balanced n lb = record lb {
    nodes = lb.nodes ++ n ∷ [];
    consistent_hash = add_to_ring n.id lb.consistent_hash;
  }

  unfoldable pub drop_node : String → List (RouteNode W) → List (RouteNode W)
  drop_node id [] = []
  drop_node id (n ∷ l) =
      let rest = drop_node id l in if string_key.test n.id id then l else n ∷ rest

  unfoldable pub remove_balanced : String → LoadBalancer W → LoadBalancer W
  unfolding drop_node
  remove_balanced id lb = record lb {
    nodes = drop_node id lb.nodes;
    consistent_hash = remove_from_ring id lb.consistent_hash;
  }

  -- One node in performHealthCheck of OptimizedRouter, and whether FailoverCount goes up.
  unfoldable pub check_balanced : ℕ → ℕ → RouteNode W → RouteNode W × Bool
  unfolding is_unhealthy
  check_balanced threshold now n =
      if leb threshold n.failure_count
      then (record n { status = node_unhealthy; last_health_check = now }, true)
      else if is_unhealthy n.status && ltb n.failure_count n.success_count
      then (record n { status = node_healthy; last_health_check = now }, false)
      else (record n { last_health_check = now }, false)

module _ (f : FloatOps) where
  abbrev Node : Type 0
  Node = RouteNode f.Carrier

  -- The loop over the weights, with the last node if it ends.
  unfoldable pub select_random : f.Carrier → f.Carrier → Node → List Node → Node
  select_random random current last [] = last
  select_random random current last (n ∷ l) =
      let current' = f.add current n.weight in
      let rest = select_random random current' n l in if f.at_most random current' then n else rest

  unfoldable pub select_drawn : Option f.Carrier → Node → List Node → Option Node
  unfolding select_random
  select_drawn none n l = none
  select_drawn (some random) n l = some (select_random random (f.of_int (pos 0)) n l)

  unfoldable pub next_weighted :
      Option f.Carrier → List Node → LoadBalancer f.Carrier → LoadBalancer f.Carrier × Option Node
  unfolding select_drawn sum_weights next_round_robin
  next_weighted random [] lb = (lb, none)
  next_weighted random (n ∷ l) lb =
      let total = sum_weights f (f.of_int (pos 0)) (map (λ (m : Node). m.weight) (n ∷ l)) in
      if f.equal total (f.of_int (pos 0))
      then next_round_robin (n ∷ l) lb
      else (lb, select_drawn random n (n ∷ l))

  unfoldable pub next_by :
      LoadBalanceStrategy
      → Option f.Carrier
      → String
      → List Node
      → LoadBalancer f.Carrier
      → LoadBalancer f.Carrier × Option Node
  unfolding next_round_robin next_weighted select_least select_consistent
  next_by round_robin random path l lb = next_round_robin l lb
  next_by weighted_round_robin random path l lb = next_weighted random l lb
  next_by least_connections random path l lb = (lb, select_least (λ n. n.connections) l)
  next_by least_response_time random path l lb = (lb, select_least (λ n. n.response_time) l)
  next_by consistent_hash random path l lb = (lb, select_consistent path l lb)

  -- LoadBalancer.SelectNode.
  unfoldable pub next_node :
      Option f.Carrier → String → LoadBalancer f.Carrier → LoadBalancer f.Carrier × Option Node
  unfolding next_by get_healthy_nodes
  next_node random path lb = next_by lb.strategy random path (get_healthy_nodes lb) lb
