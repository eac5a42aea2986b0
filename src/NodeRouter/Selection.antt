-- ===== src/NodeRouter/Selection.antt =====
-- core/router/multidimensional_router.go: SelectNode and its strategies. int and time.Duration have 64 bits.
use muxcore.Common.{
  ℕ, ◌+◌, ◌-◌, ◌%◌, ◌^◌, String, Option, none, some, List, [], ◌∷◌, map, ltb, ◌==◌, if◌then◌else◌,
  length, get_elem?,
}
use muxcore.Common.Dict.{Dict, lookup, insert}
use muxcore.Common.Keys.{string_key, number_key}
use muxcore.Common.Int.{pos, negsuc, sub_ℕ}
use muxcore.Common.Floats.{FloatOps}
use muxcore.NodeRouter.{
  RouteNode, NodeRouter, Candidate, LoadBalanceStrategy, round_robin, weighted_round_robin,
  least_connections, least_response_time, consistent_hash, get_candidate_nodes, sum_weights,
}

-- The largest int.
abbrev pub max_int : ℕ
max_int = 2 ^ 63 - 1

-- The loop that looks for the least value below `least`.
unfoldable pub least_by :
    {W : Type 0}
    → (RouteNode W → ℕ)
    → ℕ
    → Option (Candidate W)
    → List (Candidate W)
    → Option (Candidate W)
least_by value least best [] = best
least_by value least best ((id, n) ∷ l) =
    let here = least_by value (value n) (some (id, n)) l in
    let there = least_by value least best l in if ltb (value n) least then here else there

unfoldable pub select_least_connections : {W : Type 0} → List (Candidate W) → Option (Candidate W)
unfolding least_by
select_least_connections l = least_by (λ n. n.connections) max_int none l

unfoldable pub select_least_response_time : {W : Type 0} → List (Candidate W) → Option (Candidate W)
unfolding least_by
select_least_response_time l = least_by (λ n. n.response_time) max_int none l

-- selectConsistentHash of MultidimensionalRouter, which takes the first candidate.
unfoldable pub select_first : {W : Type 0} → List (Candidate W) → Option (Candidate W)
select_first [] = none
select_first (c ∷ l) = some c

unfoldable pub index_of : Option ℕ → ℕ
index_of none = 0
index_of (some i) = i

module _ (f : FloatOps) where
  abbrev Cand : Type 0
  Cand = Candidate f.Carrier

  unfoldable pub select_round_robin : List Cand → NodeRouter f → NodeRouter f × Option Cand
  unfolding index_of
  select_round_robin [] r = (r, none)
  select_round_robin (c ∷ l) r =
      let n = length (c ∷ l) in
      let i = index_of (lookup "default" r.round_robin_index) in
      (
        record r { round_robin_index = insert "default" ((i + 1) % n) r.round_robin_index },
        get_elem? (c ∷ l) (i % n),
      )

  -- The score of selectWeightedRoundRobin.
  unfoldable pub node_score : RouteNode f.Carrier → f.Carrier
  node_score n =
      f.div (f.mul n.weight (f.of_int (sub_ℕ n.capacity n.load))) (f.of_int (pos n.capacity))

  unfoldable pub best_score : f.Carrier → Option Cand → List Cand → Option Cand
  unfolding node_score
  best_score most best [] = best
  best_score most best ((id, n) ∷ l) =
      let here = best_score (node_score n) (some (id, n)) l in
      let there = best_score most best l in if f.less most (node_score n) then here else there

  unfoldable pub select_weighted : List Cand → NodeRouter f → NodeRouter f × Option Cand
  unfolding sum_weights best_score select_round_robin
  select_weighted l r =
      let total = sum_weights f (f.of_int (pos 0)) (map (λ (c : Cand). c.1.weight) l) in
      if f.equal total (f.of_int (pos 0))
      then select_round_robin l r
      else (r, best_score (f.of_int (negsuc 0)) none l)

  unfoldable pub select_by :
      LoadBalanceStrategy → List Cand → NodeRouter f → NodeRouter f × Option Cand
  unfolding select_weighted select_round_robin select_least_connections select_least_response_time
      select_first
  select_by round_robin l r = select_round_robin l r
  select_by weighted_round_robin l r = select_weighted l r
  select_by least_connections l r = (r, select_least_connections l)
  select_by least_response_time l r = (r, select_least_response_time l)
  select_by consistent_hash l r = (r, select_first l)

  -- `selectedNode.Connections++`
  unfoldable pub count_connection : NodeRouter f × Option Cand → NodeRouter f × Option Cand
  count_connection (r, none) = (r, none)
  count_connection (r, some (id, n)) =
      let n' = record n { connections = n.connections + 1 } in
      (record r { nodes = insert id n' r.nodes }, some (id, n'))

  unfoldable pub select_from : List Cand → NodeRouter f → NodeRouter f × Option Cand
  unfolding select_by count_connection
  select_from [] r = (r, none)
  select_from (c ∷ l) r = count_connection (select_by r.strategy (c ∷ l) r)

  -- Without nodes there is no candidate, so that the first test of SelectNode changes only what is logged.
  unfoldable pub select_node : Dict String String → NodeRouter f → NodeRouter f × Option Cand
  unfolding get_candidate_nodes select_from
  select_node criteria r =
      if length r.nodes == 0 then (r, none) else select_from (get_candidate_nodes f criteria r) r
