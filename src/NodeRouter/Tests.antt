-- ===== src/NodeRouter/Tests.antt =====
-- Runs of the router over several dimensions.
use muxcore.Common.{ℕ, ◌+◌, ◌*◌, ◌/◌, String, ◌≡◌, refl, some, [], ◌∷◌, ltb, leb, ◌==◌}
use muxcore.Common.Dict.{Dict, lookup, insert, Distinct}
use muxcore.Common.Keys.{string_key, number_key}
use muxcore.Common.Int.{pos_part}
use muxcore.Common.Floats.{FloatOps}
use muxcore.NodeRouter.{
  RouteNode, NodeRouter, least_connections, node_healthy, add_node, new_node_router, add_rule,
  perform_health_check,
}
use muxcore.NodeRouter.Selection.{select_node}
use muxcore.NodeRouter.Healthy.{Given, select_node-Given}

-- Whole numbers, with the part below zero as 0, in tenths.
abbrev tenths : FloatOps
tenths = record {
  Carrier = ℕ;
  of_int = λ n. 10 * pos_part n;
  add = λ a b. a + b;
  mul = λ a b. a * b / 10;
  div = λ a b. a * 10 / b;
  less = λ a b. ltb a b;
  at_most = λ a b. leb a b;
  equal = λ a b. a == b;
}

abbrev node : String → ℕ → ℕ → RouteNode ℕ
node id connections failures = record {
  id = id;
  address = "10.0.0.1";
  capacity = 10;
  load = 1;
  status = node_healthy;
  last_health_check = 0;
  response_time = 5;
  weight = 10;
  connections = connections;
  failure_count = failures;
  success_count = 0;
}

unfoldable router : NodeRouter tenths
unfolding perform_health_check add_rule add_node new_node_router
router = perform_health_check tenths 9 (
    add_rule tenths "geo" "eu" ("a" ∷ "b" ∷ "c" ∷ "d" ∷ []) (
      add_node tenths (node "c" 0 3) (
        add_node tenths (node "b" 2 0)
          (add_node tenths (node "a" 4 0) (new_node_router tenths least_connections 3 5)))))

router-Distinct : Distinct router.nodes
unfolding router lookup insert
router-Distinct = (refl, (refl, (refl, tt)))

abbrev criteria : Dict String String
criteria = ("geo", "eu") ∷ []

-- The node c has failed too often.
least_of_healthy :
    (select_node tenths criteria router).1
    ≡ some ("b", record (node "b" 3 0) { last_health_check = 9 })
unfolding select_node router lookup insert
least_of_healthy = refl

select_node-Given_example : Given tenths router (select_node tenths criteria router)
select_node-Given_example = select_node-Given tenths criteria router router-Distinct
