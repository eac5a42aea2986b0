-- ===== src/NodeRouter.antt =====
-- core/router/multidimensional_router.go: nodes, rules and the selection of a node. float64 is the parameter `f`.
-- A map is walked in the order of its list. A pointer to a node is its key with the node; what
-- the callers write into a node that they hold is left out. Counts and durations are not negative.
pub mod Selection
pub mod Candidates
pub mod Healthy
mod Tests
use muxcore.Common.{
  ℕ, String, Bool, true, false, ◌&&◌, Option, none, some, List, [], ◌∷◌, map, leb, if◌then◌else◌,
}
use muxcore.Common.Dict.{Dict, lookup, insert, delete}
use muxcore.Common.Keys.{string_key, number_key}
use muxcore.Common.Int.{pos}
use muxcore.Common.Floats.{FloatOps}

pub data NodeStatus : Type 0 where
  node_healthy node_unhealthy node_maintenance : NodeStatus

pub data LoadBalanceStrategy : Type 0 where
  round_robin weighted_round_robin least_connections least_response_time consistent_hash :
      LoadBalanceStrategy

unfoldable pub is_healthy : NodeStatus → Bool
is_healthy node_healthy = true
is_healthy node_unhealthy = false
is_healthy node_maintenance = false

unfoldable pub is_unhealthy : NodeStatus → Bool
is_unhealthy node_healthy = false
is_unhealthy node_unhealthy = true
is_unhealthy node_maintenance = false

pub record RouteNode (W : Type 0) : Type 0 where
  pub id : String
  pub address : String
  pub capacity : ℕ
  pub load : ℕ
  pub status : NodeStatus
  pub last_health_check : ℕ
  pub response_time : ℕ
  pub weight : W
  pub connections : ℕ
  pub failure_count : ℕ
  pub success_count : ℕ

abbrev pub Candidate : Type 0 → Type 0
Candidate W = String × RouteNode W

module _ (f : FloatOps) where
  pub record NodeRouter : Type 0 where
    pub nodes : Dict String (RouteNode f.Carrier)
    pub rules : Dict String (Dict String (List String))
    pub weights : Dict String f.Carrier
    pub strategy : LoadBalanceStrategy
    pub max_failures : ℕ
    pub recovery_threshold : ℕ
    pub round_robin_index : Dict String ℕ

  abbrev Node : Type 0
  Node = RouteNode f.Carrier

  abbrev Cand : Type 0
  Cand = Candidate f.Carrier

  abbrev zero_float : f.Carrier
  zero_float = f.of_int (pos 0)

  -- One node in performHealthCheck.
  unfoldable pub check_node : ℕ → ℕ → ℕ → Node → Node
  unfolding is_unhealthy
  check_node max_failures recovery now n =
      let checked =
        if leb max_failures n.failure_count
        then record n { status = node_unhealthy }
        else if is_unhealthy n.status && leb recovery n.success_count
        then record n { status = node_healthy; failure_count = 0 }
        else n in
      record checked { last_health_check = now }

  unfoldable pub check_nodes : ℕ → ℕ → ℕ → Dict String Node → Dict String Node
  unfolding check_node
  check_nodes max_failures recovery now [] = []
  check_nodes max_failures recovery now ((id, n) ∷ m) =
      (id, check_node max_failures recovery now n) ∷ check_nodes max_failures recovery now m

  unfoldable pub perform_health_check : ℕ → NodeRouter → NodeRouter
  unfolding check_nodes
  perform_health_check now r = record r {
    nodes = check_nodes r.max_failures r.recovery_threshold now r.nodes;
  }

  unfoldable pub add_node : Node → NodeRouter → NodeRouter
  add_node n r = record r { nodes = insert n.id n r.nodes }

  unfoldable pub remove_node : String → NodeRouter → NodeRouter
  remove_node id r = record r { nodes = delete id r.nodes }

  unfoldable pub update_node_load : String → ℕ → NodeRouter → NodeRouter
  update_node_load id load r = elim (lookup id r.nodes) [
    | none ↦ r
    | some n ↦ record r { nodes = insert id (record n { load = load }) r.nodes }
  ]

  unfoldable pub values_of : Option (Dict String (List String)) → Dict String (List String)
  values_of none = []
  values_of (some m) = m

  unfoldable pub add_rule : String → String → List String → NodeRouter → NodeRouter
  unfolding values_of
  add_rule dimension value ids r = record r {
    rules = insert dimension (insert value ids (values_of (lookup dimension r.rules))) r.rules;
  }

  unfoldable pub sum_weights : f.Carrier → List f.Carrier → f.Carrier
  sum_weights total [] = total
  sum_weights total (w ∷ l) = sum_weights (f.add total w) l

  unfoldable pub divide_weights : f.Carrier → Dict String f.Carrier → Dict String f.Carrier
  divide_weights total [] = []
  divide_weights total ((d, w) ∷ m) = (d, f.div w total) ∷ divide_weights total m

  unfoldable pub normalize_weights : NodeRouter → NodeRouter
  unfolding sum_weights divide_weights
  normalize_weights r =
      let total = sum_weights zero_float (map (λ (e : String × f.Carrier). e.1) r.weights) in
      if f.equal total zero_float then r else record r { weights = divide_weights total r.weights }

  unfoldable pub clamp_weight : f.Carrier → f.Carrier
  clamp_weight w =
      if f.less w zero_float
      then zero_float
      else if f.less (f.of_int (pos 1)) w
      then f.of_int (pos 1)
      else w

  unfoldable pub set_weight : String → f.Carrier → NodeRouter → NodeRouter
  unfolding clamp_weight normalize_weights
  set_weight dimension w r =
      normalize_weights (record r { weights = insert dimension (clamp_weight w) r.weights })

  -- The scores that getCandidateNodes starts with.
  unfoldable pub initial_scores : Dict String Node → Dict String f.Carrier
  unfolding is_healthy
  initial_scores [] = []
  initial_scores ((id, n) ∷ m) =
      let rest = initial_scores m in if is_healthy n.status then (id, zero_float) ∷ rest else rest

  unfoldable pub add_found :
      Option f.Carrier → f.Carrier → String → Dict String f.Carrier → Dict String f.Carrier
  add_found none w id scores = scores
  add_found (some s) w id scores = insert id (f.add s w) scores

  unfoldable pub add_scores :
      f.Carrier → List String → Dict String f.Carrier → Dict String f.Carrier
  unfolding add_found
  add_scores w [] scores = scores
  add_scores w (id ∷ ids) scores = add_scores w ids (add_found (lookup id scores) w id scores)

  unfoldable pub or_zero : Option f.Carrier → f.Carrier
  or_zero none = zero_float
  or_zero (some w) = w

  -- `r.rules[dim][value]`, nil where there is none.
  unfoldable pub rule_ids : Option (List String) → List String
  rule_ids none = []
  rule_ids (some ids) = ids

  unfoldable pub score_all :
      Dict String String → NodeRouter → Dict String f.Carrier → Dict String f.Carrier
  unfolding add_scores or_zero rule_ids values_of
  score_all [] r scores = scores
  score_all ((dim, value) ∷ criteria) r scores = score_all criteria r (
      add_scores (or_zero (lookup dim r.weights))
        (rule_ids (lookup value (values_of (lookup dim r.rules)))) scores)

  unfoldable pub add_candidate : Option Node → String → List Cand → List Cand
  add_candidate none id l = l
  add_candidate (some n) id l = (id, n) ∷ l

  unfoldable pub collect : Dict String Node → Dict String f.Carrier → List Cand
  unfolding add_candidate
  collect nodes [] = []
  collect nodes ((id, score) ∷ scores) =
      let rest = collect nodes scores in
      if f.less zero_float score then add_candidate (lookup id nodes) id rest else rest

  unfoldable pub get_candidate_nodes : Dict String String → NodeRouter → List Cand
  unfolding score_all initial_scores collect
  get_candidate_nodes criteria r = collect r.nodes (score_all criteria r (initial_scores r.nodes))

  -- NewMultidimensionalRouterWithConfig, with the weights 0.4, 0.2, 0.3 and 0.1.
  unfoldable pub new_node_router : LoadBalanceStrategy → ℕ → ℕ → NodeRouter
  new_node_router strategy max_failures recovery_threshold =
      let tenths : ℕ → f.Carrier = λ n. f.div (f.of_int (pos n)) (f.of_int (pos 10)) in
      record {
        nodes = [];
        rules = ("protocol", []) ∷ ("geo", []) ∷ ("qos", []) ∷ ("api_version", []) ∷ [];
        weights =
            ("protocol", tenths 4)
            ∷ ("geo", tenths 2)
            ∷ ("qos", tenths 3)
            ∷ ("api_version", tenths 1)
            ∷ [];
        strategy = strategy;
        max_failures = max_failures;
        recovery_threshold = recovery_threshold;
        round_robin_index = [];
      }
