-- ===== src/LoadBalancer/Least.antt =====
-- core/router/enhanced_router.go: the node with the fewest connections or the shortest response time.
use muxcore.Common.{
  ℕ, zero, suc, ◌≤◌, ◌<◌, String, ◌≡◌, refl, ap, ◌∙◌, Bool, true, false, Option, some, List, [],
  ◌∷◌, arith, ltb, length, All, ltb→lt, if_cases,
}
use muxcore.Common.Keys.{string_key, number_key}
use muxcore.Common.Floats.{FloatOps}
use muxcore.NodeRouter.{RouteNode, LoadBalanceStrategy, least_connections, least_response_time}
use muxcore.NodeRouter.Healthy.{In}
use muxcore.LoadBalancer.{
  LoadBalancer, get_healthy_nodes, least_from, select_least, next_by, next_node,
}

module _ {W : Type 0} (value : RouteNode W → ℕ) where
  least_from-le :
      (best : RouteNode W) (l : List (RouteNode W))
      → (value (least_from value best l) ≤ value best)
        × All (λ (n : RouteNode W). value (least_from value best l) ≤ value n) l
  unfolding least_from
  least_from-le best [] = (omega arith, tt)
  least_from-le best (n ∷ l) =
      if_cases
        (λ (m : RouteNode W).
          (value m ≤ value best) × All (λ (k : RouteNode W). value m ≤ value k) (n ∷ l))
        (ltb (value n) (value best))
        (λ less.
          let (le, rest) = least_from-le n l in
          (omega (arith, ltb→lt (value n) (value best) less), (le, rest)))
        (λ more. let (le, rest) = least_from-le best l in (le, (ground arith, rest)))

  least_from-In :
      (best : RouteNode W) (l : List (RouteNode W)) → In (least_from value best l) (best ∷ l)
  unfolding least_from
  least_from-In best [] = (0, refl)
  least_from-In best (n ∷ l) =
      if_cases (λ (m : RouteNode W). In m (best ∷ n ∷ l)) (ltb (value n) (value best))
        (λ less. let (i, e) = least_from-In n l in (suc i, e)) (λ more. skip (least_from-In best l))
    where
      skip : {x : RouteNode W} → In x (best ∷ l) → In x (best ∷ n ∷ l)
      skip (zero, e) = (0, e)
      skip (suc i, e) = (suc (suc i), e)

  -- A node of the list with the least value.
  pub record IsLeast (l : List (RouteNode W)) (n : RouteNode W) : Type 0 where
    pub listed : In n l
    pub least : All (λ (m : RouteNode W). value n ≤ value m) l

  select_least-IsLeast :
      (l : List (RouteNode W))
      → 0 < length l
      → (n : RouteNode W) × (select_least value l ≡ some n) × IsLeast l n
  unfolding select_least
  select_least-IsLeast [] h = absurd (omega arith)
  select_least-IsLeast (n ∷ l) h =
      (least_from value n l, refl, record { listed = least_from-In n l; least = least_from-le n l })

-- What a strategy compares.
abbrev pub value_of : {W : Type 0} → Bool → RouteNode W → ℕ
value_of true n = n.connections
value_of false n = n.response_time

abbrev pub least_strategy : Bool → LoadBalanceStrategy
least_strategy true = least_connections
least_strategy false = least_response_time

-- With a healthy node, SelectNode gives a healthy node: under LeastConnections none of the healthy nodes has
-- fewer connections than it, and under LeastResponseTime none has a shorter response time.
pub next_node-IsLeast :
    (f : FloatOps) (by_connections : Bool) (random : Option f.Carrier) (path : String)
    (lb : LoadBalancer f.Carrier)
    → lb.strategy ≡ least_strategy by_connections
    → 0 < length (get_healthy_nodes lb)
    → (n : RouteNode f.Carrier) × (next_node f random path lb ≡ (lb, some n))
      × IsLeast (value_of by_connections) (get_healthy_nodes lb) n
unfolding next_node next_by
next_node-IsLeast f true random path lb same h =
    let l = get_healthy_nodes lb in
    let (n, given, least) = select_least-IsLeast (λ m. m.connections) l h in
    (
      n,
      ap (λ (s : LoadBalanceStrategy). next_by f s random path l lb) same
          ∙ ap (λ (o : Option (RouteNode f.Carrier)). (lb, o)) given,
      record { listed = least.listed; least = least.least },
    )
next_node-IsLeast f false random path lb same h =
    let l = get_healthy_nodes lb in
    let (n, given, least) = select_least-IsLeast (λ m. m.response_time) l h in
    (
      n,
      ap (λ (s : LoadBalanceStrategy). next_by f s random path l lb) same
          ∙ ap (λ (o : Option (RouteNode f.Carrier)). (lb, o)) given,
      record { listed = least.listed; least = least.least },
    )
