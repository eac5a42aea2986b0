-- ===== src/NodeRouter/Healthy.antt =====
-- core/router/multidimensional_router.go: which node SelectNode gives.
use mathlib.Core.Option.{some_inj}
use muxcore.Common.{
  ℕ, zero, suc, ◌+◌, String, ◌≡◌, refl, ap, subst, ◌⊎◌, inl, inr, true, Option, none, some, List,
  [], ◌∷◌, map, arith, ltb, ◌==◌, Bool-cases, length, get_elem?, All, if_either,
}
use muxcore.Common.Dict.{Dict, lookup, insert, Distinct}
use muxcore.Common.Keys.{string_key, number_key}
use muxcore.Common.Int.{pos, negsuc}
use muxcore.Common.Floats.{FloatOps}
use muxcore.NodeRouter.{
  RouteNode, NodeRouter, Candidate, LoadBalanceStrategy, round_robin, weighted_round_robin,
  least_connections, least_response_time, consistent_hash, get_candidate_nodes, is_healthy,
  sum_weights,
}
use muxcore.NodeRouter.Candidates.{Fit, get_candidate_nodes-Fit}
use muxcore.NodeRouter.Selection.{
  least_by, select_least_connections, select_least_response_time, select_first, select_round_robin,
  best_score, node_score, select_weighted, select_by, count_connection, select_from, select_node,
  max_int,
}

-- An element of a list, with its place.
abbrev pub In {ℓ} : {A : Type ℓ} → A → List A → Type ℓ
In x l = (i : ℕ) × (get_elem? l i ≡ some x)

module _ {ℓ κ} {A : Type ℓ} (P : A → Type κ) where
  All-In : (l : List A) (i : ℕ) (x : A) → get_elem? l i ≡ some x → All P l → P x
  All-In [] i x e h = absurd (cc)
  All-In (y ∷ l) zero x e (p, h) = subst P (some_inj.0 e) p
  All-In (y ∷ l) (suc i) x e (p, h) = All-In l i x e h

-- The loop gives its start or an element of the list.
least_by-In :
    {W : Type 0} (value : RouteNode W → ℕ) (least : ℕ) (best : Option (Candidate W))
    (l : List (Candidate W)) (x : Candidate W)
    → least_by value least best l ≡ some x
    → (best ≡ some x) ⊎ In x l
unfolding least_by
least_by-In value least best [] x e = inl e
least_by-In value least best ((id, n) ∷ l) x e = elim (Bool-cases (ltb (value n) least)) [
  | inl less ↦ elim (least_by-In value (value n) (some (id, n)) l x (ground arith)) [
    | inl here ↦ inr (0, here)
    | inr (i, there) ↦ inr (suc i, there)
  ]
  | inr not_less ↦ elim (least_by-In value least best l x (ground arith)) [
    | inl start ↦ inl start
    | inr (i, there) ↦ inr (suc i, there)
  ]
]

module _ (f : FloatOps) where
  abbrev Node : Type 0
  Node = RouteNode f.Carrier

  abbrev Cand : Type 0
  Cand = Candidate f.Carrier

  best_score-In :
      (most : f.Carrier) (best : Option Cand) (l : List Cand) (x : Cand)
      → best_score f most best l ≡ some x
      → (best ≡ some x) ⊎ In x l
  unfolding best_score
  best_score-In most best [] x e = inl e
  best_score-In most best ((id, n) ∷ l) x e = elim (Bool-cases (f.less most (node_score f n))) [
    | inl less ↦ elim (best_score-In (node_score f n) (some (id, n)) l x (ground arith)) [
      | inl here ↦ inr (0, here)
      | inr (i, there) ↦ inr (suc i, there)
    ]
    | inr not_less ↦ elim (best_score-In most best l x (ground arith)) [
      | inl start ↦ inl start
      | inr (i, there) ↦ inr (suc i, there)
    ]
  ]

  from_none : (x : Cand) (l : List Cand) → (none ≡ some x) ⊎ In x l → In x l
  from_none x l (inl e) = absurd (cc)
  from_none x l (inr h) = h

  select_round_robin-In :
      (l : List Cand) (r : NodeRouter f) (x : Cand) → (select_round_robin f l r).1 ≡ some x → In x l
  unfolding select_round_robin
  select_round_robin-In [] r x e = absurd (cc)
  select_round_robin-In (c ∷ l) r x e = (_, e)

  select_by-In :
      (s : LoadBalanceStrategy) (l : List Cand) (r : NodeRouter f) (x : Cand)
      → (select_by f s l r).1 ≡ some x
      → In x l
  unfolding select_by select_least_connections select_least_response_time select_first
      select_weighted
  select_by-In round_robin l r x e = select_round_robin-In l r x e
  select_by-In weighted_round_robin l r x e =
      if_either (λ (p : NodeRouter f × Option Cand). p.1 ≡ some x → In x l)
        (f.equal (sum_weights f (f.of_int (pos 0)) (map (λ (c : Cand). c.1.weight) l))
          (f.of_int (pos 0)))
        {x = select_round_robin f l r} {y = (r, best_score f (f.of_int (negsuc 0)) none l)}
        (select_round_robin-In l r x)
        (λ h. from_none x l (best_score-In (f.of_int (negsuc 0)) none l x h)) e
  select_by-In least_connections l r x e = from_none x l (least_by-In _ max_int none l x e)
  select_by-In least_response_time l r x e = from_none x l (least_by-In _ max_int none l x e)
  select_by-In consistent_hash [] r x e = absurd (cc)
  select_by-In consistent_hash (c ∷ l) r x e = (0, e)

  -- No strategy writes into a node.
  nodes-round_robin :
      (l : List Cand) (r : NodeRouter f) → (select_round_robin f l r).0.nodes ≡ r.nodes
  unfolding select_round_robin
  nodes-round_robin [] r = refl
  nodes-round_robin (c ∷ l) r = refl

  nodes-select_by :
      (s : LoadBalanceStrategy) (l : List Cand) (r : NodeRouter f)
      → (select_by f s l r).0.nodes ≡ r.nodes
  unfolding select_by select_weighted
  nodes-select_by round_robin l r = nodes-round_robin l r
  nodes-select_by weighted_round_robin l r =
      if_either (λ (p : NodeRouter f × Option Cand). p.0.nodes ≡ r.nodes) _ (nodes-round_robin l r)
        refl
  nodes-select_by least_connections l r = refl
  nodes-select_by least_response_time l r = refl
  nodes-select_by consistent_hash l r = refl

  -- What SelectNode gives, if it gives a node, and what it leaves behind.
  abbrev pub Given : NodeRouter f → NodeRouter f × Option Cand → Type 0
  Given r p =
      (x : Cand)
      → p.1 ≡ some x
      → (n : Node) × (lookup x.0 r.nodes ≡ some n)
        × (is_healthy n.status ≡ true)
        × (x.1 ≡ record n { connections = n.connections + 1 })
        × (p.0.nodes ≡ insert x.0 x.1 r.nodes)

  count_connection-Given :
      (r r' : NodeRouter f) (o : Option Cand)
      → r'.nodes ≡ r.nodes
      → ((x : Cand) → o ≡ some x → Fit f r.nodes x)
      → Given r (count_connection f (r', o))
  unfolding count_connection
  count_connection-Given r r' none same fit x e = absurd (cc)
  count_connection-Given r r' (some (id, n)) same fit x e =
      let (found, healthy) = fit (id, n) refl in
      let here : (id, record n { connections = n.connections + 1 }) ≡ x = some_inj.0 e in
      subst
        (λ (y : Cand).
          (m : Node) × (lookup y.0 r.nodes ≡ some m)
          × (is_healthy m.status ≡ true)
          × (y.1 ≡ record m { connections = m.connections + 1 })
          × (insert id (record n { connections = n.connections + 1 }) r'.nodes
              ≡ insert y.0 y.1 r.nodes))
        here
        (
          n,
          found,
          healthy,
          refl,
          ap (λ (m : Dict String Node). insert id (record n { connections = n.connections + 1 }) m)
              same,
        )

  select_from-Given :
      (l : List Cand) (r : NodeRouter f) → All (Fit f r.nodes) l → Given r (select_from f l r)
  unfolding select_from
  select_from-Given [] r fit = λ x e. absurd (cc)
  select_from-Given (c ∷ l) r fit =
      count_connection-Given r (select_by f r.strategy (c ∷ l) r).0
        (select_by f r.strategy (c ∷ l) r).1 (nodes-select_by r.strategy (c ∷ l) r)
        (λ x e.
          let (i, at_i) = select_by-In r.strategy (c ∷ l) r x e in
          All-In (Fit f r.nodes) (c ∷ l) i x at_i fit)

  -- SelectNode gives only registered nodes that are healthy, whatever the strategy is; the node that it
  -- gives has one connection more than before, and no other node changes.
  pub select_node-Given :
      (criteria : Dict String String) (r : NodeRouter f)
      → Distinct r.nodes
      → Given r (select_node f criteria r)
  unfolding select_node
  select_node-Given criteria r d =
      if_either (Given r) (length r.nodes == 0) (λ x e. absurd (cc))
        (select_from-Given (get_candidate_nodes f criteria r) r
          (get_candidate_nodes-Fit f criteria r d))
