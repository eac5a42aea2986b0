-- ===== src/NodeRouter/Candidates.antt =====
-- core/router/multidimensional_router.go: the candidates of a request.
use muxcore.Common.{
  String, ◌≡◌, refl, sym, ap, subst, ◌∙◌, inl, inr, true, Option, none, some, List, [], ◌∷◌, arith,
  Bool-cases, All, if_either, if_cases,
}
use muxcore.Common.Dict.{Dict, lookup, insert, Distinct}
use muxcore.Common.Keys.{string_key, number_key, same_refl}
use mathlib.Core.Option.{some_inj}
use muxcore.Common.Int.{pos}
use muxcore.Common.Floats.{FloatOps}
use muxcore.NodeRouter.{
  RouteNode, NodeRouter, Candidate, get_candidate_nodes, is_healthy, initial_scores, add_found,
  add_scores, score_all, or_zero, rule_ids, values_of, add_candidate, collect,
}

module _ (f : FloatOps) where
  abbrev Node : Type 0
  Node = RouteNode f.Carrier

  abbrev Cand : Type 0
  Cand = Candidate f.Carrier

  -- A key of a node that is healthy.
  Healthy : Dict String Node → String → Type 0
  Healthy nodes id = (n : Node) × (lookup id nodes ≡ some n) × (is_healthy n.status ≡ true)

  abbrev Scored : Dict String Node → Dict String f.Carrier → Type 0
  Scored nodes scores = All (λ (e : String × f.Carrier). Healthy nodes e.0) scores

  -- A node in front does not hide the others.
  Healthy-cons :
      (k : String) (m : Node) (nodes : Dict String Node) (id : String)
      → lookup k nodes ≡ none
      → Healthy nodes id
      → Healthy ((k, m) ∷ nodes) id
  unfolding Healthy lookup
  Healthy-cons k m nodes id absent (n, found, healthy) = elim (Bool-cases (string_key.test k id)) [
    | inl same ↦
        let e = ap (λ (j : String). lookup j nodes) ((string_key.test_iff k id).0 same) in
        absurd (cc)
    | inr other ↦ (n, rw other found, healthy)
  ]

  Scored-cons :
      (k : String) (m : Node) (nodes : Dict String Node) (scores : Dict String f.Carrier)
      → lookup k nodes ≡ none
      → Scored nodes scores
      → Scored ((k, m) ∷ nodes) scores
  Scored-cons k m nodes [] absent h = tt
  Scored-cons k m nodes ((id, s) ∷ scores) absent (first, h) =
      (Healthy-cons k m nodes id absent first, Scored-cons k m nodes scores absent h)

  first-Healthy :
      (id : String) (n : Node) (nodes : Dict String Node)
      → is_healthy n.status ≡ true
      → Healthy ((id, n) ∷ nodes) id
  unfolding Healthy lookup
  first-Healthy id n nodes healthy = (n, rw (same_refl id) refl, healthy)

  initial_scores-Scored :
      (nodes : Dict String Node) → Distinct nodes → Scored nodes (initial_scores f nodes)
  unfolding initial_scores
  initial_scores-Scored [] d = tt
  initial_scores-Scored ((id, n) ∷ nodes) (absent, d) =
      let rest =
        Scored-cons id n nodes (initial_scores f nodes) absent (initial_scores-Scored nodes d) in
      if_cases (λ (l : Dict String f.Carrier). Scored ((id, n) ∷ nodes) l) (is_healthy n.status)
        (λ healthy. (first-Healthy id n nodes healthy, rest)) (λ _. rest)

  insert-Scored :
      (nodes : Dict String Node) (id : String) (s old : f.Carrier) (scores : Dict String f.Carrier)
      → lookup id scores ≡ some old
      → Scored nodes scores
      → Scored nodes (insert id s scores)
  unfolding lookup insert
  insert-Scored nodes id s old [] found h = absurd (cc)
  insert-Scored nodes id s old ((j, t) ∷ scores) found (first, h) =
      if_cases (λ (l : Dict String f.Carrier). Scored nodes l) (string_key.test j id)
        (λ same. (first, h))
        (λ other. (first, insert-Scored nodes id s old scores (ground arith) h))

  add_found-Scored :
      (nodes : Dict String Node) (o : Option f.Carrier) (w : f.Carrier) (id : String)
      (scores : Dict String f.Carrier)
      → lookup id scores ≡ o
      → Scored nodes scores
      → Scored nodes (add_found f o w id scores)
  unfolding add_found
  add_found-Scored nodes none w id scores found h = h
  add_found-Scored nodes (some s) w id scores found h =
      insert-Scored nodes id (f.add s w) s scores found h

  add_scores-Scored :
      (nodes : Dict String Node) (w : f.Carrier) (ids : List String)
      (scores : Dict String f.Carrier)
      → Scored nodes scores
      → Scored nodes (add_scores f w ids scores)
  unfolding add_scores
  add_scores-Scored nodes w [] scores h = h
  add_scores-Scored nodes w (id ∷ ids) scores h =
      add_scores-Scored nodes w ids _ (add_found-Scored nodes (lookup id scores) w id scores refl h)

  score_all-Scored :
      (nodes : Dict String Node) (criteria : Dict String String) (r : NodeRouter f)
      (scores : Dict String f.Carrier)
      → Scored nodes scores
      → Scored nodes (score_all f criteria r scores)
  unfolding score_all
  score_all-Scored nodes [] r scores h = h
  score_all-Scored nodes ((dim, value) ∷ criteria) r scores h =
      score_all-Scored nodes criteria r _ (
        add_scores-Scored nodes (or_zero f (lookup dim r.weights))
          (rule_ids f (lookup value (values_of f (lookup dim r.rules)))) scores h)

  -- What holds of a candidate.
  abbrev pub Fit : Dict String Node → Cand → Type 0
  Fit nodes c = (lookup c.0 nodes ≡ some c.1) × (is_healthy c.1.status ≡ true)

  add_candidate-Fit :
      (nodes : Dict String Node) (o : Option Node) (id : String) (l : List Cand)
      → lookup id nodes ≡ o
      → Healthy nodes id
      → All (Fit nodes) l
      → All (Fit nodes) (add_candidate f o id l)
  unfolding add_candidate Healthy
  add_candidate-Fit nodes none id l found h rest = rest
  add_candidate-Fit nodes (some n) id l found (m, found', healthy) rest =
      let same : m ≡ n = some_inj.0 (sym found' ∙ found) in
      ((found, subst (λ (x : Node). is_healthy x.status ≡ true) same healthy), rest)

  collect-Fit :
      (nodes : Dict String Node) (scores : Dict String f.Carrier)
      → Scored nodes scores
      → All (Fit nodes) (collect f nodes scores)
  unfolding collect
  collect-Fit nodes [] h = tt
  collect-Fit nodes ((id, s) ∷ scores) (first, h) =
      let rest = collect-Fit nodes scores h in
      if_either (All (Fit nodes)) (f.less (f.of_int (pos 0)) s)
        (add_candidate-Fit nodes (lookup id nodes) id _ refl first rest) rest

  pub get_candidate_nodes-Fit :
      (criteria : Dict String String) (r : NodeRouter f)
      → Distinct r.nodes
      → All (Fit r.nodes) (get_candidate_nodes f criteria r)
  unfolding get_candidate_nodes
  get_candidate_nodes-Fit criteria r d =
      collect-Fit r.nodes _
        (score_all-Scored r.nodes criteria r _ (initial_scores-Scored r.nodes d))
