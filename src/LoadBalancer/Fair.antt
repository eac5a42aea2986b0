-- ===== src/LoadBalancer/Fair.antt =====
-- core/router/enhanced_router.go: LoadBalancer in rounds.
use muxcore.Common.{
  ℕ, zero, suc, ◌+◌, ◌-◌, ◌%◌, ◌^◌, ◌≤◌, ◌<◌, String, ◌≡◌, refl, sym, ap, ◌∙◌, Option, some, List,
  [], ◌∷◌, ◌++◌, map, arith, length, get_elem?, take, drop, length-drop, take_all, lt→ltb,
}
use muxcore.Common.Keys.{string_key, number_key}
use mathlib.Core.Option.{some_inj}
use mathlib.Core.Path.{ap₂}
use mathlib.Core.List.{map-append}
use muxcore.Common.Lists.{get_elem?-lt}
use native.Mathlib.Nat.{suc-add, mod-lt, mod-add-mod, mod-eq_of_lt, mod_self}
use muxcore.Common.Floats.{FloatOps}
use muxcore.NodeRouter.{RouteNode, LoadBalanceStrategy, round_robin}
use muxcore.LoadBalancer.{
  LoadBalancer, get_healthy_nodes, healthy_nodes, node_at, next_round_robin, next_by, next_node,
}

-- Places on a circle of n.
place_after : (c n s m : ℕ) → c % n ≡ s → (c + m) % n ≡ (s + m) % n
place_after c n s m e = sym (mod-add-mod c n m) ∙ ap (λ (x : ℕ). (x + m) % n) e

module _ {ℓ} {A : Type ℓ} (l : List A) where
  -- The elements from a place c on a circle.
  circle : ℕ → ℕ → List (Option A)
  circle zero c = []
  circle (suc m) c = get_elem? l (c % length l) ∷ circle m (c + 1)

  abbrev answers : List A → List (Option A)
  answers xs = map (λ (x : A). some x) xs

  circle-append : (a b c : ℕ) → circle (a + b) c ≡ circle a c ++ circle b (c + a)
  unfolding circle
  circle-append zero b c = ap₂ circle (omega arith) (omega arith)
  circle-append (suc a) b c =
      ap (λ (m : ℕ). circle m c) (suc-add a b)
      ∙ ap (λ (xs : List (Option A)). get_elem? l (c % length l) ∷ xs)
          (circle-append a b (c + 1) ∙ ap (λ (k : ℕ). circle a (c + 1) ++ circle b k) (omega arith))

  drop-cons :
      (xs : List A) (s : ℕ) (x : A) → get_elem? xs s ≡ some x → drop s xs ≡ x ∷ drop (suc s) xs
  drop-cons [] s x e = absurd (cc)
  drop-cons (y ∷ xs) zero x e = ap (λ (z : A). z ∷ xs) (some_inj.0 e)
  drop-cons (y ∷ xs) (suc s) x e = drop-cons xs s x e

  circle-take :
      (m s c : ℕ) → c % length l ≡ s → s + m ≤ length l → circle m c ≡ answers (take m (drop s l))
  unfolding circle
  circle-take zero s c at_s fits = refl
  circle-take (suc zero) s c at_s fits =
      let (x, found) = get_elem?-lt l s (omega arith) in
      ap (λ (i : ℕ). get_elem? l i ∷ []) at_s
      ∙ ap (λ (o : Option A). o ∷ []) found
      ∙ ap (λ (xs : List A). answers (take 1 xs)) (sym (drop-cons l s x found))
  circle-take (suc (suc k)) s c at_s fits =
      let (x, found) = get_elem?-lt l s (omega arith) in
      let moved : (c + 1) % length l ≡ suc s =
        place_after c (length l) s 1 at_s ∙ mod-eq_of_lt (omega arith) ∙ omega arith in
      ap (λ (i : ℕ). get_elem? l i ∷ circle (suc k) (c + 1)) at_s
      ∙ ap (λ (o : Option A). o ∷ circle (suc k) (c + 1)) found
      ∙ ap (λ (xs : List (Option A)). some x ∷ xs)
          (circle-take (suc k) (suc s) (c + 1) moved (omega arith))
      ∙ ap (λ (xs : List A). answers (take (suc (suc k)) xs)) (sym (drop-cons l s x found))

  -- Once round the circle.
  circle-round :
      (c s : ℕ)
      → c % length l ≡ s
      → s < length l
      → circle (length l) c ≡ answers (drop s l ++ take s l)
  circle-round c s at_s lt =
      let n = length l in
      let at_start : (c + (n - s)) % n ≡ 0 =
        place_after c n s (n - s) at_s ∙ ap (λ (x : ℕ). x % n) (rejoin n s lt) ∙ mod_self n in
      ap (λ (m : ℕ). circle m c) (sym (omega arith))
      ∙ circle-append (n - s) s c
      ∙ ap₂ ◌++◌
          (circle-take (n - s) s c at_s (omega arith)
            ∙ ap answers (take_all (n - s) (drop s l) (omega (arith, length-drop s l))))
          (circle-take s 0 (c + (n - s)) at_start (omega arith))
      ∙ sym (map-append (λ (x : A). some x) (drop s l) (take s l))
    where
      rejoin : (n s : ℕ) → s < n → s + (n - s) ≡ n
      rejoin n s lt = omega arith

module _ {W : Type 0} where
  -- The nodes that some calls of selectRoundRobin give one after the other.
  unfoldable pub rounds : ℕ → List (RouteNode W) → LoadBalancer W → List (Option (RouteNode W))
  unfolding next_round_robin
  rounds zero l lb = []
  rounds (suc k) l lb = (next_round_robin l lb).1 ∷ rounds k l (next_round_robin l lb).0

  next_round_robin-small :
      (l : List (RouteNode W)) (lb : LoadBalancer W)
      → 0 < length l
      → lb.current_index + 1 < 2 ^ 63
      → next_round_robin l lb ≡ (
        record lb { current_index = lb.current_index + 1 },
        get_elem? l ((lb.current_index + 1) % length l),
      )
  unfolding next_round_robin node_at
  next_round_robin-small [] lb some_nodes small = absurd (omega arith)
  next_round_robin-small (n ∷ l) lb some_nodes small =
      let e : (lb.current_index + 1) % 2 ^ 64 ≡ lb.current_index + 1 = omega arith in
      ap (λ (i : ℕ). (record lb { current_index = i }, node_at i (n ∷ l))) e
      ∙ rw (lt→ltb (lb.current_index + 1) (2 ^ 63) small) refl

  rounds-circle :
      (k : ℕ) (l : List (RouteNode W)) (lb : LoadBalancer W)
      → 0 < length l
      → lb.current_index + k < 2 ^ 63
      → rounds k l lb ≡ circle l k (lb.current_index + 1)
  unfolding rounds circle
  rounds-circle zero l lb some_nodes small = refl
  rounds-circle (suc k) l lb some_nodes small =
      ap (λ (p : LoadBalancer W × Option (RouteNode W)). p.1 ∷ rounds k l p.0)
        (next_round_robin-small l lb some_nodes (omega arith))
      ∙ ap
          (λ (xs : List (Option (RouteNode W))).
            get_elem? l ((lb.current_index + 1) % length l) ∷ xs)
          (rounds-circle k l (record lb { current_index = lb.current_index + 1 }) some_nodes
            (omega arith))

module _ (f : FloatOps) where
  -- The nodes that some calls of SelectNode give, with what each draws and the path of its request.
  unfoldable pub calls :
      List (Option f.Carrier × String)
      → LoadBalancer f.Carrier
      → List (Option (RouteNode f.Carrier))
  unfolding next_node
  calls [] lb = []
  calls ((random, path) ∷ rs) lb =
      (next_node f random path lb).1 ∷ calls rs (next_node f random path lb).0

  kept :
      (l : List (RouteNode f.Carrier)) (lb : LoadBalancer f.Carrier)
      → ((next_round_robin l lb).0.nodes ≡ lb.nodes)
        × ((next_round_robin l lb).0.strategy ≡ lb.strategy)
  unfolding next_round_robin
  kept [] lb = (refl, refl)
  kept (n ∷ l) lb = (refl, refl)

  calls-rounds :
      (rs : List (Option f.Carrier × String)) (lb : LoadBalancer f.Carrier)
      → lb.strategy ≡ round_robin
      → calls rs lb ≡ rounds (length rs) (healthy_nodes lb.nodes) lb
  unfolding calls rounds next_node next_by get_healthy_nodes
  calls-rounds [] lb same = refl
  calls-rounds ((random, path) ∷ rs) lb same =
      let l = healthy_nodes lb.nodes in
      let next = (next_round_robin l lb).0 in
      let (nodes_kept, strategy_kept) = kept l lb in
      ap (λ (p : LoadBalancer f.Carrier × Option (RouteNode f.Carrier)). p.1 ∷ calls rs p.0)
        (ap (λ (s : LoadBalanceStrategy). next_by f s random path l lb) same)
      ∙ ap (λ (xs : List (Option (RouteNode f.Carrier))). (next_round_robin l lb).1 ∷ xs)
          (calls-rounds rs next (strategy_kept ∙ same)
            ∙ ap (λ (ns : List (RouteNode f.Carrier)). rounds (length rs) (healthy_nodes ns) next)
                nodes_kept)

  -- Under the strategy RoundRobin as many calls of SelectNode as there are healthy nodes give every healthy
  -- node once, in their order, from the place behind the one that was given last, as long as the counter
  -- stays below 2 ^ 63.
  pub next_node_fair :
      (rs : List (Option f.Carrier × String)) (lb : LoadBalancer f.Carrier)
      → let l = get_healthy_nodes lb in
        let start = (lb.current_index + 1) % length l in
        lb.strategy ≡ round_robin
        → 0 < length l
        → length rs ≡ length l
        → lb.current_index + length l < 2 ^ 63
        → calls rs lb ≡ map (λ (n : RouteNode f.Carrier). some n) (drop start l ++ take start l)
  unfolding get_healthy_nodes
  next_node_fair rs lb same some_nodes enough small =
      let l = healthy_nodes lb.nodes in
      calls-rounds rs lb same
      ∙ ap (λ (k : ℕ). rounds k l lb) enough
      ∙ rounds-circle (length l) l lb some_nodes small
      ∙ circle-round l (lb.current_index + 1) ((lb.current_index + 1) % length l) refl
          (mod-lt (lb.current_index + 1) some_nodes)
