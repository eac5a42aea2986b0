-- ===== src/HttpRouter/Matching.antt =====
-- core/router/http_router.go: which route matchRoute finds.
use muxcore.Common.{
  String, ◌≡◌, refl, sym, ap, subst, ◌∙◌, ◌⊎◌, inl, inr, true, false, Option, none, some, List, [],
  ◌∷◌, ◌++◌, Bool-cases, Option-cases, drop, All,
}
use muxcore.Common.Dict.{Dict}
use muxcore.Common.Keys.{string_key, number_key}
use muxcore.HttpRouter.{
  Route, HttpRouter, is_exact, pattern_match, bind_params, find_exact, or_next, find_pattern,
  exact_or, match_route,
}

-- x stands in the list behind elements that fail the test.
abbrev pub First : {A : Type 0} → (A → Type 0) → List A → A → Type 0
First {A} Fails l x =
    (before : List A) × (after : List A) × (l ≡ before ++ x ∷ after) × All Fails before

module _ {H : Type 0} (method path : String) where
  abbrev pub NotExact : Route H → Type 0
  NotExact r = is_exact method path r ≡ false

  abbrev pub NoMatch : Route H → Type 0
  NoMatch r = pattern_match method path r ≡ none

  -- What matchRoute may answer.
  pub IsAnswer : List (Route H) → Option (Route H × Dict String String) → Type 0
  IsAnswer rs none = All NotExact rs × All NoMatch rs
  IsAnswer rs (some (r, params)) =
      (First NotExact rs r × (is_exact method path r ≡ true) × (params ≡ []))
      ⊎ (All NotExact rs
          × First NoMatch rs r
          × (ms : List String) × (pattern_match method path r ≡ some ms)
          × (params ≡ bind_params r.params (drop 1 ms) []))

  later :
      {Fails : Route H → Type 0} (q : Route H) (rs : List (Route H)) (r : Route H)
      → Fails q
      → First Fails rs r
      → First Fails (q ∷ rs) r
  later q rs r fails (before, after, same, all) = (q ∷ before, after, ap (◌∷◌ q) same, (fails, all))

  -- The first loop.
  find_exact-First :
      (rs : List (Route H))
      → ((find_exact method path rs ≡ none) × All NotExact rs)
        ⊎ ((r : Route H) × (find_exact method path rs ≡ some r)
            × First NotExact rs r
            × (is_exact method path r ≡ true))
  unfolding find_exact
  find_exact-First [] = inl (refl, tt)
  find_exact-First (q ∷ rs) = elim (Bool-cases (is_exact method path q)) [
    | inl same ↦ inr (q, rw same refl, ([], rs, refl, tt), same)
    | inr other ↦ elim (find_exact-First rs) [
      | inl (absent, all) ↦ inl (rw other absent, (other, all))
      | inr (r, found, first, exact) ↦ inr (r, rw other found, later q rs r other first, exact)
    ]
  ]

  -- The second loop.
  find_pattern-First :
      (rs : List (Route H))
      → ((find_pattern method path rs ≡ none) × All NoMatch rs)
        ⊎ ((r : Route H) × (ms : List String) × (find_pattern method path rs
              ≡ some (r, bind_params r.params (drop 1 ms) []))
            × First NoMatch rs r
            × (pattern_match method path r ≡ some ms))
  unfolding find_pattern or_next
  find_pattern-First [] = inl (refl, tt)
  find_pattern-First (q ∷ rs) = elim (Option-cases (pattern_match method path q)) [
    | inr (ms, match) ↦ inr (
      q,
      ms,
      ap (λ (o : Option (List String)). or_next q o (find_pattern method path rs)) match,
      ([], rs, refl, tt),
      match,
    )
    | inl other ↦ elim (find_pattern-First rs) [
      | inl (absent, all) ↦ inl (
        ap (λ (o : Option (List String)). or_next q o (find_pattern method path rs)) other ∙ absent,
        (other, all),
      )
      | inr (r, ms, found, first, match) ↦ inr (
        r,
        ms,
        ap (λ (o : Option (List String)). or_next q o (find_pattern method path rs)) other ∙ found,
        later q rs r other first,
        match,
      )
    ]
  ]

  -- matchRoute answers the first route whose method and path are those asked for, with no parameters; where there
  -- is none, the first one of the method whose pattern matches the path, with the parameters bound to the
  -- submatches; and nothing only where no route is of either kind.
  pub match_route-IsAnswer : (r : HttpRouter H) → IsAnswer r.routes (match_route method path r)
  unfolding match_route exact_or IsAnswer
  match_route-IsAnswer r = elim (find_exact-First r.routes) [
    | inr (q, found, first, exact) ↦
        subst
          (λ (o : Option (Route H)).
            IsAnswer r.routes (exact_or o (find_pattern method path r.routes)))
          (sym found) (inl (first, exact, refl))
    | inl (absent, all) ↦
        subst
          (λ (o : Option (Route H)).
            IsAnswer r.routes (exact_or o (find_pattern method path r.routes)))
          (sym absent)
          (elim (find_pattern-First r.routes) [
            | inl (unmatched, every) ↦ subst (IsAnswer r.routes) (sym unmatched) (all, every)
            | inr (q, ms, found, first, match) ↦
                subst (IsAnswer r.routes) (sym found) (inr (all, first, ms, match, refl))
          ])
  ]
