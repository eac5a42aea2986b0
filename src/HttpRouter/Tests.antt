-- ===== src/HttpRouter/Tests.antt =====
-- Runs of the HTTP router.
use muxcore.Common.{ℕ, String, ◌≡◌, refl, Option, none, some, List, [], ◌∷◌, if◌then◌else◌}
use muxcore.Common.Dict.{insert}
use muxcore.Common.Keys.{string_key, number_key}
use muxcore.HttpRouter.{
  Pattern, Route, HttpRouter, new_http_router, add_route_with_middleware, add_route, use_middleware,
  match_route, serve_http,
}
use muxcore.HttpRouter.Matching.{IsAnswer, match_route-IsAnswer}

-- Any path with a parameter is compiled to a pattern that takes all of the path.
abbrev compile : String → Option (Pattern × List String)
compile path =
    if string_key.test path "/:page" then some ((λ p. some (p ∷ p ∷ [])), "page" ∷ []) else none

-- A handler is the list of what it does.
abbrev router : HttpRouter (List ℕ)
router =
    use_middleware (λ h. 9 ∷ h)
      (add_route compile "GET" "/about" (1 ∷ []) (
        add_route_with_middleware compile "GET" "/:page" (2 ∷ []) ((λ h. 7 ∷ h) ∷ [])
          (new_http_router none)))

exact_first : serve_http [] "GET" "/about" router ≡ (9 ∷ 1 ∷ [], [])
unfolding serve_http new_http_router add_route use_middleware
exact_first = refl

pattern_next : serve_http [] "GET" "/home" router ≡ (9 ∷ 7 ∷ 2 ∷ [], ("page", "/home") ∷ [])
unfolding serve_http new_http_router add_route use_middleware insert
pattern_next = refl

match_route-IsAnswer_example :
    IsAnswer "GET" "/home" router.routes (match_route "GET" "/home" router)
match_route-IsAnswer_example = match_route-IsAnswer "GET" "/home" router

abbrev about : Route (List ℕ)
about = record {
  method = "GET";
  path = "/about";
  pattern = none;
  handler = 1 ∷ [];
  middlewares = [];
  params = [];
}

about_found : match_route "GET" "/about" router ≡ some (about, [])
unfolding match_route new_http_router add_route use_middleware
about_found = refl
