-- ===== src/HttpRouter.antt =====
-- core/router/http_router.go: the routes of HTTPRouter. A handler is a value of the type H and a middleware a
-- function on it. regexp is a parameter: `compile` gives the pattern of a path that contains ":" or "*" with the
-- names of its parameters, or none, and a pattern gives what FindStringSubmatch does, the whole match first.
-- The method trees, which AddRoute writes and nothing reads, are left out.
pub mod Matching
pub mod Handlers
mod Tests
use muxcore.Common.{
  String, Bool, ◌&&◌, Option, none, some, List, [], ◌∷◌, ◌++◌, if◌then◌else◌, length, drop,
}
use muxcore.Common.Dict.{Dict, insert}
use muxcore.Common.Keys.{string_key, number_key}
use muxcore.ResponseWriter.{build_loop}

abbrev pub Pattern : Type 0
Pattern = String → Option (List String)

pub record Route (H : Type 0) : Type 0 where
  pub method : String
  pub path : String
  pub pattern : Option Pattern
  pub handler : H
  pub middlewares : List (H → H)
  pub params : List String

pub record HttpRouter (H : Type 0) : Type 0 where
  pub routes : List (Route H)
  pub middlewares : List (H → H)
  pub not_found_handler : Option H

-- The pattern and the parameters, where the path was compiled.
pub compiled : Option (Pattern × List String) → Option Pattern × List String
compiled none = (none, [])
compiled (some (f, names)) = (some f, names)

-- `route.Pattern.FindStringSubmatch(path)`, nil without a pattern.
pub find_submatch : Option Pattern → String → Option (List String)
find_submatch none path = none
find_submatch (some f) path = f path

-- The names with the matches behind the whole one, as far as there are some.
pub bind_params : List String → List String → Dict String String → Dict String String
bind_params [] ms bound = bound
bind_params (p ∷ ps) [] bound = bound
bind_params (p ∷ ps) (m ∷ ms) bound = bind_params ps ms (insert p m bound)

module _ {H : Type 0} where
  pub new_http_router : Option H → HttpRouter H
  new_http_router not_found = record {
    routes = [];
    middlewares = [];
    not_found_handler = not_found;
  }

  pub add_route_with_middleware :
      (String → Option (Pattern × List String))
      → String
      → String
      → H
      → List (H → H)
      → HttpRouter H
      → HttpRouter H
  unfolding compiled
  add_route_with_middleware compile method path handler middlewares r =
      let (pattern, params) = compiled (compile path) in
      record r {
        routes =
            r.routes
            ++ record {
              method = method;
              path = path;
              pattern = pattern;
              handler = handler;
              middlewares = middlewares;
              params = params;
            }
              ∷ [];
      }

  pub add_route :
      (String → Option (Pattern × List String)) → String → String → H → HttpRouter H → HttpRouter H
  unfolding add_route_with_middleware
  add_route compile method path handler r =
      add_route_with_middleware compile method path handler [] r

  -- Use.
  pub use_middleware : (H → H) → HttpRouter H → HttpRouter H
  use_middleware m r = record r { middlewares = r.middlewares ++ m ∷ [] }

  pub is_exact : String → String → Route H → Bool
  is_exact method path r = string_key.test r.method method && string_key.test r.path path

  pub pattern_match : String → String → Route H → Option (List String)
  unfolding find_submatch
  pattern_match method path r =
      if string_key.test r.method method then find_submatch r.pattern path else none

  pub find_exact : String → String → List (Route H) → Option (Route H)
  unfolding is_exact
  find_exact method path [] = none
  find_exact method path (r ∷ rs) =
      let rest = find_exact method path rs in if is_exact method path r then some r else rest

  -- One round of the second loop of matchRoute.
  pub or_next :
      Route H
      → Option (List String)
      → Option (Route H × Dict String String)
      → Option (Route H × Dict String String)
  unfolding bind_params
  or_next r none next = next
  or_next r (some ms) next = some (r, bind_params r.params (drop 1 ms) [])

  pub find_pattern : String → String → List (Route H) → Option (Route H × Dict String String)
  unfolding pattern_match or_next
  find_pattern method path [] = none
  find_pattern method path (r ∷ rs) =
      or_next r (pattern_match method path r) (find_pattern method path rs)

  pub exact_or :
      Option (Route H)
      → Option (Route H × Dict String String)
      → Option (Route H × Dict String String)
  exact_or none found = found
  exact_or (some r) found = some (r, [])

  pub match_route : String → String → HttpRouter H → Option (Route H × Dict String String)
  unfolding find_exact find_pattern exact_or
  match_route method path r =
      exact_or (find_exact method path r.routes) (find_pattern method path r.routes)

  pub build_handler : Route H → HttpRouter H → H
  unfolding build_loop
  build_handler route r =
      build_loop (length r.middlewares) r.middlewares
        (build_loop (length route.middlewares) route.middlewares route.handler)

  pub or_default : H → Option H → H
  or_default default none = default
  or_default default (some h) = h

  pub served : H → Option (Route H × Dict String String) → HttpRouter H → H × Dict String String
  unfolding build_handler or_default
  served default none r = (or_default default r.not_found_handler, [])
  served default (some (route, params)) r = (build_handler route r, params)

  -- ServeHTTP: the handler that it calls, with the parameters in the request's context; `default` is
  -- http.NotFound.
  pub serve_http : H → String → String → HttpRouter H → H × Dict String String
  unfolding match_route served
  serve_http default method path r = served default (match_route method path r) r
