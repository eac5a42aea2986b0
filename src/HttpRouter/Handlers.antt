-- ===== src/HttpRouter/Handlers.antt =====
-- core/router/http_router.go: the handler that ServeHTTP calls.
use muxcore.Common.{String, ◌≡◌, ap, ◌∙◌, Option, some, length}
use muxcore.Common.Dict.{Dict}
use muxcore.Common.Keys.{string_key, number_key}
use muxcore.HttpRouter.{Route, HttpRouter, match_route, build_handler, served, serve_http}
use muxcore.ResponseWriter.Chain.{wrap, build_loop-all}
use muxcore.ResponseWriter.{build_loop}

build_handler-wrap :
    {H : Type 0} (q : Route H) (r : HttpRouter H)
    → build_handler q r ≡ wrap r.middlewares (wrap q.middlewares q.handler)
unfolding build_handler
build_handler-wrap q r =
    build_loop-all r.middlewares (build_loop (length q.middlewares) q.middlewares q.handler)
    ∙ ap (wrap r.middlewares) (build_loop-all q.middlewares q.handler)

-- For a request that matchRoute answers, ServeHTTP calls the route's handler in the route's middlewares, and these
-- in the global ones, each once, the one that was added first outermost, with the parameters of the match.
pub serve_http-wrap :
    {H : Type 0} (default : H) (method path : String) (r : HttpRouter H) (q : Route H)
    (params : Dict String String)
    → match_route method path r ≡ some (q, params)
    → serve_http default method path r ≡ (wrap r.middlewares (wrap q.middlewares q.handler), params)
unfolding serve_http served
serve_http-wrap {H} default method path r q params found =
    ap (λ (m : Option (Route H × Dict String String)). served default m r) found
    ∙ ap (λ (h : H). (h, params)) (build_handler-wrap q r)
