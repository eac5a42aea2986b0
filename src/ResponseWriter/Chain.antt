-- ===== src/ResponseWriter/Chain.antt =====
-- core/pool/connection_manager.go: the order of middlewares.
use muxcore.Common.{
  ℕ, zero, suc, ◌≡◌, refl, sym, ap, ◌∙◌, List, [], ◌∷◌, arith, length, get_elem?, take, take_all,
}
use muxcore.Common.Keys.{string_key, number_key}
use muxcore.ResponseWriter.{MiddlewareChain, apply_at, build_loop, build}

module _ {ℓ} {H : Type ℓ} where
  -- The first middleware is the outermost one.
  pub wrap : List (H → H) → H → H
  wrap [] h = h
  wrap (m ∷ ms) h = m (wrap ms h)

  wrap-take :
      (i : ℕ) (ms : List (H → H)) (h : H)
      → wrap (take (suc i) ms) h ≡ wrap (take i ms) (apply_at (get_elem? ms i) h)
  unfolding wrap apply_at
  wrap-take zero [] h = refl
  wrap-take zero (m ∷ ms) h = refl
  wrap-take (suc i) [] h = refl
  wrap-take (suc i) (m ∷ ms) h = ap m (wrap-take i ms h)

  build_loop-wrap : (i : ℕ) (ms : List (H → H)) (h : H) → build_loop i ms h ≡ wrap (take i ms) h
  unfolding build_loop wrap
  build_loop-wrap zero ms h = refl
  build_loop-wrap (suc i) ms h =
      build_loop-wrap i ms (apply_at (get_elem? ms i) h) ∙ sym (wrap-take i ms h)

  -- The whole loop.
  pub build_loop-all : (ms : List (H → H)) (h : H) → build_loop (length ms) ms h ≡ wrap ms h
  build_loop-all ms h =
      build_loop-wrap (length ms) ms h
      ∙ ap (λ (l : List (H → H)). wrap l h) (take_all (length ms) ms (omega arith))

  -- Build wraps the handler by every middleware once, the one that was added first outermost.
  pub build-wrap : (c : MiddlewareChain H) (h : H) → build c h ≡ wrap c.middlewares h
  unfolding build
  build-wrap c h = build_loop-all c.middlewares h
