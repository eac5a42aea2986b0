-- ===== src/ResponseWriter/Tests.antt =====
-- Runs of the writer of a response.
use muxcore.Common.{ℕ, String, ◌≡◌, refl, true, false, List, [], ◌∷◌}
use muxcore.Common.Keys.{string_key, number_key}
use muxcore.ResponseWriter.{ResponseWriter, waits, write, MiddlewareChain, add_middleware, build}
use muxcore.ResponseWriter.Lock.{write_waits}

abbrev line : ℕ → String
line code = "HTTP/1.1 200 OK"

abbrev idle : ResponseWriter
idle = record {
  sent = [];
  header = "Content-Type: text/plain" ∷ [];
  status = 0;
  written = 0;
  header_sent = false;
  locked = false;
}

write_waits_example : write line "hello" 5 idle ≡ waits (record idle { locked = true })
write_waits_example = write_waits line "hello" 5 idle refl refl

-- Two middlewares that leave a trace.
abbrev trace : MiddlewareChain (List ℕ)
trace = add_middleware (λ h. 2 ∷ h) (add_middleware (λ h. 1 ∷ h) (record { middlewares = [] }))

trace_order : build trace [] ≡ 1 ∷ 2 ∷ []
unfolding build add_middleware
trace_order = refl
