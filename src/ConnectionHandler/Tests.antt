-- ===== src/ConnectionHandler/Tests.antt =====
-- Runs of the handler of connections.
use muxcore.Common.{◌≡◌, refl, Bool, Option, none, some, List, [], ◌∷◌, arith}
use muxcore.Common.Keys.{string_key, number_key}
use muxcore.ConnectionHandler.{
  ConnectionHandler, new_connection_handler, start_handler, stop_handler, HandleEvent, enter_event,
  count_event, parse_error_event, uncount_event, leave_event, serve_event, run_handles,
}
use muxcore.ConnectionHandler.Accounts.{Accounted}
use muxcore.ConnectionHandler.Limits.{run_handles-Accounted}

-- Three calls where two are allowed; the first cannot read its request.
abbrev calls : List HandleEvent
calls =
    enter_event
    ∷ enter_event
    ∷ enter_event
    ∷ count_event 1
    ∷ count_event 0
    ∷ parse_error_event 0
    ∷ uncount_event 0
    ∷ serve_event 1 "close" 1 1 404
    ∷ leave_event 0
    ∷ enter_event
    ∷ []

run_handles-Accounted_example : Accounted (run_handles calls (new_connection_handler 2))
run_handles-Accounted_example = run_handles-Accounted calls 2 (omega arith)

-- There are more failed requests than requests.
more_failed :
    let h = run_handles calls (new_connection_handler 2) in
    (h.metrics.failed_requests ≡ 2)
    × (h.metrics.total_requests ≡ 1)
    × (h.closed ≡ 3)
    × (h.limiter.current ≡ 2)
unfolding run_handles new_connection_handler
more_failed = (refl, refl, refl, refl)

-- The second Stop after a second Start.
abbrev second_stop : Option (ConnectionHandler × Bool) → Option (ConnectionHandler × Bool)
second_stop none = none
second_stop (some p) = stop_handler (start_handler p.0).0

stop_again_fails : second_stop (stop_handler (start_handler (new_connection_handler 2)).0) ≡ none
unfolding stop_handler start_handler new_connection_handler
stop_again_fails = refl
