-- ===== src/ConnectionHandler/Limits.antt =====
-- core/pool/connection_manager.go: the limit on the calls of Handle over any interleaving of them.
use muxcore.Common.{ℕ, ◌^◌, ◌<◌, refl, List, [], ◌∷◌, arith, get_elem?}
use muxcore.ConnectionHandler.{
  new_limiter, ConnectionHandler, new_connection_handler, should_keep_alive, HandleEvent,
  enter_event, count_event, parse_error_event, uncount_event, leave_event, serve_event, step_handle,
  run_handles,
}
use muxcore.ConnectionHandler.Accounts.{
  Accounted, enter_handle-Accounted, count_call-Accounted, handle_error-Accounted,
  finish_request-Accounted, uncount_call-Accounted, leave_handle-Accounted,
}

step_handle-Accounted :
    (e : HandleEvent) (h : ConnectionHandler) → Accounted h → Accounted (step_handle e h)
unfolding step_handle
step_handle-Accounted enter_event h v = enter_handle-Accounted h v
step_handle-Accounted (count_event i) h v = count_call-Accounted i (get_elem? h.calls i) h refl v
step_handle-Accounted (parse_error_event i) h v =
    handle_error-Accounted i (get_elem? h.calls i) h refl v
step_handle-Accounted (serve_event i connection major minor status) h v =
    finish_request-Accounted i status (should_keep_alive connection major minor)
      (get_elem? h.calls i) h refl v
step_handle-Accounted (uncount_event i) h v =
    uncount_call-Accounted i (get_elem? h.calls i) h refl v
step_handle-Accounted (leave_event i) h v = leave_handle-Accounted i (get_elem? h.calls i) h refl v

run_handles_from :
    (l : List HandleEvent) (h : ConnectionHandler) → Accounted h → Accounted (run_handles l h)
unfolding run_handles
run_handles_from [] h v = v
run_handles_from (e ∷ l) h v = run_handles_from l (step_handle e h) (step_handle-Accounted e h v)

-- After any interleaving of calls of Handle on a new handler with a maximum below 2 ^ 63, the limiter counts the calls
-- that have not released it, which are at most the maximum; ActiveConnections counts those between its
-- increment and decrement; TotalRequests counts the requests served, and SuccessfulRequests and
-- FailedRequests add up to these and the requests that could not be read, as numbers of 64 bits.
pub run_handles-Accounted :
    (l : List HandleEvent) (max : ℕ)
    → max < 2 ^ 63
    → Accounted (run_handles l (new_connection_handler max))
unfolding new_connection_handler new_limiter
run_handles-Accounted l max small = run_handles_from l (new_connection_handler max) (record {
  small = small;
  inside = refl;
  bounded = omega arith;
  active = refl;
  served = refl;
  done = refl;
})
