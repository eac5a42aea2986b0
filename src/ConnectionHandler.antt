-- ===== src/ConnectionHandler.antt =====
-- core/pool/connection_manager.go: ConnectionLimiter, and OptimizedConnectionHandler with its counters. A call of Handle is its
-- phase in the list of all calls. Whether http.ReadRequest can read the request, what the request says and the
-- status that the handlers leave in the writer are arguments. A handler that panics or blocks is left out.
pub mod Accounts
pub mod Limits
mod Tests
use muxcore.Common.{
  ℕ, ◌+◌, ◌-◌, ◌%◌, ◌^◌, String, Bool, true, false, not, ◌&&◌, ◌||◌, Option, none, some, List, [],
  ◌∷◌, ◌++◌, ltb, leb, ◌==◌, if◌then◌else◌, get_elem?, set,
}
use muxcore.Common.Keys.{string_key, number_key}

pub record ConnectionLimiter : Type 0 where
  pub max_connections : ℕ
  pub current : ℕ

unfoldable pub new_limiter : ℕ → ConnectionLimiter
new_limiter max = record { max_connections = max; current = 0 }

-- `int(cl.current) >= cl.maxConnections`, for a maximum that is not negative.
unfoldable pub at_limit : ConnectionLimiter → Bool
at_limit cl = ltb cl.current (2 ^ 63) && leb cl.max_connections cl.current

unfoldable pub acquire : ConnectionLimiter → ConnectionLimiter × Bool
unfolding at_limit
acquire cl =
    if at_limit cl then (cl, false) else (record cl { current = (cl.current + 1) % 2 ^ 64 }, true)

unfoldable pub release : ConnectionLimiter → ConnectionLimiter
release cl = record cl { current = (cl.current + (2 ^ 64 - 1)) % 2 ^ 64 }

pub record ConnectionMetrics : Type 0 where
  pub total_requests : ℕ
  pub successful_requests : ℕ
  pub failed_requests : ℕ
  pub active_connections : ℕ

-- What a call of Handle has done; the Boolean tells whether it could read a request.
pub data Phase : Type 0 where
  acquired counted : Phase
  finished uncounted released : Bool → Phase

pub record ConnectionHandler : Type 0 where
  pub limiter : ConnectionLimiter
  pub metrics : ConnectionMetrics
  pub calls : List Phase
  pub closed : ℕ
  pub running : Bool
  pub shutdown : Bool

unfoldable pub new_connection_handler : ℕ → ConnectionHandler
unfolding new_limiter
new_connection_handler max_concurrent_conns = record {
  limiter = new_limiter max_concurrent_conns;
  metrics = record {
    total_requests = 0;
    successful_requests = 0;
    failed_requests = 0;
    active_connections = 0;
  };
  calls = [];
  closed = 0;
  running = false;
  shutdown = false;
}

-- Start, and whether it succeeds.
unfoldable pub start_handler : ConnectionHandler → ConnectionHandler × Bool
start_handler h = if h.running then (h, false) else (record h { running = true }, true)

-- Stop; none is the panic of closing the channel a second time.
unfoldable pub stop_handler : ConnectionHandler → Option (ConnectionHandler × Bool)
stop_handler h =
    if not h.running
    then some (h, false)
    else if h.shutdown
    then none
    else some (record h { running = false; shutdown = true }, true)

-- The code that recordMetrics takes for a success.
unfoldable pub is_success : ℕ → Bool
is_success status = let code = if status == 0 then 200 else status in leb 200 code && ltb code 400

-- The two counters that recordMetrics adds to, as one step.
unfoldable pub record_metrics : ℕ → ConnectionMetrics → ConnectionMetrics
unfolding is_success
record_metrics status m =
    let total = (m.total_requests + 1) % 2 ^ 64 in
    if is_success status
    then record m {
      total_requests = total;
      successful_requests = (m.successful_requests + 1) % 2 ^ 64;
    }
    else record m { total_requests = total; failed_requests = (m.failed_requests + 1) % 2 ^ 64 }

-- For the header Connection and the version of the request.
unfoldable pub should_keep_alive : String → ℕ → ℕ → Bool
should_keep_alive connection major minor =
    not (string_key.test connection "close") && not (major == 1 && minor == 0)

pub data HandleEvent : Type 0 where
  enter_event : HandleEvent
  count_event parse_error_event uncount_event leave_event : ℕ → HandleEvent
  serve_event : ℕ → String → ℕ → ℕ → ℕ → HandleEvent

unfoldable pub enter_with : ConnectionLimiter × Bool → ConnectionHandler → ConnectionHandler
enter_with (cl, true) h = record h { limiter = cl; calls = h.calls ++ acquired ∷ [] }
enter_with (cl, false) h = record h { limiter = cl; closed = h.closed + 1 }

-- The start of Handle.
unfoldable pub enter_handle : ConnectionHandler → ConnectionHandler
unfolding acquire enter_with
enter_handle h = enter_with (acquire h.limiter) h

abbrev pub add_active : ℕ → ConnectionHandler → ConnectionMetrics
add_active n h = record h.metrics {
  active_connections = (h.metrics.active_connections + n) % 2 ^ 64;
}

unfoldable pub count_call : ℕ → Option Phase → ConnectionHandler → ConnectionHandler
count_call i (some acquired) h = record h {
  metrics = add_active 1 h;
  calls = set h.calls i counted;
}
count_call i (some counted) h = h
count_call i (some (finished b)) h = h
count_call i (some (uncounted b)) h = h
count_call i (some (released b)) h = h
count_call i none h = h

-- handleError.
unfoldable pub handle_error : ℕ → Option Phase → ConnectionHandler → ConnectionHandler
handle_error i (some counted) h = record h {
  metrics = record h.metrics { failed_requests = (h.metrics.failed_requests + 1) % 2 ^ 64 };
  calls = set h.calls i (finished false);
  closed = h.closed + 1;
}
handle_error i (some acquired) h = h
handle_error i (some (finished b)) h = h
handle_error i (some (uncounted b)) h = h
handle_error i (some (released b)) h = h
handle_error i none h = h

-- The end of Handle after a request that could be read.
unfoldable pub finish_request : ℕ → ℕ → Bool → Option Phase → ConnectionHandler → ConnectionHandler
unfolding record_metrics
finish_request i status keep (some counted) h = record h {
  metrics = record_metrics status h.metrics;
  calls = set h.calls i (finished true);
  closed = if keep then h.closed else h.closed + 1;
}
finish_request i status keep (some acquired) h = h
finish_request i status keep (some (finished b)) h = h
finish_request i status keep (some (uncounted b)) h = h
finish_request i status keep (some (released b)) h = h
finish_request i status keep none h = h

-- The deferred decrement of ActiveConnections.
unfoldable pub uncount_call : ℕ → Option Phase → ConnectionHandler → ConnectionHandler
uncount_call i (some (finished b)) h = record h {
  metrics = add_active (2 ^ 64 - 1) h;
  calls = set h.calls i (uncounted b);
}
uncount_call i (some acquired) h = h
uncount_call i (some counted) h = h
uncount_call i (some (uncounted b)) h = h
uncount_call i (some (released b)) h = h
uncount_call i none h = h

-- The deferred Release.
unfoldable pub leave_handle : ℕ → Option Phase → ConnectionHandler → ConnectionHandler
unfolding release
leave_handle i (some (uncounted b)) h = record h {
  limiter = release h.limiter;
  calls = set h.calls i (released b);
}
leave_handle i (some acquired) h = h
leave_handle i (some counted) h = h
leave_handle i (some (finished b)) h = h
leave_handle i (some (released b)) h = h
leave_handle i none h = h

unfoldable pub step_handle : HandleEvent → ConnectionHandler → ConnectionHandler
unfolding enter_handle count_call handle_error finish_request should_keep_alive uncount_call
    leave_handle
step_handle enter_event h = enter_handle h
step_handle (count_event i) h = count_call i (get_elem? h.calls i) h
step_handle (parse_error_event i) h = handle_error i (get_elem? h.calls i) h
step_handle (serve_event i connection major minor status) h =
    finish_request i status (should_keep_alive connection major minor) (get_elem? h.calls i) h
step_handle (uncount_event i) h = uncount_call i (get_elem? h.calls i) h
step_handle (leave_event i) h = leave_handle i (get_elem? h.calls i) h

unfoldable pub run_handles : List HandleEvent → ConnectionHandler → ConnectionHandler
unfolding step_handle
run_handles [] h = h
run_handles (e ∷ l) h = run_handles l (step_handle e h)
