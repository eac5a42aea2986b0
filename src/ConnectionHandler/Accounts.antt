-- ===== src/ConnectionHandler/Accounts.antt =====
-- core/pool/connection_manager.go: the counters of the handler against the phases of the calls of Handle.
use muxcore.Common.{
  ℕ, ◌+◌, ◌%◌, ◌^◌, ◌≤◌, ◌<◌, ◌≡◌, refl, Bool, true, false, Option, none, some, List, [], ◌∷◌,
  arith, get_elem?, set, if_either, if_cases,
}
use muxcore.Common.Counts.{one_if, total, total-append, total-set}
use muxcore.ConnectionHandler.{
  ConnectionLimiter, at_limit, acquire, release, ConnectionMetrics, Phase, acquired, counted,
  finished, uncounted, released, ConnectionHandler, is_success, record_metrics, enter_with,
  enter_handle, count_call, handle_error, finish_request, uncount_call, leave_handle,
}

-- The call holds a place of the limiter.
abbrev pub is_inside : Phase → ℕ
is_inside acquired = 1
is_inside counted = 1
is_inside (finished b) = 1
is_inside (uncounted b) = 1
is_inside (released b) = 0

-- The call is counted in ActiveConnections.
abbrev pub active_share : Phase → ℕ
active_share acquired = 0
active_share counted = 1
active_share (finished b) = 1
active_share (uncounted b) = 0
active_share (released b) = 0

-- The call has served a request.
abbrev pub has_served : Phase → ℕ
has_served acquired = 0
has_served counted = 0
has_served (finished b) = one_if b
has_served (uncounted b) = one_if b
has_served (released b) = one_if b

-- The call has served a request, or could not read one.
abbrev pub is_done : Phase → ℕ
is_done acquired = 0
is_done counted = 0
is_done (finished b) = 1
is_done (uncounted b) = 1
is_done (released b) = 1

active_inside : (l : List Phase) → total active_share l ≤ total is_inside l
active_inside [] = omega arith
active_inside (acquired ∷ l) = omega (arith, active_inside l)
active_inside (counted ∷ l) = omega (arith, active_inside l)
active_inside (finished b ∷ l) = omega (arith, active_inside l)
active_inside (uncounted b ∷ l) = omega (arith, active_inside l)
active_inside (released b ∷ l) = omega (arith, active_inside l)

-- The counters are those of the calls, of which no more are inside than the limit says.
pub record Accounted (h : ConnectionHandler) : Type 0 where
  pub small : h.limiter.max_connections < 2 ^ 63
  pub inside : h.limiter.current ≡ total is_inside h.calls
  pub bounded : h.limiter.current ≤ h.limiter.max_connections
  pub active : h.metrics.active_connections ≡ total active_share h.calls
  pub served : h.metrics.total_requests ≡ total has_served h.calls % 2 ^ 64
  pub done :
      (h.metrics.successful_requests + h.metrics.failed_requests) % 2 ^ 64
      ≡ total is_done h.calls % 2 ^ 64

below_limit :
    (cl : ConnectionLimiter)
    → cl.max_connections < 2 ^ 63
    → cl.current ≤ cl.max_connections
    → at_limit cl ≡ false
    → cl.current < cl.max_connections
unfolding at_limit
below_limit cl small bounded free = ground arith

pub enter_handle-Accounted : (h : ConnectionHandler) → Accounted h → Accounted (enter_handle h)
unfolding enter_handle acquire enter_with
enter_handle-Accounted h v =
    if_cases (λ (p : ConnectionLimiter × Bool). Accounted (enter_with p h)) (at_limit h.limiter)
      (λ full. record {
        small = v.small;
        inside = v.inside;
        bounded = v.bounded;
        active = v.active;
        served = v.served;
        done = v.done;
      })
      (λ free.
        let room = below_limit h.limiter v.small v.bounded free in
        record {
          small = v.small;
          inside =
              omega
                (arith, v.small, v.inside, room, total-append is_inside h.calls (acquired ∷ []));
          bounded = omega (arith, v.small, room);
          active = omega (arith, v.active, total-append active_share h.calls (acquired ∷ []));
          served = omega (arith, v.served, total-append has_served h.calls (acquired ∷ []));
          done = omega (arith, v.done, total-append is_done h.calls (acquired ∷ []));
        })

pub count_call-Accounted :
    (i : ℕ) (o : Option Phase) (h : ConnectionHandler)
    → get_elem? h.calls i ≡ o
    → Accounted h
    → Accounted (count_call i o h)
unfolding count_call
count_call-Accounted i none h at v = v
count_call-Accounted i (some acquired) h at v = record {
  small = v.small;
  inside = omega (arith, v.inside, total-set is_inside h.calls i acquired counted at);
  bounded = v.bounded;
  active = omega (
    arith,
    v.small,
    v.inside,
    v.bounded,
    v.active,
    active_inside h.calls,
    total-set active_share h.calls i acquired counted at,
    total-set is_inside h.calls i acquired counted at,
    active_inside (set h.calls i counted),
  );
  served = omega (arith, v.served, total-set has_served h.calls i acquired counted at);
  done = omega (arith, v.done, total-set is_done h.calls i acquired counted at);
}
count_call-Accounted i (some counted) h at v = v
count_call-Accounted i (some (finished b)) h at v = v
count_call-Accounted i (some (uncounted b)) h at v = v
count_call-Accounted i (some (released b)) h at v = v

pub handle_error-Accounted :
    (i : ℕ) (o : Option Phase) (h : ConnectionHandler)
    → get_elem? h.calls i ≡ o
    → Accounted h
    → Accounted (handle_error i o h)
unfolding handle_error
handle_error-Accounted i none h at v = v
handle_error-Accounted i (some counted) h at v = record {
  small = v.small;
  inside = omega (arith, v.inside, total-set is_inside h.calls i counted (finished false) at);
  bounded = v.bounded;
  active = omega (arith, v.active, total-set active_share h.calls i counted (finished false) at);
  served = omega (arith, v.served, total-set has_served h.calls i counted (finished false) at);
  done = omega (arith, v.done, total-set is_done h.calls i counted (finished false) at);
}
handle_error-Accounted i (some acquired) h at v = v
handle_error-Accounted i (some (finished b)) h at v = v
handle_error-Accounted i (some (uncounted b)) h at v = v
handle_error-Accounted i (some (released b)) h at v = v

record_metrics_counts :
    (status : ℕ) (m : ConnectionMetrics)
    → let m' = record_metrics status m in
      (m'.total_requests ≡ (m.total_requests + 1) % 2 ^ 64)
      × ((m'.successful_requests + m'.failed_requests) % 2 ^ 64
          ≡ (m.successful_requests + m.failed_requests + 1) % 2 ^ 64)
      × (m'.active_connections ≡ m.active_connections)
unfolding record_metrics
record_metrics_counts status m =
    if_either
      (λ (m' : ConnectionMetrics).
        (m'.total_requests ≡ (m.total_requests + 1) % 2 ^ 64)
        × ((m'.successful_requests + m'.failed_requests) % 2 ^ 64
            ≡ (m.successful_requests + m.failed_requests + 1) % 2 ^ 64)
        × (m'.active_connections ≡ m.active_connections))
      (is_success status) (refl, omega arith, refl) (refl, omega arith, refl)

pub finish_request-Accounted :
    (i : ℕ) (status : ℕ) (keep : Bool) (o : Option Phase) (h : ConnectionHandler)
    → get_elem? h.calls i ≡ o
    → Accounted h
    → Accounted (finish_request i status keep o h)
unfolding finish_request
finish_request-Accounted i status keep none h at v = v
finish_request-Accounted i status keep (some counted) h at v = record {
  small = v.small;
  inside = omega (arith, v.inside, total-set is_inside h.calls i counted (finished true) at);
  bounded = v.bounded;
  active = omega (
    arith,
    v.active,
    (record_metrics_counts status h.metrics).2,
    total-set active_share h.calls i counted (finished true) at,
  );
  served = omega (
    arith,
    v.served,
    (record_metrics_counts status h.metrics).0,
    total-set has_served h.calls i counted (finished true) at,
  );
  done = omega (
    arith,
    v.done,
    (record_metrics_counts status h.metrics).1,
    total-set is_done h.calls i counted (finished true) at,
  );
}
finish_request-Accounted i status keep (some acquired) h at v = v
finish_request-Accounted i status keep (some (finished b)) h at v = v
finish_request-Accounted i status keep (some (uncounted b)) h at v = v
finish_request-Accounted i status keep (some (released b)) h at v = v

pub uncount_call-Accounted :
    (i : ℕ) (o : Option Phase) (h : ConnectionHandler)
    → get_elem? h.calls i ≡ o
    → Accounted h
    → Accounted (uncount_call i o h)
unfolding uncount_call
uncount_call-Accounted i none h at v = v
uncount_call-Accounted i (some (finished b)) h at v = record {
  small = v.small;
  inside = omega (arith, v.inside, total-set is_inside h.calls i (finished b) (uncounted b) at);
  bounded = v.bounded;
  active = omega (
    arith,
    v.small,
    v.inside,
    v.bounded,
    v.active,
    active_inside h.calls,
    total-set active_share h.calls i (finished b) (uncounted b) at,
  );
  served = omega (arith, v.served, total-set has_served h.calls i (finished b) (uncounted b) at);
  done = omega (arith, v.done, total-set is_done h.calls i (finished b) (uncounted b) at);
}
uncount_call-Accounted i (some acquired) h at v = v
uncount_call-Accounted i (some counted) h at v = v
uncount_call-Accounted i (some (uncounted b)) h at v = v
uncount_call-Accounted i (some (released b)) h at v = v

pub leave_handle-Accounted :
    (i : ℕ) (o : Option Phase) (h : ConnectionHandler)
    → get_elem? h.calls i ≡ o
    → Accounted h
    → Accounted (leave_handle i o h)
unfolding leave_handle release
leave_handle-Accounted i none h at v = v
leave_handle-Accounted i (some (uncounted b)) h at v = record {
  small = v.small;
  inside = omega (
    arith,
    v.small,
    v.bounded,
    v.inside,
    total-set is_inside h.calls i (uncounted b) (released b) at,
  );
  bounded = omega (
    arith,
    v.small,
    v.bounded,
    v.inside,
    total-set is_inside h.calls i (uncounted b) (released b) at,
  );
  active = omega (arith, v.active, total-set active_share h.calls i (uncounted b) (released b) at);
  served = omega (arith, v.served, total-set has_served h.calls i (uncounted b) (released b) at);
  done = omega (arith, v.done, total-set is_done h.calls i (uncounted b) (released b) at);
}
leave_handle-Accounted i (some acquired) h at v = v
leave_handle-Accounted i (some counted) h at v = v
leave_handle-Accounted i (some (finished b)) h at v = v
leave_handle-Accounted i (some (released b)) h at v = v
