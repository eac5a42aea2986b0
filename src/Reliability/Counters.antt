-- ===== src/Reliability/Counters.antt =====
-- What the counters of core/reliability's circuit breaker hold after any calls.
use muxcore.Common.{ℕ, zero, suc, ◌+◌, String, ◌≡◌, refl, ◌≢◌, ◌⊎◌, inl, true, List, [], ◌∷◌, arith}
use muxcore.Common.Float.{Float64}
use muxcore.Reliability.{
  state_closed, state_open, state_half_open, Event, connection_failure, protocol_failure,
  service_failure, success, half_open_attempt, CircuitBreaker, exceeds, step, run,
  record_connection_failure, new_circuit_breaker,
}

module _ (F : Float64) where
  open F use {Carrier, of_int, div, gtb, div_self, gtb_nan, gtb_mono}

  -- A breaker counts no connection but the failed ones, and is closed or has a count over its
  -- threshold.
  pub record Inv (c : CircuitBreaker F) : Type 0 where
    pub only_failures : c.total_connections ≡ c.connection_failures
    pub tripped : (c.state ≡ state_closed) ⊎ (exceeds F c ≡ true)

  pub new-Inv :
      (name : String) (x y z : Carrier) (reset : ℕ) → Inv (new_circuit_breaker F name x y z reset)
  unfolding new_circuit_breaker
  new-Inv name x y z reset = record { only_failures = refl; tripped = inl refl }

  step-only_failures :
      (now : ℕ) (e : Event) (c : CircuitBreaker F)
      → c.total_connections ≡ c.connection_failures
      → (step F now e c).total_connections ≡ (step F now e c).connection_failures
  unfolding step
  step-only_failures now e c h = ground arith

  -- The rate is 1, or NaN if there was no failure.
  rate_exceeds_mono :
      (n : ℕ) (t : Carrier)
      → gtb (div (of_int n) (of_int n)) t ≡ true
      → gtb (div (of_int (n + 1)) (of_int (n + 1))) t ≡ true
  rate_exceeds_mono zero t h = ground (arith, gtb_nan t)
  rate_exceeds_mono (suc n) t h =
      rw (div_self (suc n + 1) (omega arith)) (rw (div_self (suc n) (omega arith)) at h)

  step-tripped :
      (now : ℕ) (e : Event) (c : CircuitBreaker F)
      → c.total_connections ≡ c.connection_failures
      → (c.state ≡ state_closed) ⊎ (exceeds F c ≡ true)
      → ((step F now e c).state ≡ state_closed) ⊎ (exceeds F (step F now e c) ≡ true)
  unfolding step
  step-tripped now e c h t = ground (
    arith,
    rate_exceeds_mono c.connection_failures c.connection_failure_threshold,
    gtb_mono c.protocol_failures (c.protocol_failures + 1) c.protocol_failure_threshold,
    gtb_mono c.service_failures (c.service_failures + 1) c.service_failure_threshold,
  )

  pub step-Inv : (now : ℕ) (e : Event) (c : CircuitBreaker F) → Inv c → Inv (step F now e c)
  step-Inv now e c v = record {
    only_failures = step-only_failures now e c v.only_failures;
    tripped = step-tripped now e c v.only_failures v.tripped;
  }

  -- After any calls a breaker that met the invariant meets it: its count of connections is that of
  -- the failed ones, and unless it is closed one of its three tests is over its threshold.
  pub run-Inv : (c : CircuitBreaker F) (es : List (ℕ × Event)) → Inv c → Inv (run F c es)
  unfolding run
  run-Inv c [] v = v
  run-Inv c ((now, e) ∷ es) v = run-Inv (step F now e c) es (step-Inv now e c v)

  abbrev pub IsFailure : Event → Type 0
  IsFailure e = (e ≢ success) × (e ≢ half_open_attempt)

  reopen :
      (now : ℕ) (e : Event) (c : CircuitBreaker F)
      → Inv c
      → c.state ≡ state_half_open
      → IsFailure e
      → (step F now e c).state ≡ state_open
  unfolding step
  reopen now connection_failure c v h f =
      ground (arith, step-tripped now connection_failure c v.only_failures v.tripped)
  reopen now protocol_failure c v h f =
      ground (arith, step-tripped now protocol_failure c v.only_failures v.tripped)
  reopen now service_failure c v h f =
      ground (arith, step-tripped now service_failure c v.only_failures v.tripped)
  reopen now success c v h f = absurd (f.0 refl)
  reopen now half_open_attempt c v h f = absurd (f.1 refl)

  -- In a breaker that calls made half-open, any failure, of whichever kind, opens it again.
  pub half_open-reopens :
      (c : CircuitBreaker F) (es : List (ℕ × Event)) (now : ℕ) (e : Event)
      → Inv c
      → (run F c es).state ≡ state_half_open
      → IsFailure e
      → (step F now e (run F c es)).state ≡ state_open
  half_open-reopens c es now e v h f = reopen now e (run F c es) (run-Inv c es v) h f

  -- After any calls, one connection failure opens a breaker whose connection threshold is below 1:
  -- the rate is taken over the failed connections alone, and so is 1 from the first one on.
  pub connection_failure_trips :
      (c : CircuitBreaker F) (es : List (ℕ × Event)) (now : ℕ)
      → Inv c
      → gtb (of_int 1) (run F c es).connection_failure_threshold ≡ true
      → (record_connection_failure F now (run F c es)).state ≡ state_open
  unfolding record_connection_failure
  connection_failure_trips c es now v h =
      ground
        (arith, (run-Inv c es v).only_failures, div_self ((run F c es).connection_failures + 1))
