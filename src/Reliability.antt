-- ===== src/Reliability.antt =====
-- core/reliability/reliability_manager.go: the circuit breaker and the degradation level.
-- Times and durations are numbers of nanoseconds. `time.Since(t) > d` is `t + d < now`.
pub mod Transitions
pub mod Counters
pub mod Degradation
mod Tests
use muxcore.Common.{
  ℕ, zero, suc, ◌+◌, ◌*◌, ◌%◌, [], Bool, true, false, ◌||◌, ltb, if◌then◌else◌, String, List,
}
use muxcore.Common.Dict.{Dict, insert}
use muxcore.Common.Keys.{string_key}
use muxcore.Common.Int.{ℤ, pos, negsuc}
use muxcore.Common.Float.{Float64}

pub data BreakerState : Type 0 where
  state_closed state_open state_half_open : BreakerState

pub data DegradationLevel : Type 0 where
  normal simplified critical_only maintain_only : DegradationLevel

-- The calls that change a breaker; each is one critical section.
pub data Event : Type 0 where
  connection_failure protocol_failure service_failure success : Event
  half_open_attempt : Event

abbrev pub is_open : BreakerState → Bool
is_open state_open = true
is_open _ = false

abbrev pub is_half_open : BreakerState → Bool
is_half_open state_half_open = true
is_half_open _ = false

-- `if intervalSec <= 0 { intervalSec = 10 }`
abbrev interval_or_default : ℤ → ℕ
interval_or_default (pos zero) = 10
interval_or_default (pos (suc n)) = suc n
interval_or_default (negsuc n) = 10

module _ (F : Float64) where
  open F use {Carrier, of_int, div, gtb}

  pub record CircuitBreaker : Type 0 where
    pub name : String
    pub state : BreakerState
    pub connection_failure_threshold : Carrier
    pub protocol_failure_threshold : Carrier
    pub service_failure_threshold : Carrier
    pub reset_timeout : ℕ
    pub last_failure_time : ℕ
    pub connection_failures : ℕ
    pub protocol_failures : ℕ
    pub service_failures : ℕ
    pub total_connections : ℕ

  pub new_circuit_breaker : String → Carrier → Carrier → Carrier → ℕ → CircuitBreaker
  new_circuit_breaker name connection protocol service reset = record {
    name = name;
    state = state_closed;
    connection_failure_threshold = connection;
    protocol_failure_threshold = protocol;
    service_failure_threshold = service;
    reset_timeout = reset;
    last_failure_time = 0;
    connection_failures = 0;
    protocol_failures = 0;
    service_failures = 0;
    total_connections = 0;
  }

  -- The condition of the last `if` of checkThresholds.
  abbrev pub exceeds : CircuitBreaker → Bool
  exceeds c =
      gtb (div (of_int c.connection_failures) (of_int c.total_connections))
        c.connection_failure_threshold
      || (gtb (of_int c.protocol_failures) c.protocol_failure_threshold
          || gtb (of_int c.service_failures) c.service_failure_threshold)

  pub check_thresholds : CircuitBreaker → CircuitBreaker
  check_thresholds c =
      if is_open c.state then c else if exceeds c then record c { state = state_open } else c

  pub record_connection_failure : ℕ → CircuitBreaker → CircuitBreaker
  unfolding check_thresholds
  record_connection_failure now c = check_thresholds (record c {
    connection_failures = c.connection_failures + 1;
    total_connections = c.total_connections + 1;
    last_failure_time = now;
  })

  pub record_protocol_failure : ℕ → CircuitBreaker → CircuitBreaker
  unfolding check_thresholds
  record_protocol_failure now c =
      check_thresholds
        (record c { protocol_failures = c.protocol_failures + 1; last_failure_time = now })

  pub record_service_failure : ℕ → CircuitBreaker → CircuitBreaker
  unfolding check_thresholds
  record_service_failure now c =
      check_thresholds
        (record c { service_failures = c.service_failures + 1; last_failure_time = now })

  pub record_success : CircuitBreaker → CircuitBreaker
  record_success c =
      if is_half_open c.state
      then record c {
        state = state_closed;
        connection_failures = 0;
        protocol_failures = 0;
        service_failures = 0;
        total_connections = 0;
      }
      else c

  abbrev pub timed_out : ℕ → CircuitBreaker → Bool
  timed_out now c = ltb (c.last_failure_time + c.reset_timeout) now

  -- The section of AllowRequest under the write lock, with its second check.
  pub try_half_open : ℕ → CircuitBreaker → CircuitBreaker
  try_half_open now c =
      if is_open c.state
      then if timed_out now c then record c { state = state_half_open } else c
      else c

  -- AllowRequest where no other call comes between its critical sections: the breaker after it,
  -- and its answer. `checked` and `locked` are the two readings of the clock.
  allow_request_in : BreakerState → ℕ → ℕ → CircuitBreaker → CircuitBreaker × Bool
  unfolding try_half_open
  allow_request_in state_closed checked locked c = (c, true)
  allow_request_in state_open checked locked c =
      let c' = try_half_open locked c in
      if timed_out checked c then (c', is_half_open c'.state) else (c, false)
  allow_request_in state_half_open checked locked c = (c, true)

  pub allow_request : ℕ → ℕ → CircuitBreaker → CircuitBreaker × Bool
  unfolding allow_request_in
  allow_request checked locked c = allow_request_in c.state checked locked c

  -- One event at a time, as the mutex orders them; AllowRequest changes a breaker only by its
  -- section under the write lock.
  pub step : ℕ → Event → CircuitBreaker → CircuitBreaker
  unfolding record_connection_failure record_protocol_failure record_service_failure record_success
      try_half_open
  step now connection_failure c = record_connection_failure now c
  step now protocol_failure c = record_protocol_failure now c
  step now service_failure c = record_service_failure now c
  step now success c = record_success c
  step now half_open_attempt c = try_half_open now c

  pub run : CircuitBreaker → List (ℕ × Event) → CircuitBreaker
  run c List.[] = c
  run c (List.◌∷◌ (now, e) es) = run (step now e c) es

  pub record ReliabilityManager : Type 0 where
    pub circuit_breakers : Dict String CircuitBreaker
    pub degradation_level : DegradationLevel
    pub monitor_interval : ℕ
    pub threshold_simplified : Carrier
    pub threshold_critical_only : Carrier
    pub threshold_maintain_only : Carrier

  -- NewReliabilityManagerWithConfig; the monitor that `enabled` starts calls
  -- evaluateDegradationLevel once every `monitor_interval`.
  pub new_reliability_manager_with_config : ℤ → Carrier → Carrier → Carrier → ReliabilityManager
  new_reliability_manager_with_config interval_sec simple critical maintain = record {
    circuit_breakers = [];
    degradation_level = normal;
    monitor_interval = interval_or_default interval_sec * 1_000_000_000;
    threshold_simplified = simple;
    threshold_critical_only = critical;
    threshold_maintain_only = maintain;
  }

  pub add_circuit_breaker : CircuitBreaker → ReliabilityManager → ReliabilityManager
  add_circuit_breaker c m = record m { circuit_breakers = insert c.name c m.circuit_breakers }

  pub set_degradation_level : DegradationLevel → ReliabilityManager → ReliabilityManager
  set_degradation_level level m = record m { degradation_level = level }

  -- `float64(len(conns)%100) / 100.0`
  abbrev pub error_rate : ℕ → Carrier
  error_rate conns = div (of_int (conns % 100)) (of_int 100)

  -- `conns` is the number of active connections of the pool.
  pub evaluate_degradation_level : ℕ → ReliabilityManager → ReliabilityManager
  evaluate_degradation_level conns m =
      if gtb (error_rate conns) m.threshold_maintain_only
      then record m { degradation_level = maintain_only }
      else if gtb (error_rate conns) m.threshold_critical_only
      then record m { degradation_level = critical_only }
      else if gtb (error_rate conns) m.threshold_simplified
      then record m { degradation_level = simplified }
      else record m { degradation_level = normal }
