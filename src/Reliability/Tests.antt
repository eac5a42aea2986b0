-- ===== src/Reliability/Tests.antt =====
-- Runs of core/reliability's breaker and monitor over a model of float64 in hundredths.
use muxcore.Common.{
  ℕ, zero, suc, ◌-◌, ◌*◌, ◌/◌, ◌≤◌, ◌<◌, ◌≡◌, refl, ap, inl, Bool, true, false, Option, none, some,
  List, [], ◌∷◌, arith, ltb,
}
use muxcore.Common.Float.{Float64}
use muxcore.Reliability.{
  state_closed, state_open, state_half_open, Event, protocol_failure, service_failure, success,
  half_open_attempt, CircuitBreaker, step, run,
}
use muxcore.Reliability.Transitions.{◌⟶◌, step-⟶}
use muxcore.Reliability.Counters.{Inv, run-Inv, half_open-reopens}

-- A number of hundredths, or NaN.
abbrev divide : Option ℕ → Option ℕ → Option ℕ
divide (some a) (some zero) = none
divide (some a) (some (suc b)) = some (a * 100 / suc b)
divide _ _ = none

abbrev greater : Option ℕ → Option ℕ → Bool
greater (some a) (some b) = ltb b a
greater _ _ = false

divide_self : (n : ℕ) → 0 < n → divide (some (n * 100)) (some (n * 100)) ≡ some 100
divide_self n h = let e : n * 100 ≡ suc (n * 100 - 1) = omega arith in rw e (ap some (grind arith))

greater_mono :
    (m n : ℕ) (t : Option ℕ)
    → m ≤ n
    → greater (some (m * 100)) t ≡ true
    → greater (some (n * 100)) t ≡ true
greater_mono m n t l h = ground arith

abbrev hundredths : Float64
hundredths = record {
  Carrier = Option ℕ;
  of_int = λ n. some (n * 100);
  div = divide;
  gtb = greater;
  div_self = divide_self;
  gtb_nan = λ t. refl;
  gtb_mono = greater_mono;
}

abbrev fresh : CircuitBreaker hundredths
fresh = record {
  name = "db";
  state = state_closed;
  connection_failure_threshold = some 50;
  protocol_failure_threshold = some 150;
  service_failure_threshold = some 150;
  reset_timeout = 30;
  last_failure_time = 0;
  connection_failures = 0;
  protocol_failures = 0;
  service_failures = 0;
  total_connections = 0;
}

fresh-Inv : Inv hundredths fresh
fresh-Inv = record { only_failures = refl; tripped = inl refl }

abbrev calls : List (ℕ × Event)
calls = (10, protocol_failure) ∷ (12, protocol_failure) ∷ (50, half_open_attempt) ∷ []

calls_half_open : (run hundredths fresh calls).state ≡ state_half_open
unfolding run step
calls_half_open = refl

step-⟶_example : state_half_open ⟶ (step hundredths 60 success (run hundredths fresh calls)).state
unfolding run step
step-⟶_example = step-⟶ hundredths 60 success (run hundredths fresh calls)

abbrev opened : CircuitBreaker hundredths
opened = record fresh { state = state_open; last_failure_time = 100 }

run-Inv_example : Inv hundredths (run hundredths fresh calls)
run-Inv_example = run-Inv hundredths fresh calls fresh-Inv

half_open-reopens_example :
    (step hundredths 60 service_failure (run hundredths fresh calls)).state ≡ state_open
half_open-reopens_example =
    half_open-reopens hundredths fresh calls 60 service_failure fresh-Inv calls_half_open
      ((λ e. cc), (λ e. cc))
