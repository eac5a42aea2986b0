-- ===== src/Reliability/Transitions.antt =====
-- The states of core/reliability's circuit breaker, and whom AllowRequest lets through.
use muxcore.Common.{ℕ, ◌≤◌, ◌≡◌, not, ◌||◌, arith}
use muxcore.Common.Float.{Float64}
use muxcore.Reliability.{
  BreakerState, state_closed, state_open, state_half_open, Event, CircuitBreaker, is_open,
  timed_out, allow_request, step,
}

infix 40 ◌⟶◌
pub data ◌⟶◌ : BreakerState → BreakerState → Type 0 where
  stay : {s : BreakerState} → s ⟶ s
  trip : state_closed ⟶ state_open
  retrip : state_half_open ⟶ state_open
  probe : state_open ⟶ state_half_open
  recover : state_half_open ⟶ state_closed

module _ (F : Float64) where
  -- A call moves a breaker along an edge of the diagram: closed to open, open to half-open,
  -- half-open to open or closed, or nowhere. So an open breaker never closes without a probe.
  pub step-⟶ : (now : ℕ) (e : Event) (c : CircuitBreaker F) → c.state ⟶ (step F now e c).state
  unfolding step
  step-⟶ now e c = grind (arith, stay, trip, retrip, probe, recover)

  -- With clock readings in order, AllowRequest answers true exactly when the breaker is not open or
  -- its reset time has passed, and the breaker is open afterwards exactly when the answer is false.
  pub allow_request_answer :
      (checked locked : ℕ) (c : CircuitBreaker F)
      → checked ≤ locked
      → ((allow_request F checked locked c).1 ≡ (not (is_open c.state) || timed_out F checked c))
        × ((allow_request F checked locked c).1
            ≡ not (is_open (allow_request F checked locked c).0.state))
  unfolding allow_request
  allow_request_answer checked locked c h = ground arith

  -- A refused request leaves the breaker as it was, and an admitted one changes at most its state.
  pub allow_request_frame :
      (checked locked : ℕ) (c : CircuitBreaker F)
      → (allow_request F checked locked c).0
        ≡ record c { state = (allow_request F checked locked c).0.state }
  unfolding allow_request
  allow_request_frame checked locked c = ground arith
