-- ===== src/Reliability/Degradation.antt =====
-- The degradation level of core/reliability's manager.
use muxcore.Common.{ℕ, ◌+◌, ◌≡◌, ap, Bool, true, false, arith}
use muxcore.Common.Float.{Float64}
use muxcore.Reliability.{
  DegradationLevel, normal, simplified, critical_only, maintain_only, ReliabilityManager,
  error_rate, evaluate_degradation_level,
}

abbrev pub rank : DegradationLevel → ℕ
rank normal = 0
rank simplified = 1
rank critical_only = 2
rank maintain_only = 3

abbrev count : Bool → ℕ
count true = 1
count false = 0

module _ (F : Float64) where
  open F use {Carrier, of_int, div, gtb}

  -- The thresholds rise: what exceeds a higher one exceeds those below it.
  pub record Rising (m : ReliabilityManager F) : Type 0 where
    pub maintain_critical :
        (x : Carrier)
        → gtb x m.threshold_maintain_only ≡ true
        → gtb x m.threshold_critical_only ≡ true
    pub critical_simplified :
        (x : Carrier) → gtb x m.threshold_critical_only ≡ true → gtb x m.threshold_simplified ≡ true

  -- How many thresholds the rate of `conns` active connections exceeds.
  abbrev pub exceeded : ℕ → ReliabilityManager F → ℕ
  exceeded conns m =
      count (gtb (error_rate F conns) m.threshold_simplified)
      + count (gtb (error_rate F conns) m.threshold_critical_only)
      + count (gtb (error_rate F conns) m.threshold_maintain_only)

  -- With rising thresholds the level that the monitor sets is the number of thresholds that the
  -- error rate exceeds, whatever the level was before, and the monitor changes nothing else.
  pub evaluate-rank :
      (conns : ℕ) (m : ReliabilityManager F)
      → Rising m
      → let m' = evaluate_degradation_level F conns m in
        (rank m'.degradation_level ≡ exceeded conns m)
        × (m' ≡ record m { degradation_level = m'.degradation_level })
  unfolding evaluate_degradation_level
  evaluate-rank conns m r =
      ground (
        arith,
        r.maintain_critical (error_rate F conns),
        r.critical_simplified (error_rate F conns),
      )

  -- The error rate is made of the number of connections: a hundred of them more changes no level.
  pub evaluate_periodic :
      (conns : ℕ) (m : ReliabilityManager F)
      → evaluate_degradation_level F (conns + 100) m ≡ evaluate_degradation_level F conns m
  unfolding evaluate_degradation_level
  evaluate_periodic conns m =
      let e : error_rate F (conns + 100) ≡ error_rate F conns =
        ap (λ n. div (of_int n) (of_int 100)) (omega arith) in
      ground arith
