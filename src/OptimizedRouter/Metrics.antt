-- ===== src/OptimizedRouter/Metrics.antt =====
-- core/router/enhanced_router.go: updateMetrics of OptimizedRouter. Counters and durations are words of 64 bits,
-- read as signed numbers where they are compared, divided or made a float64.
use muxcore.Common.{
  ℕ, ◌+◌, ◌-◌, ◌*◌, ◌/◌, ◌%◌, ◌^◌, String, Bool, true, false, ◌&&◌, Option, none, some, ltb,
  if◌then◌else◌,
}
use muxcore.Common.Int.{ℤ, pos, negsuc}
use muxcore.Common.Floats.{FloatOps}
use muxcore.RequestCache.{RequestCache}
use muxcore.NodeRouter.{RouteNode}
use muxcore.OptimizedRouter.{RouteResult, RouterMetrics, OptimizedRouter}

unfoldable pub signed_word : ℕ → ℤ
signed_word x = if ltb x (2 ^ 63) then pos x else negsuc (2 ^ 64 - 1 - x)

unfoldable pub is_positive : ℕ → Bool
is_positive x = ltb 0 x && ltb x (2 ^ 63)

-- The quotient of a word by a number that is positive, rounded towards 0.
unfoldable pub signed_quotient : ℕ → ℕ → ℕ
signed_quotient x n = if ltb x (2 ^ 63) then x / n else (2 ^ 64 - (2 ^ 64 - x) / n) % 2 ^ 64

-- The average after the result number `total`.
unfoldable pub next_average : ℕ → ℕ → ℕ → ℕ
unfolding is_positive signed_quotient
next_average average total latency =
    if is_positive total
    then signed_quotient ((average * (total - 1) + latency) % 2 ^ 64) total
    else average

module _ {N : Type 0} where
  unfoldable pub count_access : Bool → RequestCache N → RequestCache N
  count_access true c = record c { hits = (c.hits + 1) % 2 ^ 64 }
  count_access false c = record c { misses = (c.misses + 1) % 2 ^ 64 }

module _ {W : Type 0} where
  unfoldable pub count_result : Option String → RouterMetrics W → RouterMetrics W
  count_result none m = record m { successful_requests = (m.successful_requests + 1) % 2 ^ 64 }
  count_result (some e) m = record m { failed_requests = (m.failed_requests + 1) % 2 ^ 64 }

module _ (f : FloatOps) where
  unfoldable pub hit_rate_or : f.Carrier → RequestCache (RouteNode f.Carrier) → f.Carrier
  unfolding is_positive signed_word
  hit_rate_or old c =
      let sum = (c.hits + c.misses) % 2 ^ 64 in
      if is_positive sum
      then f.div (f.of_int (signed_word c.hits)) (f.of_int (signed_word sum))
      else old

  unfoldable pub update_router_metrics :
      ℕ → RouteResult f.Carrier → OptimizedRouter f → OptimizedRouter f
  unfolding next_average count_access hit_rate_or count_result
  update_router_metrics now result r =
      let total = (r.metrics.total_requests + 1) % 2 ^ 64 in
      let c = count_access result.cache_hit r.route_cache in
      let m = count_result result.error r.metrics in
      record r {
        route_cache = c;
        metrics = record m {
          total_requests = total;
          average_latency = next_average r.metrics.average_latency total result.latency;
          cache_hit_rate = hit_rate_or r.metrics.cache_hit_rate c;
          last_updated = now;
        };
      }
