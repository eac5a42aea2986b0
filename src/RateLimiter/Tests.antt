-- ===== src/RateLimiter/Tests.antt =====
-- Runs of the rate limiter.
use muxcore.Common.{ℕ, ◌≡◌, refl, true, false, List, [], ◌∷◌, arith}
use muxcore.Common.Keys.{string_key, number_key}
use muxcore.RateLimiter.{new_rate_limiter, drop_expired, allow, allow_all}
use muxcore.RateLimiter.SlidingWindow.{answers, allow_all_counts}

abbrev readings : List ℕ
readings = 5 ∷ 6 ∷ 7 ∷ 16 ∷ 16 ∷ []

-- Two in ten: the third call is refused, and of the last two calls one.
two_in_ten : allow_all readings (new_rate_limiter 2 10) ≡ true ∷ true ∷ false ∷ true ∷ false ∷ []
unfolding allow_all allow new_rate_limiter drop_expired
two_in_ten = refl

allow_all_counts_example : allow_all readings (new_rate_limiter 2 10) ≡ answers 2 10 readings []
allow_all_counts_example =
    allow_all_counts 2 10 readings
      (omega arith, (omega arith, (omega arith, (omega arith, (omega arith, tt)))))
