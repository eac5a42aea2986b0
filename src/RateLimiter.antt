-- ===== src/RateLimiter.antt =====
-- core/protocols/websocket/batch_processor.go: RateLimiter, the limit on the messages of a connection. A time is a number
-- of nanoseconds; `t.Before(now.Add(-window))` is t + window < now.
pub mod SlidingWindow
mod Tests
use muxcore.Common.{ℕ, ◌+◌, Bool, true, false, List, [], ◌∷◌, ◌++◌, ltb, leb, if◌then◌else◌, length}
use muxcore.Common.Keys.{string_key, number_key}

pub record RateLimiter : Type 0 where
  pub limit : ℕ
  pub window : ℕ
  pub requests : List ℕ

unfoldable pub new_rate_limiter : ℕ → ℕ → RateLimiter
new_rate_limiter limit window = record { limit = limit; window = window; requests = [] }

-- The loop that takes old requests off the front.
unfoldable pub drop_expired : ℕ → ℕ → List ℕ → List ℕ
drop_expired window now [] = []
drop_expired window now (t ∷ l) =
    let rest = drop_expired window now l in if ltb (t + window) now then rest else t ∷ l

unfoldable pub allow : ℕ → RateLimiter → RateLimiter × Bool
unfolding drop_expired
allow now rl =
    let kept = drop_expired rl.window now rl.requests in
    if leb rl.limit (length kept)
    then (record rl { requests = kept }, false)
    else (record rl { requests = kept ++ now ∷ [] }, true)

-- The answers to calls at these times.
unfoldable pub allow_all : List ℕ → RateLimiter → List Bool
unfolding allow
allow_all [] rl = []
allow_all (now ∷ times) rl = (allow now rl).1 ∷ allow_all times (allow now rl).0
