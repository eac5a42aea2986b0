-- ===== src/DosProtection/Tests.antt =====
-- Runs of core/security's rate limit.
use muxcore.Common.{ℕ, ◌≡◌, refl, true, [], ◌∷◌, arith}
use muxcore.Common.Dict.{lookup, insert}
use muxcore.Common.Keys.{string_key}
use muxcore.DosProtection.{
  DosProtector, allowed, rate_limited, attack, Request, check_fingerprint, generate_fingerprint_id,
}
use muxcore.DosProtection.Burst.{check_all, burst_blocked, Quiet}
use muxcore.DosProtection.Cleanup.{Inv}

abbrev at_time : ℕ → Request
at_time t = record {
  ip = "10.0.0.1";
  user_agent = "curl";
  protocol = "http";
  since = t;
  now = t;
  blocked_at = t;
}

abbrev limiter : DosProtector
limiter = record {
  fingerprints = [];
  threshold = 2;
  window_size = 100;
  block_duration = 500;
  blocked_ips = [];
  enabled = true;
}

limiter-Quiet : Quiet (at_time 10) limiter
limiter-Quiet = record {
  is_enabled = refl;
  unblocked = unfold lookup in refl;
  unknown = unfold lookup in refl;
}

burst_verdicts :
    (check_all (at_time 10 ∷ at_time 20 ∷ at_time 30 ∷ at_time 40 ∷ []) limiter).1
    ≡ allowed ∷ allowed ∷ attack ∷ rate_limited ∷ []
unfolding check_all check_fingerprint lookup insert generate_fingerprint_id
burst_verdicts = refl

burst_blocked_example :
    (check_fingerprint (at_time 30) (check_all (at_time 10 ∷ at_time 20 ∷ []) limiter).0).1 ≡ attack
burst_blocked_example =
    (burst_blocked limiter (at_time 10) (at_time 20 ∷ []) (at_time 30) (at_time 400) limiter-Quiet
      ((refl, refl, omega arith), tt) (refl, refl, omega arith) refl refl (omega arith)).1

limiter-Inv : Inv limiter
limiter-Inv = record { fingerprints_distinct = tt; blocked_distinct = tt }
