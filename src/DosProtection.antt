-- ===== src/DosProtection.antt =====
-- core/security/dos_protection.go: rate limits by fingerprint and blocked addresses. Times and
-- durations are numbers of nanoseconds; `now.Sub(t) < d` is `now < t + d`.
pub mod Burst
pub mod Cleanup
mod Tests
use muxcore.Common.{
  ℕ, ◌+◌, String, Bool, true, false, Option, none, some, [], ltb, leb, if◌then◌else◌,
}
use Prim.Native.String.{◌++◌ as append}
use muxcore.Common.Dict.{Dict, lookup, insert, delete, keep_if}
use muxcore.Common.Keys.{string_key}

pub record Fingerprint : Type 0 where
  pub ip : String
  pub user_agent : String
  pub protocol : String
  pub timestamp : ℕ
  pub count : ℕ

pub record DosProtector : Type 0 where
  pub fingerprints : Dict String Fingerprint
  pub threshold : ℕ
  pub window_size : ℕ
  pub block_duration : ℕ
  pub blocked_ips : Dict String ℕ
  pub enabled : Bool

-- What CheckFingerprint returns: nil, or one of its two errors.
pub data Verdict : Type 0 where
  allowed rate_limited attack : Verdict

-- One call: its arguments, and what its three readings of the clock give.
pub record Request : Type 0 where
  pub ip : String
  pub user_agent : String
  pub protocol : String
  pub since : ℕ
  pub now : ℕ
  pub blocked_at : ℕ

pub new_dos_protector : ℕ → ℕ → ℕ → DosProtector
new_dos_protector threshold window block = record {
  fingerprints = [];
  threshold = threshold;
  window_size = window;
  block_duration = block;
  blocked_ips = [];
  enabled = true;
}

unfoldable pub generate_fingerprint_id : String → String → String → String
generate_fingerprint_id ip user_agent protocol =
    append ip (append ":" (append user_agent (append ":" protocol)))

abbrev pub request_id : Request → String
request_id r = generate_fingerprint_id r.ip r.user_agent r.protocol

abbrev pub fresh_fingerprint : Request → Fingerprint
fresh_fingerprint r = record {
  ip = r.ip;
  user_agent = r.user_agent;
  protocol = r.protocol;
  timestamp = r.now;
  count = 1;
}

-- The section under the write lock, by what the map holds of the fingerprint.
pub count_request : Request → Option Fingerprint → DosProtector → DosProtector × Verdict
count_request r none dp = (
  record dp { fingerprints = insert (request_id r) (fresh_fingerprint r) dp.fingerprints },
  allowed,
)
count_request r (some f) dp =
    let counted = insert (request_id r) (record f { count = f.count + 1 }) dp.fingerprints in
    if ltb r.now (f.timestamp + dp.window_size)
    then if ltb dp.threshold (f.count + 1)
      then (
        record dp { fingerprints = counted; blocked_ips = insert r.ip r.blocked_at dp.blocked_ips },
        attack,
      )
      else (record dp { fingerprints = counted }, allowed)
    else (
      record dp {
        fingerprints =
            insert (request_id r) (record f { timestamp = r.now; count = 1 }) dp.fingerprints;
      },
      allowed,
    )

abbrev pub count_it : Request → DosProtector → DosProtector × Verdict
count_it r dp = count_request r (lookup (request_id r) dp.fingerprints) dp

pub check_blocked : Request → Option ℕ → DosProtector → DosProtector × Verdict
unfolding count_request
check_blocked r none dp = count_it r dp
check_blocked r (some blocked_time) dp =
    if ltb (blocked_time + dp.block_duration) r.since
    then count_it r (record dp { blocked_ips = delete r.ip dp.blocked_ips })
    else (dp, rate_limited)

-- CheckFingerprint.
unfoldable pub check_fingerprint : Request → DosProtector → DosProtector × Verdict
unfolding check_blocked
check_fingerprint r dp =
    if dp.enabled then check_blocked r (lookup r.ip dp.blocked_ips) dp else (dp, allowed)

-- blockIP.
pub block_ip : String → ℕ → DosProtector → DosProtector
block_ip ip now dp = record dp { blocked_ips = insert ip now dp.blocked_ips }

-- One round of cleanupExpiredFingerprints.
pub cleanup : ℕ → DosProtector → DosProtector
cleanup now dp = record dp {
  fingerprints = keep_if (λ f. leb now (f.timestamp + dp.window_size)) dp.fingerprints;
  blocked_ips = keep_if (λ t. leb now (t + dp.block_duration)) dp.blocked_ips;
}

pub enable : DosProtector → DosProtector
enable dp = record dp { enabled = true }

pub disable : DosProtector → DosProtector
disable dp = record dp { enabled = false }
