-- ===== src/ThreatResponse.antt =====
-- core/security/security_manager_enhanced.go: the ResponseEngine and its blacklist. Each call reads the clock once and is one
-- step; telling of an escalation changes nothing.
pub mod Blacklist
mod Tests
use muxcore.Common.{
  ℕ, ◌+◌, ◌*◌, String, Bool, true, false, not, Option, none, some, List, [], ◌∷◌, ltb,
  if◌then◌else◌,
}
use muxcore.Common.Dict.{Dict, lookup, insert, delete}
use muxcore.Common.Keys.{string_key, number_key}

pub data ThreatSeverity : Type 0 where
  severity_low severity_medium severity_high severity_critical : ThreatSeverity

pub record ResponseEngine : Type 0 where
  pub auto_response_enabled : Bool
  pub block_duration : ℕ
  pub blacklist : Dict String ℕ

unfoldable pub new_response_engine : Bool → ℕ → ResponseEngine
new_response_engine auto_response_enabled block_duration = record {
  auto_response_enabled = auto_response_enabled;
  block_duration = block_duration;
  blacklist = [];
}

unfoldable pub block_ip_for : String → ℕ → ℕ → ResponseEngine → ResponseEngine
block_ip_for ip duration now re = record re { blacklist = insert ip (now + duration) re.blacklist }

unfoldable pub unblock_ip : String → ResponseEngine → ResponseEngine
unblock_ip ip re = record re { blacklist = delete ip re.blacklist }

unfoldable pub handle_severity :
    ThreatSeverity → String → ℕ → ResponseEngine → ResponseEngine × String
unfolding block_ip_for
handle_severity severity_critical source now re =
    (block_ip_for source (re.block_duration * 2) now re, "blocked")
handle_severity severity_high source now re =
    (block_ip_for source re.block_duration now re, "blocked")
handle_severity severity_medium source now re = (re, "rate_limited")
handle_severity severity_low source now re = (re, "logged")

unfoldable pub respond_to_threat :
    ThreatSeverity → String → ℕ → ResponseEngine → ResponseEngine × String
unfolding handle_severity
respond_to_threat severity source now re =
    if not re.auto_response_enabled
    then (re, "no_action")
    else handle_severity severity source now re

unfoldable pub check_entry : Option ℕ → String → ℕ → ResponseEngine → ResponseEngine × Bool
check_entry none ip now re = (re, false)
check_entry (some block_time) ip now re =
    if ltb block_time now
    then (record re { blacklist = delete ip re.blacklist }, false)
    else (re, true)

unfoldable pub is_blocked : String → ℕ → ResponseEngine → ResponseEngine × Bool
unfolding check_entry
is_blocked ip now re = check_entry (lookup ip re.blacklist) ip now re

pub data SecurityCall : Type 0 where
  threat : ThreatSeverity → String → SecurityCall
  block : String → ℕ → SecurityCall
  unblock : String → SecurityCall
  ask : String → SecurityCall

-- The answers of IsBlocked over calls at given times.
unfoldable pub security_answers : List (ℕ × SecurityCall) → ResponseEngine → List Bool
unfolding respond_to_threat block_ip_for unblock_ip is_blocked
security_answers [] re = []
security_answers ((now, threat severity source) ∷ calls) re =
    security_answers calls (respond_to_threat severity source now re).0
security_answers ((now, block ip duration) ∷ calls) re =
    security_answers calls (block_ip_for ip duration now re)
security_answers ((now, unblock ip) ∷ calls) re = security_answers calls (unblock_ip ip re)
security_answers ((now, ask ip) ∷ calls) re =
    (is_blocked ip now re).1 ∷ security_answers calls (is_blocked ip now re).0
