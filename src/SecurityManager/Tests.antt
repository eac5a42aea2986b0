-- ===== src/SecurityManager/Tests.antt =====
-- Runs of the security manager.
use muxcore.Common.{
  ℕ, ◌+◌, ◌*◌, ◌/◌, ◌≡◌, refl, true, false, none, some, List, [], ◌∷◌, arith, ltb, leb, ◌==◌,
  length,
}
use muxcore.Common.Dict.{lookup, insert}
use muxcore.Common.Keys.{string_key, number_key}
use muxcore.Common.Floats.{FloatOps}
use muxcore.Common.Int.{pos_part}
use muxcore.ThreatResponse.{
  ThreatSeverity, severity_low, severity_high, severity_critical, new_response_engine, is_blocked,
  check_entry,
}
use muxcore.SecurityManager.{
  ConnectionInfo, track_connection, tracked_id, get_connections_by_ip, SecurityConfig,
  SecurityManager, new_security_manager, ThreatEvent, ThreatSignature, AnomalyDetector,
  publish_threat_event, refuse, check_limit, check_ip, check_address, check_connection,
  with_tracked, stop_security,
}
use muxcore.SecurityManager.Limits.{Limited, Crowded}
use muxcore.SecurityManager.Lockout.{
  CheckCall, attempt_call, data_call, attempts, refusals, locked_out,
}

-- Whole numbers, with the part below zero as 0.
abbrev naturals : FloatOps
naturals = record {
  Carrier = ℕ;
  of_int = λ n. pos_part n;
  add = λ a b. a + b;
  mul = λ a b. a * b;
  div = λ a b. a / b;
  less = λ a b. ltb a b;
  at_most = λ a b. leb a b;
  equal = λ a b. a == b;
}

abbrev config : SecurityConfig
config = record {
  enabled = true;
  threat_detection_enabled = true;
  ddos_protection_enabled = true;
  max_connections_per_ip = 1;
  anomaly_detection_enabled = true;
  signature_detection = true;
  behavior_analysis = false;
  alerting_enabled = true;
  event_buffer_size = 4;
  auto_response_enabled = true;
  block_duration = 10;
}

abbrev long_data : ThreatSignature
long_data = record {
  id = "long";
  name = "Long data";
  type = "malware";
  pattern = some (λ content. ltb 2 (length content));
  severity = severity_high;
  enabled = true;
}

abbrev fresh : SecurityManager naturals
fresh = new_security_manager naturals config (("long", long_data) ∷ [])

-- The state after the data of a source were refused.
abbrev alarmed : SecurityManager naturals
alarmed = record fresh {
  engine = record (new_response_engine true 10) { blacklist = ("a", 15) ∷ [] };
  events = record { type = "malware"; severity = severity_high; source = "a"; target = "b" } ∷ [];
  blocked_threats = 1;
  total_threats = 1;
}

enabled : fresh.config.enabled ≡ true
unfolding new_security_manager
enabled = refl

abbrev tracked_from : ℕ → ConnectionInfo
tracked_from port = record {
  ip = "a";
  port = port;
  connect_time = 0;
  last_activity = 0;
  request_count = 0;
  bytes_sent = 0;
  bytes_received = 0;
  user_agent = "agent";
  protocol = "http";
}

-- Two connections of an address that may have one.
abbrev crowded : SecurityManager naturals
crowded = record fresh { connections = ("a:1", tracked_from 1) ∷ ("a:2", tracked_from 2) ∷ [] }

crowded-Limited : Limited crowded
unfolding new_security_manager
crowded-Limited = (refl, refl, refl)

crowded-Crowded : Crowded "a" crowded
unfolding new_security_manager get_connections_by_ip
crowded-Crowded = omega arith

abbrev later_calls : List CheckCall
later_calls =
    attempt_call 3 "agent" "http" "b" 5
    ∷ data_call (97 ∷ 98 ∷ []) "a" "b" 6
    ∷ attempt_call 4 "agent" "grpc" "b" 500
    ∷ []

locked_out_example : attempts {F = naturals} "a" later_calls crowded ≡ refusals later_calls
locked_out_example = locked_out "a" later_calls crowded crowded-Limited crowded-Crowded

abbrev event_of : ThreatSeverity → ThreatEvent
event_of severity = record { type = "malware"; severity = severity; source = "a"; target = "b" }

abbrev two_events : List ThreatEvent
two_events = event_of severity_critical ∷ event_of severity_low ∷ []

alerting : fresh.config.alerting_enabled ≡ true
unfolding new_security_manager
alerting = refl

no_alerts : fresh.alerts ≡ []
unfolding new_security_manager
no_alerts = refl

abbrev new_anomaly_detector : AnomalyDetector naturals
new_anomaly_detector = record { baselines = []; threshold = 0 }

-- After Stop, a check that is over the limit sends on a closed channel.
over_limit_after_stop :
    check_connection naturals (some ("a", 3)) "agent" "http" "b" 5 (stop_security naturals crowded)
    ≡ none
unfolding check_connection check_address check_ip check_limit with_tracked track_connection
    tracked_id is_blocked check_entry new_security_manager new_response_engine get_connections_by_ip
    lookup insert refuse publish_threat_event stop_security
over_limit_after_stop = refl
