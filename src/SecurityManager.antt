-- ===== src/SecurityManager.antt =====
-- core/security/security_manager_enhanced.go: OptimizedSecurityManager over its tracker, its detector and the ResponseEngine. What
-- panics is none. Each call reads the clock once and is one step. What net.SplitHostPort answers is an argument.
mod Tracker
mod Detection
unfoldable pub use Tracker.*
unfoldable pub use Detection.*
pub mod Answers
pub mod Sources
pub mod Blocking
pub mod Limits
pub mod Lockout
pub mod Silence
mod Tests
use muxcore.Common.{
  ℕ, ◌+◌, ◌*◌, ◌%◌, ◌^◌, String, Bool, true, false, not, ◌&&◌, ◌||◌, Option, none, some, List, [],
  ◌∷◌, ◌++◌, ltb, ◌==◌, if◌then◌else◌, length,
}
use muxcore.Common.Dict.{Dict, lookup, insert}
use muxcore.Common.Keys.{string_key, number_key}
use muxcore.Common.Floats.{FloatOps}
use muxcore.Common.Text.{utf8}
use muxcore.ThreatResponse.{
  ThreatSeverity, severity_low, severity_medium, severity_high, severity_critical, ResponseEngine,
  new_response_engine, respond_to_threat, is_blocked,
}

pub record SecurityConfig : Type 0 where
  pub enabled : Bool
  pub threat_detection_enabled : Bool
  pub ddos_protection_enabled : Bool
  pub max_connections_per_ip : ℕ
  pub anomaly_detection_enabled : Bool
  pub signature_detection : Bool
  pub behavior_analysis : Bool
  pub alerting_enabled : Bool
  pub event_buffer_size : ℕ
  pub auto_response_enabled : Bool
  pub block_duration : ℕ

unfoldable pub severity_text : ThreatSeverity → String
severity_text severity_low = "low"
severity_text severity_medium = "medium"
severity_text severity_high = "high"
severity_text severity_critical = "critical"

-- Go's order of strings, byte by byte.
unfoldable pub bytes_less : List ℕ → List ℕ → Bool
bytes_less [] [] = false
bytes_less [] (y ∷ ys) = true
bytes_less (x ∷ xs) [] = false
bytes_less (x ∷ xs) (y ∷ ys) = let rest = bytes_less xs ys in if x == y then rest else ltb x y

-- `event.Severity >= SeverityHigh`
unfoldable pub at_least_high : ThreatSeverity → Bool
unfolding severity_text bytes_less utf8
at_least_high severity = not (bytes_less (utf8 (severity_text severity)) (utf8 "high"))

module _ (F : FloatOps) where
  pub record SecurityManager : Type 0 where
    pub config : SecurityConfig
    pub connections : Dict String ConnectionInfo
    pub signatures : Dict String ThreatSignature
    pub profiles : Dict String (BehaviorProfile F)
    pub engine : ResponseEngine
    pub events : List ThreatEvent
    pub stopped : Bool
    pub threats_by_type : Dict String ℕ
    pub threats_by_severity : Dict String ℕ
    pub alerts : List ThreatEvent
    pub total_connections : ℕ
    pub blocked_connections : ℕ
    pub total_threats : ℕ
    pub blocked_threats : ℕ

  unfoldable pub new_security_manager :
      SecurityConfig → Dict String ThreatSignature → SecurityManager
  unfolding new_response_engine
  new_security_manager config signatures = record {
    config = config;
    connections = [];
    signatures = signatures;
    profiles = [];
    engine = new_response_engine config.auto_response_enabled config.block_duration;
    events = [];
    stopped = false;
    threats_by_type = [];
    threats_by_severity = [];
    alerts = [];
    total_connections = 0;
    blocked_connections = 0;
    total_threats = 0;
    blocked_threats = 0;
  }

  -- A send on the channel, which Stop closes.
  unfoldable pub publish_threat_event : ThreatEvent → SecurityManager → Option SecurityManager
  publish_threat_event threat sm =
      if sm.stopped
      then none
      else if ltb (length sm.events) sm.config.event_buffer_size
      then some (record sm { events = sm.events ++ threat ∷ [] })
      else some sm

  abbrev pub Checked : Type 0
  Checked = Option (SecurityManager × Bool × String)

  unfoldable pub refuse : Option SecurityManager → Checked
  refuse none = none
  refuse (some sm) = some (
    record sm { blocked_connections = (sm.blocked_connections + 1) % 2 ^ 64 },
    false,
    "ddos_protection",
  )

  unfoldable pub check_limit : String → String → SecurityManager → Checked
  unfolding refuse publish_threat_event
  check_limit ip target sm =
      if sm.config.ddos_protection_enabled
        && ltb sm.config.max_connections_per_ip (length (get_connections_by_ip ip sm.connections))
      then refuse (
          publish_threat_event
            (record { type = "ddos"; severity = severity_high; source = ip; target = target }) sm)
      else some
          (record sm { total_connections = (sm.total_connections + 1) % 2 ^ 64 }, true, "allowed")

  unfoldable pub with_tracked :
      ResponseEngine → String → ℕ → String → String → ℕ → SecurityManager → SecurityManager
  unfolding track_connection
  with_tracked e ip port user_agent protocol now sm = record sm {
    engine = e;
    connections = (track_connection ip port user_agent protocol now sm.connections).0;
  }

  unfoldable pub check_ip :
      ResponseEngine × Bool → String → ℕ → String → String → String → ℕ → SecurityManager → Checked
  unfolding check_limit with_tracked
  check_ip (e, true) ip port user_agent protocol target now sm = some (
    record sm { engine = e; blocked_connections = (sm.blocked_connections + 1) % 2 ^ 64 },
    false,
    "ip_blocked",
  )
  check_ip (e, false) ip port user_agent protocol target now sm =
      check_limit ip target (with_tracked e ip port user_agent protocol now sm)

  unfoldable pub check_address :
      Option (String × ℕ) → String → String → String → ℕ → SecurityManager → Checked
  unfolding check_ip is_blocked
  check_address none user_agent protocol target now sm = some (sm, false, "invalid_address")
  check_address (some (ip, port)) user_agent protocol target now sm =
      check_ip (is_blocked ip now sm.engine) ip port user_agent protocol target now sm

  unfoldable pub check_connection :
      Option (String × ℕ) → String → String → String → ℕ → SecurityManager → Checked
  unfolding check_address
  check_connection address user_agent protocol target now sm =
      if not sm.config.enabled
      then some (sm, true, "security_disabled")
      else check_address address user_agent protocol target now sm

  unfoldable pub detect_threats :
      List ℕ → String → String → SecurityManager → SecurityManager × List ThreatEvent
  unfolding detect_by_signature detect_by_behavior detect_anomalies
  detect_threats content source target sm =
      let by_signature =
        if sm.config.signature_detection
        then detect_by_signature content source target sm.signatures
        else [] in
      let by_behavior =
        if sm.config.behavior_analysis
        then detect_by_behavior F content source target sm.profiles
        else (sm.profiles, []) in
      let anomalies =
        if sm.config.anomaly_detection_enabled
        then detect_anomalies content source target
        else [] in
      (record sm { profiles = by_behavior.0 }, by_signature ++ by_behavior.1 ++ anomalies)

  abbrev pub Responses : Type 0
  Responses = Option (SecurityManager × Bool × List String)

  unfoldable pub note_response : ResponseEngine × String → SecurityManager → SecurityManager
  note_response (e, r) sm = record sm {
    engine = e;
    blocked_threats =
        if string_key.test r "blocked"
        then (sm.blocked_threats + 1) % 2 ^ 64
        else sm.blocked_threats;
    total_threats = (sm.total_threats + 1) % 2 ^ 64;
  }

  -- A threat that was published is answered.
  unfoldable pub respond_published :
      ThreatEvent → ℕ → Option SecurityManager → Option (SecurityManager × String)
  unfolding note_response respond_to_threat
  respond_published threat now none = none
  respond_published threat now (some sm) =
      let r = respond_to_threat threat.severity threat.source now sm.engine in
      some (note_response r sm, r.1)

  unfoldable pub with_response : String → Responses → Responses
  with_response r none = none
  with_response r (some (sm, blocked, rs)) =
      some (sm, string_key.test r "blocked" || blocked, r ∷ rs)

  unfoldable pub and_respond :
      Option (SecurityManager × String) → (SecurityManager → Responses) → Responses
  unfolding with_response
  and_respond none next = none
  and_respond (some (sm, r)) next = with_response r (next sm)

  -- The loop of CheckData: what was answered to the threats, and whether one of them was blocked.
  unfoldable pub respond_all : List ThreatEvent → ℕ → SecurityManager → Responses
  unfolding and_respond respond_published publish_threat_event
  respond_all [] now sm = some (sm, false, [])
  respond_all (threat ∷ threats) now sm =
      and_respond (respond_published threat now (publish_threat_event threat sm))
        (respond_all threats now)

  unfoldable pub finish_check : Responses → Responses
  finish_check none = none
  finish_check (some (sm, blocked, [])) = some (sm, not blocked, "clean" ∷ [])
  finish_check (some (sm, blocked, r ∷ rs)) = some (sm, not blocked, r ∷ rs)

  unfoldable pub check_data : List ℕ → String → String → ℕ → SecurityManager → Responses
  unfolding finish_check respond_all detect_threats
  check_data content source target now sm =
      if not sm.config.enabled || not sm.config.threat_detection_enabled
      then some (sm, true, "security_disabled" ∷ [])
      else (let d = detect_threats content source target sm in
          finish_check (respond_all d.1 now d.0))

  abbrev pub count_of : Option ℕ → ℕ
  count_of none = 0
  count_of (some n) = n

  unfoldable pub process_event : ThreatEvent → SecurityManager → SecurityManager
  unfolding severity_text at_least_high
  process_event event sm = record sm {
    threats_by_type =
        insert event.type (count_of (lookup event.type sm.threats_by_type) + 1) sm.threats_by_type;
    threats_by_severity =
        insert (severity_text event.severity)
          (count_of (lookup (severity_text event.severity) sm.threats_by_severity) + 1)
          sm.threats_by_severity;
    alerts =
        if sm.config.alerting_enabled && at_least_high event.severity
        then sm.alerts ++ event ∷ []
        else sm.alerts;
  }

  unfoldable pub process_events : List ThreatEvent → SecurityManager → SecurityManager
  unfolding process_event
  process_events [] sm = sm
  process_events (event ∷ events) sm = process_events events (process_event event sm)

  -- Stop closes the channel of events.
  unfoldable pub stop_security : SecurityManager → SecurityManager
  stop_security sm = record sm { stopped = true }
