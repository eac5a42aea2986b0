-- ===== src/SecurityManager/Tracker.antt =====
-- core/security/security_manager_enhanced.go: ConnectionTracker. The fields Blocked and ThreatScore, which nothing reads, are
-- left out. Ports are those that net.SplitHostPort gives.
use muxcore.Common.{
  ℕ, ◌+◌, ◌%◌, ◌^◌, String, not, Option, none, some, List, [], ◌∷◌, ltb, if◌then◌else◌,
}
use muxcore.Common.Dict.{Dict, lookup, insert}
use muxcore.Common.Keys.{string_key, number_key}
use muxcore.Common.Dict.{keep_if}
use muxcore.Common.Text.{with_colon, decimal}

pub record ConnectionInfo : Type 0 where
  pub ip : String
  pub port : ℕ
  pub connect_time : ℕ
  pub last_activity : ℕ
  pub request_count : ℕ
  pub bytes_sent : ℕ
  pub bytes_received : ℕ
  pub user_agent : String
  pub protocol : String

-- `fmt.Sprintf("%s:%d", ip, port)`
unfoldable pub tracked_id : String → ℕ → String
unfolding with_colon decimal
tracked_id ip port = with_colon ip (decimal 19 port)

unfoldable pub track_connection :
    String
    → ℕ
    → String
    → String
    → ℕ
    → Dict String ConnectionInfo
    → Dict String ConnectionInfo × String
unfolding tracked_id
track_connection ip port user_agent protocol now m = (
  insert (tracked_id ip port)
      (record {
        ip = ip;
        port = port;
        connect_time = now;
        last_activity = now;
        request_count = 0;
        bytes_sent = 0;
        bytes_received = 0;
        user_agent = user_agent;
        protocol = protocol;
      })
      m,
  tracked_id ip port,
)

unfoldable pub update_tracked :
    Option ConnectionInfo
    → String
    → ℕ
    → ℕ
    → ℕ
    → Dict String ConnectionInfo
    → Dict String ConnectionInfo
update_tracked none id sent received now m = m
update_tracked (some c) id sent received now m =
    insert id
      (record c {
        last_activity = now;
        request_count = (c.request_count + 1) % 2 ^ 64;
        bytes_sent = (c.bytes_sent + sent) % 2 ^ 64;
        bytes_received = (c.bytes_received + received) % 2 ^ 64;
      })
      m

unfoldable pub update_connection :
    String → ℕ → ℕ → ℕ → Dict String ConnectionInfo → Dict String ConnectionInfo
unfolding update_tracked
update_connection id sent received now m = update_tracked (lookup id m) id sent received now m

unfoldable pub get_connections_by_ip : String → Dict String ConnectionInfo → List ConnectionInfo
get_connections_by_ip ip [] = []
get_connections_by_ip ip ((k, c) ∷ m) =
    let rest = get_connections_by_ip ip m in if string_key.test c.ip ip then c ∷ rest else rest

unfoldable pub cleanup_connections : ℕ → ℕ → Dict String ConnectionInfo → Dict String ConnectionInfo
cleanup_connections timeout now m = keep_if (λ c. not (ltb (c.last_activity + timeout) now)) m
