-- ===== src/SecurityManager/Limits.antt =====
-- core/security/security_manager_enhanced.go: the limit of connections by address in CheckConnection.
use muxcore.Common.{
  ℕ, ◌≤◌, ◌<◌, String, ◌≡◌, refl, subst, Bool, true, false, not, ◌&&◌, Option, none, some, [], ◌∷◌,
  arith, ltb, length, if_either, if_cases,
}
use muxcore.Common.Dict.{Dict, insert}
use muxcore.Common.Keys.{string_key, number_key}
use muxcore.Common.Floats.{FloatOps}
use muxcore.ThreatResponse.{severity_high, ResponseEngine, is_blocked}
use muxcore.SecurityManager.{
  ConnectionInfo, track_connection, tracked_id, get_connections_by_ip, SecurityManager,
  publish_threat_event, Checked, refuse, check_limit, check_ip, check_address, check_connection,
  with_tracked, with_tracked,
}

-- Tracking a connection of an address makes no fewer of that address.
tracked-grows :
    (ip key : String) (c : ConnectionInfo) (m : Dict String ConnectionInfo)
    → c.ip ≡ ip
    → length (get_connections_by_ip ip m) ≤ length (get_connections_by_ip ip (insert key c m))
unfolding get_connections_by_ip insert
tracked-grows ip key c [] same = omega arith
tracked-grows ip key c ((k, d) ∷ m) same =
    ground (arith, tracked-grows ip key c m same, (string_key.test_iff c.ip ip).1 same)

module _ {F : FloatOps} where
  -- More connections of an address are tracked than it may have.
  abbrev pub Crowded : String → SecurityManager F → Type 0
  Crowded ip sm =
      sm.config.max_connections_per_ip < length (get_connections_by_ip ip sm.connections)

  -- Limits are checked, and the events have not been closed.
  abbrev pub Limited : SecurityManager F → Type 0
  Limited sm =
      (sm.config.enabled ≡ true) × (sm.config.ddos_protection_enabled ≡ true) × (sm.stopped ≡ false)

  -- A check that says no, after which the address has as many connections as before.
  abbrev pub Refused : String → Checked F → Type 0
  Refused ip none = ⊥
  Refused ip (some (sm, ok, reason)) = (ok ≡ false) × Limited sm × Crowded ip sm

  publish-Refused :
      (ip target : String) (sm : SecurityManager F)
      → Limited sm
      → Crowded ip sm
      → Refused ip (
          refuse F (
            publish_threat_event F
              (record { type = "ddos"; severity = severity_high; source = ip; target = target })
              sm))
  unfolding refuse publish_threat_event
  publish-Refused ip target sm (on, ddos, open_) crowded =
      if_cases (λ (o : Option (SecurityManager F)). Refused ip (refuse F o)) sm.stopped
        (λ shut. absurd (cc))
        (λ _.
          if_either (λ (o : Option (SecurityManager F)). Refused ip (refuse F o))
            (ltb (length sm.events) sm.config.event_buffer_size) (refl, (on, ddos, open_), crowded)
            (refl, (on, ddos, open_), crowded))

  check_limit-Refused :
      (ip target : String) (sm : SecurityManager F)
      → Limited sm
      → Crowded ip sm
      → Refused ip (check_limit F ip target sm)
  unfolding check_limit
  check_limit-Refused ip target sm limited crowded =
      if_cases (Refused ip)
        (sm.config.ddos_protection_enabled
          && ltb sm.config.max_connections_per_ip
              (length (get_connections_by_ip ip sm.connections)))
        (λ _. publish-Refused ip target sm limited crowded)
        (λ few. let (on, ddos, open_) = limited in absurd (ground (arith, ddos, crowded)))

  check_ip-Refused :
      (r : ResponseEngine × Bool) (ip : String) (port : ℕ) (user_agent protocol target : String)
      (now : ℕ) (sm : SecurityManager F)
      → Limited sm
      → Crowded ip sm
      → Refused ip (check_ip F r ip port user_agent protocol target now sm)
  unfolding check_ip with_tracked track_connection
  check_ip-Refused (e, true) ip port user_agent protocol target now sm limited crowded =
      (refl, limited, crowded)
  check_ip-Refused (e, false) ip port user_agent protocol target now sm limited crowded =
      check_limit-Refused ip target (with_tracked F e ip port user_agent protocol now sm) limited
        (omega (arith, crowded, tracked-grows ip (tracked_id ip port) _ sm.connections refl))

  pub check_connection-Refused :
      (ip : String) (port : ℕ) (user_agent protocol target : String) (now : ℕ)
      (sm : SecurityManager F)
      → Limited sm
      → Crowded ip sm
      → Refused ip (check_connection F (some (ip, port)) user_agent protocol target now sm)
  unfolding check_connection check_address
  check_connection-Refused ip port user_agent protocol target now sm limited crowded =
      if_cases (Refused ip) (not sm.config.enabled) (λ off. absurd (ground (arith, limited.0)))
        (λ _.
          check_ip-Refused (is_blocked ip now sm.engine) ip port user_agent protocol target now sm
            limited crowded)

  -- What a check that says yes leaves.
  abbrev Few : String → Checked F → Type 0
  Few ip none = Unit
  Few ip (some (sm, false, reason)) = Unit
  Few ip (some (sm, true, reason)) =
      length (get_connections_by_ip ip sm.connections) ≤ sm.config.max_connections_per_ip

  refuse-Few : (ip : String) (o : Option (SecurityManager F)) → Few ip (refuse F o)
  unfolding refuse
  refuse-Few ip none = tt
  refuse-Few ip (some sm) = tt

  check_limit-Few :
      (ip target : String) (sm : SecurityManager F)
      → sm.config.ddos_protection_enabled ≡ true
      → Few ip (check_limit F ip target sm)
  unfolding check_limit
  check_limit-Few ip target sm ddos =
      if_cases (Few ip)
        (sm.config.ddos_protection_enabled
          && ltb sm.config.max_connections_per_ip
              (length (get_connections_by_ip ip sm.connections)))
        (λ _. refuse-Few ip _) (λ few. ground (arith, ddos))

  check_ip-Few :
      (r : ResponseEngine × Bool) (ip : String) (port : ℕ) (user_agent protocol target : String)
      (now : ℕ) (sm : SecurityManager F)
      → sm.config.ddos_protection_enabled ≡ true
      → Few ip (check_ip F r ip port user_agent protocol target now sm)
  unfolding check_ip with_tracked
  check_ip-Few (e, true) ip port user_agent protocol target now sm ddos = tt
  check_ip-Few (e, false) ip port user_agent protocol target now sm ddos =
      check_limit-Few ip target (with_tracked F e ip port user_agent protocol now sm) ddos

  -- if CheckConnection says yes to an address while security and the limit are enabled, the tracker has at most
  -- MaxConnectionsPerIP connections of the address, this one included.
  check_connection-Few :
      (ip : String) (port : ℕ) (user_agent protocol target : String) (now : ℕ)
      (sm q : SecurityManager F) (reason : String)
      → sm.config.enabled ≡ true
      → sm.config.ddos_protection_enabled ≡ true
      → check_connection F (some (ip, port)) user_agent protocol target now sm
        ≡ some (q, true, reason)
      → length (get_connections_by_ip ip q.connections) ≤ q.config.max_connections_per_ip
  unfolding check_connection check_address
  check_connection-Few ip port user_agent protocol target now sm q reason on ddos e =
      subst (Few ip) e (
        if_cases (Few ip) (not sm.config.enabled) (λ off. absurd (ground arith))
          (λ _.
            check_ip-Few (is_blocked ip now sm.engine) ip port user_agent protocol target now sm
              ddos))
