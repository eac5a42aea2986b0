-- ===== src/SecurityManager/Silence.antt =====
-- core/security/security_manager_enhanced.go: which events are told of, and what the AnomalyDetector finds.
use muxcore.Common.{
  String, ◌≡◌, refl, sym, ap, ◌∙◌, Bool, true, false, not, List, [], ◌∷◌, ◌++◌, if◌then◌else◌,
}
use muxcore.Common.Dict.{lookup}
use muxcore.Common.Keys.{string_key, number_key}
use muxcore.Common.Floats.{FloatOps}
use muxcore.ThreatResponse.{
  ThreatSeverity, severity_low, severity_medium, severity_high, severity_critical,
}
use mathlib.Core.List.{append-nil, append_assoc}
use muxcore.Common.Text.{utf8, utf8_code}
use muxcore.SecurityManager.{
  at_least_high, bytes_less, severity_text, AnomalyDetector, detect_anomaly, anomaly_found,
  store_baseline, SecurityManager, ThreatEvent, process_event, process_events,
}

abbrev pub is_critical : ThreatSeverity → Bool
is_critical severity_critical = true
is_critical _ = false

at_least_high-is_critical :
    (severity : ThreatSeverity) → at_least_high severity ≡ not (is_critical severity)
unfolding at_least_high bytes_less severity_text utf8 utf8_code
at_least_high-is_critical severity_low = refl
at_least_high-is_critical severity_medium = refl
at_least_high-is_critical severity_high = refl
at_least_high-is_critical severity_critical = refl

-- Those of some events that are not critical.
abbrev pub not_critical : List ThreatEvent → List ThreatEvent
not_critical [] = []
not_critical (event ∷ events) =
    let rest = not_critical events in if is_critical event.severity then rest else event ∷ rest

abbrev pub all_false {ℓ} : {A : Type ℓ} → List A → List Bool
all_false [] = []
all_false (x ∷ l) = false ∷ all_false l

module _ {F : FloatOps} where
  process_events-alerts :
      (events : List ThreatEvent) (sm : SecurityManager F)
      → sm.config.alerting_enabled ≡ true
      → (process_events F events sm).alerts ≡ sm.alerts ++ not_critical events
  unfolding process_events process_event
  process_events-alerts [] sm on = sym (append-nil sm.alerts)
  process_events-alerts (event ∷ events) sm on =
      process_events-alerts events (process_event F event sm) on
      ∙ (rw (on, at_least_high-is_critical event.severity) (told (is_critical event.severity)))
    where
      told :
          (b : Bool)
          → (if not b then sm.alerts ++ event ∷ [] else sm.alerts) ++ not_critical events
            ≡ sm.alerts ++ (if b then not_critical events else event ∷ not_critical events)
      told true = refl
      told false = append_assoc sm.alerts (event ∷ []) (not_critical events)

  -- if alerts are enabled, the events that processEvent sends an alert for are, in their order, those of every severity but
  -- critical: `event.Severity >= SeverityHigh` compares texts, and "critical" comes first.
  pub alerts_not_critical :
      (events : List ThreatEvent) (sm : SecurityManager F)
      → sm.config.alerting_enabled ≡ true
      → sm.alerts ≡ []
      → (process_events F events sm).alerts ≡ not_critical events
  alerts_not_critical events sm on none_yet =
      process_events-alerts events sm on
      ∙ ap (λ (l : List ThreatEvent). l ++ not_critical events) none_yet

  -- The answers of DetectAnomaly to some values.
  abbrev pub anomalies : List (String × F.Carrier) → AnomalyDetector F → List Bool
  anomalies [] ad = []
  anomalies ((key, value) ∷ l) ad =
      (detect_anomaly F key value ad).1 ∷ anomalies l (detect_anomaly F key value ad).0

  detect_anomaly_empty :
      (key : String) (value : F.Carrier) (ad : AnomalyDetector F)
      → ad.baselines ≡ []
      → ((detect_anomaly F key value ad).1 ≡ false)
        × ((detect_anomaly F key value ad).0.baselines ≡ [])
  unfolding detect_anomaly anomaly_found store_baseline lookup
  detect_anomaly_empty key value ad e = rw (e) (refl, refl)

  -- an AnomalyDetector without baselines answers false to every value of every key, however many there are and whatever
  -- they are: DetectAnomaly sets no baseline by itself.
  pub nothing_anomalous :
      (l : List (String × F.Carrier)) (ad : AnomalyDetector F)
      → ad.baselines ≡ []
      → anomalies l ad ≡ all_false l
  nothing_anomalous [] ad e = refl
  nothing_anomalous ((key, value) ∷ l) ad e =
      let (answer, still) = detect_anomaly_empty key value ad e in
      ap (λ (b : Bool). b ∷ anomalies l (detect_anomaly F key value ad).0) answer
      ∙ ap (λ (bs : List Bool). false ∷ bs)
          (nothing_anomalous l (detect_anomaly F key value ad).0 still)
