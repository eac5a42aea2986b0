-- ===== src/SecurityManager/Detection.antt =====
-- core/security/security_manager_enhanced.go: ThreatDetector and AnomalyDetector. A compiled pattern is what its MatchString
-- answers; a threat has the fields that are read. float64 is any FloatOps.
use muxcore.Common.{
  ℕ, String, Bool, false, ◌&&◌, Option, none, some, List, [], ◌∷◌, ltb, if◌then◌else◌, length,
}
use muxcore.Common.Dict.{Dict, lookup, insert}
use muxcore.Common.Keys.{string_key, number_key}
use muxcore.Common.Floats.{FloatOps}
use muxcore.Common.Int.{pos, negsuc}
use muxcore.ThreatResponse.{
  ThreatSeverity, severity_low, severity_medium, severity_high, severity_critical,
}

pub record ThreatEvent : Type 0 where
  pub type : String
  pub severity : ThreatSeverity
  pub source : String
  pub target : String

pub record ThreatSignature : Type 0 where
  pub id : String
  pub name : String
  pub type : String
  pub pattern : Option (List ℕ → Bool)
  pub severity : ThreatSeverity
  pub enabled : Bool

unfoldable pub signature_matches : ThreatSignature → List ℕ → Bool
signature_matches sig content = elim sig.pattern [
  | none ↦ false
  | some match_string ↦ sig.enabled && match_string content
]

unfoldable pub detect_by_signature :
    List ℕ → String → String → Dict String ThreatSignature → List ThreatEvent
unfolding signature_matches
detect_by_signature content source target [] = []
detect_by_signature content source target ((k, sig) ∷ m) =
    let rest = detect_by_signature content source target m in
    if signature_matches sig content
    then record { type = sig.type; severity = sig.severity; source = source; target = target }
      ∷ rest
    else rest

unfoldable pub detect_anomalies : List ℕ → String → String → List ThreatEvent
detect_anomalies content source target =
    if ltb 10000 (length content)
    then record { type = "anomaly"; severity = severity_medium; source = source; target = target }
      ∷ []
    else []

module _ (F : FloatOps) where
  pub record BehaviorProfile : Type 0 where
    pub request_rate : F.Carrier
    pub avg_request_size : F.Carrier
    pub anomaly_score : F.Carrier
    pub baseline_score : F.Carrier

  abbrev pub whole : ℕ → F.Carrier
  whole n = F.of_int (pos n)

  -- The constant a / b.
  abbrev pub ratio : ℕ → ℕ → F.Carrier
  ratio a b = F.div (whole a) (whole b)

  unfoldable pub add_if : Bool → F.Carrier → F.Carrier → F.Carrier
  add_if b x score = if b then F.add score x else score

  unfoldable pub calculate_anomaly_score : BehaviorProfile → F.Carrier
  unfolding add_if
  calculate_anomaly_score profile =
      add_if (F.less (F.mul profile.baseline_score (whole 2)) profile.request_rate) (ratio 3 10) (
        add_if (F.less (whole 5000) profile.avg_request_size) (ratio 2 10)
          (add_if (F.less (whole 100) profile.request_rate) (ratio 3 10) (whole 0)))

  unfoldable pub get_severity_by_score : F.Carrier → ThreatSeverity
  get_severity_by_score score =
      if F.at_most (ratio 9 10) score
      then severity_critical
      else if F.at_most (ratio 7 10) score
      then severity_high
      else if F.at_most (ratio 5 10) score
      then severity_medium
      else severity_low

  unfoldable pub new_profile : BehaviorProfile
  new_profile = record {
    request_rate = whole 0;
    avg_request_size = whole 0;
    anomaly_score = whole 0;
    baseline_score = ratio 5 10;
  }

  unfoldable pub profile_or_new : Option BehaviorProfile → BehaviorProfile
  unfolding new_profile
  profile_or_new none = new_profile
  profile_or_new (some profile) = profile

  -- calculateRequestRate answers 10, and calculateAvgRequestSize the size at hand.
  unfoldable pub measured : List ℕ → BehaviorProfile → BehaviorProfile
  unfolding calculate_anomaly_score
  measured content profile =
      let p = record profile {
        request_rate = whole 10;
        avg_request_size = whole (length content);
      } in
      record p { anomaly_score = calculate_anomaly_score p }

  unfoldable pub behavior_threats : F.Carrier → String → String → List ThreatEvent
  unfolding get_severity_by_score
  behavior_threats score source target =
      if F.less (ratio 8 10) score
      then record {
        type = "anomaly";
        severity = get_severity_by_score score;
        source = source;
        target = target;
      }
        ∷ []
      else []

  unfoldable pub detect_by_behavior :
      List ℕ
      → String
      → String
      → Dict String BehaviorProfile
      → Dict String BehaviorProfile × List ThreatEvent
  unfolding profile_or_new measured behavior_threats
  detect_by_behavior content source target m =
      let profile = measured content (profile_or_new (lookup source m)) in
      (insert source profile m, behavior_threats profile.anomaly_score source target)

  pub record AnomalyDetector : Type 0 where
    pub baselines : Dict String F.Carrier
    pub threshold : F.Carrier

  unfoldable pub set_baseline : String → F.Carrier → AnomalyDetector → AnomalyDetector
  set_baseline key value ad = record ad { baselines = insert key value ad.baselines }

  -- `value - baseline` over baseline, without its sign.
  unfoldable pub deviation : F.Carrier → F.Carrier → F.Carrier
  deviation value baseline =
      let minus_one = F.of_int (negsuc 0) in
      let d = F.div (F.add value (F.mul minus_one baseline)) baseline in
      if F.less d (whole 0) then F.mul minus_one d else d

  -- What DetectAnomaly writes under the lock: its second test is whether there is a baseline.
  unfoldable pub store_baseline :
      Option F.Carrier → String → F.Carrier → AnomalyDetector → AnomalyDetector
  store_baseline none key value ad = ad
  store_baseline (some old) key value ad = record ad { baselines = insert key value ad.baselines }

  unfoldable pub anomaly_found :
      Option F.Carrier → String → F.Carrier → AnomalyDetector → AnomalyDetector × Bool
  unfolding store_baseline deviation
  anomaly_found none key value ad = (store_baseline (lookup key ad.baselines) key value ad, false)
  anomaly_found (some baseline) key value ad = (ad, F.less ad.threshold (deviation value baseline))

  unfoldable pub detect_anomaly : String → F.Carrier → AnomalyDetector → AnomalyDetector × Bool
  unfolding anomaly_found
  detect_anomaly key value ad = anomaly_found (lookup key ad.baselines) key value ad
