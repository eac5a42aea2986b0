-- ===== src/SecurityManager/Sources.antt =====
-- core/security/security_manager_enhanced.go: every threat that is found in the data of a source names the source.
use muxcore.Common.{
  ℕ, String, ◌≡◌, refl, List, [], ◌∷◌, ◌++◌, ltb, if◌then◌else◌, length, All, if_either,
}
use muxcore.Common.Dict.{Dict}
use muxcore.Common.Keys.{string_key, number_key}
use muxcore.Common.Floats.{FloatOps}
use muxcore.SecurityManager.{
  SecurityManager, ThreatEvent, ratio, ThreatSignature, signature_matches, detect_threats,
  detect_by_signature, detect_by_behavior, behavior_threats, detect_anomalies, BehaviorProfile,
}

abbrev pub AllFrom : String → List ThreatEvent → Type 0
AllFrom source l = All (λ (t : ThreatEvent). t.source ≡ source) l

AllFrom-append :
    (source : String) (k l : List ThreatEvent)
    → AllFrom source k
    → AllFrom source l
    → AllFrom source (k ++ l)
AllFrom-append source [] l h k = k
AllFrom-append source (x ∷ xs) l (e, h) k = (e, AllFrom-append source xs l h k)

detect_by_signature-AllFrom :
    (content : List ℕ) (source target : String) (m : Dict String ThreatSignature)
    → AllFrom source (detect_by_signature content source target m)
unfolding detect_by_signature
detect_by_signature-AllFrom content source target [] = tt
detect_by_signature-AllFrom content source target ((k, sig) ∷ m) =
    let rest = detect_by_signature-AllFrom content source target m in
    if_either (AllFrom source) (signature_matches sig content) (refl, rest) rest

detect_anomalies-AllFrom :
    (content : List ℕ) (source target : String)
    → AllFrom source (detect_anomalies content source target)
unfolding detect_anomalies
detect_anomalies-AllFrom content source target =
    if_either (AllFrom source) (ltb 10000 (length content)) (refl, tt) tt

pub behavior_threats-AllFrom :
    (F : FloatOps) (score : F.Carrier) (source target : String)
    → AllFrom source (behavior_threats F score source target)
unfolding behavior_threats
behavior_threats-AllFrom F score source target =
    if_either (AllFrom source) (F.less (ratio F 8 10) score) (refl, tt) tt

module _ {F : FloatOps} where
  pub detect_threats-AllFrom :
      (content : List ℕ) (source target : String) (sm : SecurityManager F)
      → AllFrom source (detect_threats F content source target sm).1
  unfolding detect_threats detect_by_behavior
  detect_threats-AllFrom content source target sm =
      let known : AllFrom source (
          if sm.config.signature_detection
          then detect_by_signature content source target sm.signatures
          else []) =
        if_either (AllFrom source) sm.config.signature_detection
          (detect_by_signature-AllFrom content source target sm.signatures) tt in
      let behaved : AllFrom source
          (if sm.config.behavior_analysis
            then detect_by_behavior F content source target sm.profiles
            else (sm.profiles, [])).1 =
        if_either (λ (r : Dict String (BehaviorProfile F) × List ThreatEvent). AllFrom source r.1)
          sm.config.behavior_analysis {x = detect_by_behavior F content source target sm.profiles}
          {y = (sm.profiles, [])} (behavior_threats-AllFrom F _ source target) tt in
      let large : AllFrom source (
          if sm.config.anomaly_detection_enabled
          then detect_anomalies content source target
          else []) =
        if_either (AllFrom source) sm.config.anomaly_detection_enabled
          (detect_anomalies-AllFrom content source target) tt in
      AllFrom-append source _ _ (AllFrom-append source _ _ known behaved) large
