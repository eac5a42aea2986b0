-- ===== src/SecurityManager/Answers.antt =====
-- core/security/security_manager_enhanced.go: what RespondToThreat leaves of the blacklist.
use muxcore.Common.{
  ℕ, ◌+◌, ◌*◌, ◌≤◌, String, ◌≡◌, refl, Bool, true, false, not, ◌||◌, some, arith, ltb, if_either,
}
use muxcore.Common.Dict.{lookup, lookup-insert}
use muxcore.Common.Keys.{string_key, number_key}
use muxcore.ThreatResponse.{
  ThreatSeverity, severity_low, severity_medium, severity_high, severity_critical, ResponseEngine,
  respond_to_threat, handle_severity, block_ip_for, is_blocked, check_entry,
}

-- A source is blocked until t0 at least.
abbrev pub HeldUntil : String → ℕ → ResponseEngine → Type 0
HeldUntil source t0 re = (t : ℕ) × (lookup source re.blacklist ≡ some t) × (t0 ≤ t)

-- What an answer to a threat of the source leaves, where b tells that the source was held before.
abbrev pub Answered : String → ℕ → ℕ → Bool → ResponseEngine × String → Type 0
Answered source t0 duration b (re, r) =
    ((b || string_key.test r "blocked") ≡ true → HeldUntil source t0 re)
    × (re.block_duration ≡ duration)

block-Answered :
    (source r : String) (now duration longer : ℕ) (b : Bool) (re : ResponseEngine)
    → duration ≤ longer
    → re.block_duration ≡ duration
    → Answered source (now + duration) duration b (block_ip_for source longer now re, r)
unfolding block_ip_for
block-Answered source r now duration longer b re h same = (
  λ _. (
    now + longer,
    rw
        (
          lookup-insert source source (now + longer) re.blacklist,
          (string_key.test_iff source source).1 refl,
        )
        refl,
    omega (arith, h),
  ),
  same,
)

-- An answer that is not "blocked" changes nothing.
spare-Answered :
    (source r : String) (t0 duration : ℕ) (b : Bool) (re : ResponseEngine)
    → string_key.test r "blocked" ≡ false
    → (b ≡ true → HeldUntil source t0 re)
    → re.block_duration ≡ duration
    → Answered source t0 duration b (re, r)
spare-Answered source r t0 duration b re other held same =
    (λ e. held (spared b (string_key.test r "blocked") other e), same)
  where
    spared : (x y : Bool) → y ≡ false → (x || y) ≡ true → x ≡ true
    spared true y off e = refl
    spared false y off e = absurd (cc)

pub respond_to_threat-Answered :
    (severity : ThreatSeverity) (source : String) (now duration : ℕ) (b : Bool)
    (re : ResponseEngine)
    → (b ≡ true → HeldUntil source (now + duration) re)
    → re.block_duration ≡ duration
    → Answered source (now + duration) duration b (respond_to_threat severity source now re)
unfolding respond_to_threat handle_severity
respond_to_threat-Answered severity source now duration b re held same =
    if_either (Answered source (now + duration) duration b) (not re.auto_response_enabled)
      (spare-Answered source "no_action" (now + duration) duration b re refl held same)
      (handled severity)
  where
    handled :
        (s : ThreatSeverity)
        → Answered source (now + duration) duration b (handle_severity s source now re)
    handled severity_critical =
        block-Answered source "blocked" now duration (re.block_duration * 2) b re
          (omega (arith, same)) same
    handled severity_high =
        block-Answered source "blocked" now duration re.block_duration b re (omega (arith, same))
          same
    handled severity_medium =
        spare-Answered source "rate_limited" (now + duration) duration b re refl held same
    handled severity_low =
        spare-Answered source "logged" (now + duration) duration b re refl held same

pub is_blocked-HeldUntil :
    (source : String) (t0 now : ℕ) (re : ResponseEngine)
    → HeldUntil source t0 re
    → now ≤ t0
    → is_blocked source now re ≡ (re, true)
unfolding is_blocked check_entry
is_blocked-HeldUntil source t0 now re (t, found, later) h =
    let not_yet : ltb t now ≡ false = ground arith in rw (found, not_yet) refl
