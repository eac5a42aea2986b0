-- ===== src/SecurityManager/Blocking.antt =====
-- core/security/security_manager_enhanced.go: CheckData and the checks of connections after it.
use muxcore.Common.{ℕ, ◌+◌, String, ◌≡◌, Bool, true, false, ◌||◌, Option, none, some}
use muxcore.Common.Keys.{number_key}
use muxcore.Common.Floats.{FloatOps}
use muxcore.SecurityManager.{SecurityConfig, SecurityManager, Responses}
use muxcore.SecurityManager.Answers.{HeldUntil}

module _ {F : FloatOps} where
  -- What the loop of CheckData leaves, where b tells that the source was held before.
  abbrev After : String → ℕ → SecurityConfig → Bool → Responses F → Type 0
  After source t0 config b none = Unit
  After source t0 config b (some (sm, blocked, rs)) =
      ((b || blocked) ≡ true → HeldUntil source t0 sm.engine) × (sm.config ≡ config)

  -- The state between two threats.
  record Before (source : String) (now duration : ℕ) (config : SecurityConfig) (b : Bool)
      (sm : SecurityManager F) : Type 0 where
    held : b ≡ true → HeldUntil source (now + duration) sm.engine
    lasts : sm.engine.block_duration ≡ duration
    same : sm.config ≡ config

  abbrev Ready : String → ℕ → ℕ → SecurityConfig → Bool → Option (SecurityManager F) → Type 0
  Ready source now duration config b none = Unit
  Ready source now duration config b (some sm) = Before source now duration config b sm

  -- What CheckData leaves when it says no.
  abbrev Final : String → ℕ → SecurityConfig → Responses F → Type 0
  Final source t0 config none = Unit
  Final source t0 config (some (sm, ok, rs)) =
      ok ≡ false → HeldUntil source t0 sm.engine × (sm.config ≡ config)
