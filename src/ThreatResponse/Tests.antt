-- ===== src/ThreatResponse/Tests.antt =====
-- Runs of the response engine.
use muxcore.Common.{ℕ, ◌≡◌, refl, true, false, none, List, [], ◌∷◌, arith}
use muxcore.Common.Dict.{lookup, insert, delete}
use muxcore.Common.Keys.{string_key, number_key}
use muxcore.ThreatResponse.{
  severity_critical, severity_high, new_response_engine, SecurityCall, threat, ask,
  security_answers, respond_to_threat, handle_severity, block_ip_for, is_blocked, check_entry,
}
use muxcore.ThreatResponse.Blacklist.{expected, security_answers_lem}

-- A high threat follows a critical one, and the block ends earlier than the first was to.
abbrev asked : List (ℕ × SecurityCall)
asked =
    ((1, threat severity_critical "a")
      ∷ (2, threat severity_high "a")
      ∷ (10, ask "a")
      ∷ (15, ask "a")
      ∷ (16, ask "b")
      ∷ [])

shortened : security_answers asked (new_response_engine true 10) ≡ true ∷ false ∷ false ∷ []
unfolding security_answers respond_to_threat handle_severity block_ip_for is_blocked check_entry
    new_response_engine lookup insert delete
shortened = refl

security_answers_lem_example :
    security_answers asked (new_response_engine true 10) ≡ expected true 10 asked (λ ip. none)
security_answers_lem_example =
    security_answers_lem true 10 asked
      (omega arith, (omega arith, (omega arith, (omega arith, (omega arith, tt)))))
