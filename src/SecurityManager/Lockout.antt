-- ===== src/SecurityManager/Lockout.antt =====
-- core/security/security_manager_enhanced.go: an address over its limit, over calls of CheckConnection and CheckData.
use muxcore.Common.{
  ℕ, String, ◌≡◌, refl, ap, ◌∙◌, Bool, false, not, ◌||◌, Option, none, some, List, [], ◌∷◌, ltb,
  length, if_either, if_cases,
}
use muxcore.Common.Keys.{string_key, number_key}
use muxcore.Common.Floats.{FloatOps}
use muxcore.SecurityManager.{
  SecurityManager, ThreatEvent, publish_threat_event, Checked, check_connection, detect_threats,
  Responses, respond_published, note_response, with_response, and_respond, respond_all,
  finish_check, check_data,
}
use muxcore.SecurityManager.Limits.{Limited, Crowded, Refused, check_connection-Refused}

-- CheckConnection for the address, from a port, or CheckData of any source.
pub data CheckCall : Type 0 where
  attempt_call : ℕ → String → String → String → ℕ → CheckCall
  data_call : List ℕ → String → String → ℕ → CheckCall

-- A refusal for each attempt.
abbrev pub refusals : List CheckCall → List Bool
refusals [] = []
refusals (attempt_call port user_agent protocol target now ∷ l) = false ∷ refusals l
refusals (data_call content source target now ∷ l) = refusals l

module _ {F : FloatOps} where
  -- The limits are still checked, and the address is still over its limit.
  abbrev Still : String → SecurityManager F → Type 0
  Still ip sm = Limited sm × Crowded ip sm

  abbrev Stays : String → Responses F → Type 0
  Stays ip none = ⊥
  Stays ip (some (sm, ok, rs)) = Still ip sm

  abbrev Ready : String → Option (SecurityManager F) → Type 0
  Ready ip none = ⊥
  Ready ip (some sm) = Still ip sm

  publish-Ready :
      (ip : String) (threat : ThreatEvent) (sm : SecurityManager F)
      → Still ip sm
      → Ready ip (publish_threat_event F threat sm)
  unfolding publish_threat_event
  publish-Ready ip threat sm ((on, ddos, open_), crowded) =
      if_cases (Ready ip) sm.stopped (λ shut. absurd (cc))
        (λ _.
          if_either (Ready ip) (ltb (length sm.events) sm.config.event_buffer_size)
            ((on, ddos, open_), crowded) ((on, ddos, open_), crowded))

  with_response-Stays :
      (ip r : String) (o : Responses F) → Stays ip o → Stays ip (with_response F r o)
  unfolding with_response
  with_response-Stays ip r none h = h
  with_response-Stays ip r (some (sm, blocked, rs)) h = h

  and_respond-Stays :
      (ip : String) (threat : ThreatEvent) (now : ℕ) (o : Option (SecurityManager F))
      (next : SecurityManager F → Responses F)
      → Ready ip o
      → ((q : SecurityManager F) → Still ip q → Stays ip (next q))
      → Stays ip (and_respond F (respond_published F threat now o) next)
  unfolding and_respond respond_published note_response
  and_respond-Stays ip threat now none next h rest = absurd h
  and_respond-Stays ip threat now (some q) next h rest =
      with_response-Stays ip _ (next (note_response F _ q)) (rest (note_response F _ q) h)

  respond_all-Stays :
      (ip : String) (threats : List ThreatEvent) (now : ℕ) (sm : SecurityManager F)
      → Still ip sm
      → Stays ip (respond_all F threats now sm)
  unfolding respond_all
  respond_all-Stays ip [] now sm h = h
  respond_all-Stays ip (threat ∷ threats) now sm h =
      and_respond-Stays ip threat now (publish_threat_event F threat sm) (respond_all F threats now)
        (publish-Ready ip threat sm h) (λ q k. respond_all-Stays ip threats now q k)

  finish_check-Stays : (ip : String) (o : Responses F) → Stays ip o → Stays ip (finish_check F o)
  unfolding finish_check
  finish_check-Stays ip none h = h
  finish_check-Stays ip (some (sm, blocked, [])) h = h
  finish_check-Stays ip (some (sm, blocked, r ∷ rs)) h = h

  check_data-Stays :
      (ip : String) (content : List ℕ) (source target : String) (now : ℕ) (sm : SecurityManager F)
      → Still ip sm
      → Stays ip (check_data F content source target now sm)
  unfolding check_data detect_threats
  check_data-Stays ip content source target now sm h =
      if_either (Stays ip) (not sm.config.enabled || not sm.config.threat_detection_enabled) h (
        finish_check-Stays ip _ (
          respond_all-Stays ip (detect_threats F content source target sm).1 now
            (detect_threats F content source target sm).0 h))

  abbrev then_attempt : Checked F → (SecurityManager F → List Bool) → List Bool
  then_attempt none rest = []
  then_attempt (some (sm, ok, reason)) rest = ok ∷ rest sm

  abbrev then_data : Responses F → (SecurityManager F → List Bool) → List Bool
  then_data none rest = []
  then_data (some (sm, ok, rs)) rest = rest sm

  -- What CheckConnection answers to the attempts of the address; a panic ends the list.
  abbrev pub attempts : String → List CheckCall → SecurityManager F → List Bool
  attempts ip [] sm = []
  attempts ip (attempt_call port user_agent protocol target now ∷ l) sm =
      then_attempt (check_connection F (some (ip, port)) user_agent protocol target now sm)
        (attempts ip l)
  attempts ip (data_call content source target now ∷ l) sm =
      then_data (check_data F content source target now sm) (attempts ip l)

  then_attempt-refusals :
      (ip : String) (l : List CheckCall) (o : Checked F)
      → Refused ip o
      → ((sm : SecurityManager F) → Still ip sm → attempts ip l sm ≡ refusals l)
      → then_attempt o (attempts ip l) ≡ false ∷ refusals l
  then_attempt-refusals ip l none h rest = absurd h
  then_attempt-refusals ip l (some (sm, ok, reason)) (refused, still, more) rest =
      ap (λ (b : Bool). b ∷ attempts ip l sm) refused
      ∙ ap (λ (bs : List Bool). false ∷ bs) (rest sm (still, more))

  then_data-refusals :
      (ip : String) (l : List CheckCall) (o : Responses F)
      → Stays ip o
      → ((sm : SecurityManager F) → Still ip sm → attempts ip l sm ≡ refusals l)
      → then_data o (attempts ip l) ≡ refusals l
  then_data-refusals ip l none h rest = absurd h
  then_data-refusals ip l (some (sm, ok, rs)) h rest = rest sm h

  -- If security and the limit by address are enabled, Stop has not been called, and more connections of an address
  -- are tracked than it may have, then over any sequence of calls of CheckConnection for that address and
  -- of CheckData, whatever their arguments and their times, CheckConnection refuses every attempt, and none of the
  -- calls panics.
  pub locked_out :
      (ip : String) (l : List CheckCall) (sm : SecurityManager F)
      → Limited sm
      → Crowded ip sm
      → attempts ip l sm ≡ refusals l
  locked_out ip [] sm limited crowded = refl
  locked_out ip (attempt_call port user_agent protocol target now ∷ l) sm limited crowded =
      then_attempt-refusals ip l
        (check_connection F (some (ip, port)) user_agent protocol target now sm)
        (check_connection-Refused ip port user_agent protocol target now sm limited crowded)
        (λ q h. locked_out ip l q h.0 h.1)
  locked_out ip (data_call content source target now ∷ l) sm limited crowded =
      then_data-refusals ip l (check_data F content source target now sm)
        (check_data-Stays ip content source target now sm (limited, crowded))
        (λ q h. locked_out ip l q h.0 h.1)
