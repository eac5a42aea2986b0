-- ===== src/ThreatResponse/Blacklist.antt =====
-- core/security/security_manager_enhanced.go: the blacklist as what was last done to an address.
use muxcore.Common.{
  ℕ, ◌+◌, ◌*◌, ◌≤◌, String, ◌≡◌, refl, sym, ap, ◌∙◌, inl, inr, Bool, true, false, not, Option, none,
  some, List, [], ◌∷◌, arith, ltb, if◌then◌else◌, Bool-cases, if_either, if_cases,
}
use muxcore.Common.Dict.{Dict, lookup, insert, delete, lookup-insert, lookup-delete}
use muxcore.Common.Keys.{string_key, number_key}
use muxcore.ThreatResponse.{
  ThreatSeverity, severity_low, severity_medium, severity_high, severity_critical, ResponseEngine,
  new_response_engine, block_ip_for, unblock_ip, handle_severity, respond_to_threat, check_entry,
  is_blocked, SecurityCall, threat, block, unblock, ask, security_answers,
}

-- The time until which an address is blocked, if it is: what the last call about it says.
abbrev pub Until : Type 0
Until = String → Option ℕ

abbrev pub change : String → Option ℕ → Until → Until
change ip o u j = if string_key.test ip j then o else u j

abbrev pub blocked_at : ℕ → Option ℕ → Bool
blocked_at now none = false
blocked_at now (some t) = not (ltb t now)

-- How long a threat blocks.
abbrev pub penalty : ThreatSeverity → ℕ → Option ℕ
penalty severity_critical duration = some (duration * 2)
penalty severity_high duration = some duration
penalty severity_medium duration = none
penalty severity_low duration = none

abbrev pub punish : Option ℕ → String → ℕ → Until → Until
punish none source now u = u
punish (some d) source now u = change source (some (now + d)) u

-- IsBlocked changes nothing, and nothing is forgotten.
abbrev pub expected : Bool → ℕ → List (ℕ × SecurityCall) → Until → List Bool
expected auto duration [] u = []
expected auto duration ((now, threat severity source) ∷ calls) u =
    expected auto duration calls
      (if auto then punish (penalty severity duration) source now u else u)
expected auto duration ((now, block ip d) ∷ calls) u =
    expected auto duration calls (change ip (some (now + d)) u)
expected auto duration ((now, unblock ip) ∷ calls) u =
    expected auto duration calls (change ip none u)
expected auto duration ((now, ask ip) ∷ calls) u =
    blocked_at now (u ip) ∷ expected auto duration calls u

-- The times of the calls do not fall.
abbrev pub InTime : ℕ → List (ℕ × SecurityCall) → Type 0
InTime a [] = Unit
InTime a ((t, c) ∷ calls) = (a ≤ t) × InTime t calls

-- From now on the blacklist and the abstract view block the same addresses.
abbrev Agrees : ℕ → Dict String ℕ → Until → Type 0
Agrees now m u = (n : ℕ) (ip : String) → now ≤ n → blocked_at n (lookup ip m) ≡ blocked_at n (u ip)

Agrees-later :
    (now later : ℕ) (m : Dict String ℕ) (u : Until)
    → now ≤ later
    → Agrees now m u
    → Agrees later m u
Agrees-later now later m u h v n ip k = v n ip (omega arith)

change-Agrees :
    (now t : ℕ) (ip : String) (m : Dict String ℕ) (u : Until)
    → Agrees now m u
    → Agrees now (insert ip t m) (change ip (some t) u)
change-Agrees now t ip m u v n j h =
    ap (blocked_at n) (lookup-insert ip j t m) ∙ agree (string_key.test ip j)
  where
    agree :
        (b : Bool)
        → blocked_at n (if b then some t else lookup j m) ≡ blocked_at n (if b then some t else u j)
    agree true = refl
    agree false = v n j h

unblock-Agrees :
    (now : ℕ) (ip : String) (m : Dict String ℕ) (u : Until)
    → Agrees now m u
    → Agrees now (delete ip m) (change ip none u)
unblock-Agrees now ip m u v n j h =
    ap (blocked_at n) (lookup-delete ip j m) ∙ agree (string_key.test ip j)
  where
    agree :
        (b : Bool)
        → blocked_at n (if b then none else lookup j m) ≡ blocked_at n (if b then none else u j)
    agree true = refl
    agree false = v n j h

-- An entry that has run out can go.
expire-Agrees :
    (now t : ℕ) (ip : String) (m : Dict String ℕ) (u : Until)
    → lookup ip m ≡ some t
    → ltb t now ≡ true
    → Agrees now m u
    → Agrees now (delete ip m) u
expire-Agrees now t ip m u there old v n j h =
    ap (blocked_at n) (lookup-delete ip j m)
    ∙ if_cases (λ (o : Option ℕ). blocked_at n o ≡ blocked_at n (u j)) (string_key.test ip j)
        (λ here.
          let same = (string_key.test_iff ip j).0 here in
          let gone : blocked_at n (some t) ≡ false = ground arith in
          sym gone
          ∙ sym (ap (blocked_at n) there)
          ∙ ap (λ (k : String). blocked_at n (lookup k m)) same
          ∙ v n j h)
        (λ _. v n j h)

check_entry-Agrees :
    (o : Option ℕ) (ip : String) (now : ℕ) (re : ResponseEngine) (u : Until)
    → lookup ip re.blacklist ≡ o
    → Agrees now re.blacklist u
    → ((check_entry o ip now re).1 ≡ blocked_at now o)
      × Agrees now (check_entry o ip now re).0.blacklist u
unfolding check_entry
check_entry-Agrees none ip now re u there v = (refl, v)
check_entry-Agrees (some t) ip now re u there v = elim (Bool-cases (ltb t now)) [
  | inl old ↦ rw (old) (refl, expire-Agrees now t ip re.blacklist u there old v)
  | inr new ↦ rw (new) (refl, v)
]

check_entry-config :
    (o : Option ℕ) (ip : String) (now : ℕ) (re : ResponseEngine)
    → (check_entry o ip now re).0 ≡ record re { blacklist = (check_entry o ip now re).0.blacklist }
unfolding check_entry
check_entry-config none ip now re = refl
check_entry-config (some t) ip now re =
    if_either (λ (r : ResponseEngine × Bool). r.0 ≡ record re { blacklist = r.0.blacklist })
      (ltb t now) refl refl

abbrev engine : Bool → ℕ → Dict String ℕ → ResponseEngine
engine auto duration m = record {
  auto_response_enabled = auto;
  block_duration = duration;
  blacklist = m;
}

security_answers-expected :
    (before : ℕ) (calls : List (ℕ × SecurityCall)) (auto : Bool) (duration : ℕ) (m : Dict String ℕ)
    (u : Until)
    → InTime before calls
    → Agrees before m u
    → security_answers calls (engine auto duration m) ≡ expected auto duration calls u
unfolding security_answers respond_to_threat handle_severity block_ip_for unblock_ip is_blocked
security_answers-expected before [] auto duration m u c v = refl
security_answers-expected before ((now, threat severity source) ∷ calls) false duration m u (h, c)
      v =
    security_answers-expected now calls false duration m u c (Agrees-later before now m u h v)
security_answers-expected before ((now, threat severity_critical source) ∷ calls) true duration m u
      (h, c) v =
    security_answers-expected now calls true duration _ _ c
      (change-Agrees now (now + duration * 2) source m u (Agrees-later before now m u h v))
security_answers-expected before ((now, threat severity_high source) ∷ calls) true duration m u
      (h, c) v =
    security_answers-expected now calls true duration _ _ c
      (change-Agrees now (now + duration) source m u (Agrees-later before now m u h v))
security_answers-expected before ((now, threat severity_medium source) ∷ calls) true duration m u
      (h, c) v =
    security_answers-expected now calls true duration m u c (Agrees-later before now m u h v)
security_answers-expected before ((now, threat severity_low source) ∷ calls) true duration m u
      (h, c) v =
    security_answers-expected now calls true duration m u c (Agrees-later before now m u h v)
security_answers-expected before ((now, block ip d) ∷ calls) auto duration m u (h, c) v =
    security_answers-expected now calls auto duration _ _ c
      (change-Agrees now (now + d) ip m u (Agrees-later before now m u h v))
security_answers-expected before ((now, unblock ip) ∷ calls) auto duration m u (h, c) v =
    security_answers-expected now calls auto duration _ _ c
      (unblock-Agrees now ip m u (Agrees-later before now m u h v))
security_answers-expected before ((now, ask ip) ∷ calls) auto duration m u (h, c) v =
    let re = engine auto duration m in
    let later = Agrees-later before now m u h v in
    let checked = check_entry-Agrees (lookup ip m) ip now re u refl later in
    ap (λ (b : Bool). b ∷ security_answers calls (check_entry (lookup ip m) ip now re).0)
      (checked.0 ∙ later now ip (omega arith))
    ∙ ap (λ (l : List Bool). blocked_at now (u ip) ∷ l)
        (ap (security_answers calls) (check_entry-config (lookup ip m) ip now re)
          ∙ security_answers-expected now calls auto duration _ u c checked.1)

-- if the clock does not go back, then over any calls of RespondToThreat, BlockIP, UnblockIP and IsBlocked on a new
-- engine, IsBlocked answers whether the last call that blocked or unblocked the address blocked it until this time or later:
-- that IsBlocked deletes entries that have run out is never seen.
pub security_answers_lem :
    (auto : Bool) (duration : ℕ) (calls : List (ℕ × SecurityCall))
    → InTime 0 calls
    → security_answers calls (new_response_engine auto duration)
      ≡ expected auto duration calls (λ ip. none)
unfolding new_response_engine lookup
security_answers_lem auto duration calls c =
    security_answers-expected 0 calls auto duration [] (λ ip. none) c (λ n ip h. refl)
