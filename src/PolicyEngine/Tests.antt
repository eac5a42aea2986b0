-- ===== src/PolicyEngine/Tests.antt =====
-- Runs of the policy engine.
use muxcore.Common.{ℕ, String, ◌≡◌, refl, Bool, true, false, Option, none, some, [], ◌∷◌, ◌++◌}
use muxcore.Common.Dict.{lookup, insert}
use muxcore.Common.Keys.{string_key, number_key}
use muxcore.PolicyEngine.{
  Policy, PolicyEngine, new_policy_engine, validate_policy, add_policy, register_listener,
}
use muxcore.PolicyEngine.Versions.{last_update, add_policies, Stored}

-- Contents are numbers, all of which are written out alike here.
abbrev marshal : Option ℕ → Option String
marshal none = some "null"
marshal (some n) = some "{}"

abbrev limit : ℕ → Bool → Policy ℕ
limit n active = record {
  id = "p1";
  type = "security";
  name = "limit";
  description = "";
  content = some n;
  version = 0;
  active = active;
  created_at = 0;
  updated_at = 0;
}

limit-valid : (n : ℕ) (active : Bool) → validate_policy (limit n active) ≡ none
unfolding validate_policy
limit-valid n active = refl

-- One listener, and a policy that has been added.
abbrev watched : PolicyEngine ℕ
watched = (add_policy marshal 5 (limit 1 true) (register_listener "security" 9 new_policy_engine)).0

abbrev first : Policy ℕ
first = record (limit 1 true) { version = 1; created_at = 5; updated_at = 5 }

watched_first : lookup "p1" watched.policies ≡ some first
unfolding add_policy new_policy_engine register_listener lookup insert
watched_first = refl

watched_heard : watched.notified ≡ (9, first) ∷ []
unfolding add_policy new_policy_engine register_listener lookup insert
watched_heard = refl

last_update_example : Stored marshal (limit 3 false) 3 (
    add_policies marshal
      (((1, limit 1 true) ∷ (2, limit 2 true) ∷ []) ++ (3, limit 3 false) ∷ [])
      new_policy_engine)
last_update_example =
    last_update marshal ((1, limit 1 true) ∷ (2, limit 2 true) ∷ []) 3 (limit 3 false)
      new_policy_engine ((refl, limit-valid 1 true), ((refl, limit-valid 2 true), tt))
      (limit-valid 3 false) (unfold lookup new_policy_engine in refl)
