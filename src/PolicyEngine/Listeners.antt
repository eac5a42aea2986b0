-- ===== src/PolicyEngine/Listeners.antt =====
-- core/governance/policy_engine.go: which listeners hear of a change.
use muxcore.Common.{
  ℕ, String, ◌≡◌, refl, sym, ap, subst, ◌∙◌, ◌≢◌, Bool, true, false, not, ◌||◌, Option, none, some,
  List, ◌++◌, map, if◌then◌else◌, if_cases,
}
use muxcore.Common.Dict.{lookup, insert, lookup-delete}
use muxcore.Common.Keys.{string_key, number_key, same_refl}
use muxcore.PolicyEngine.{
  Policy, PolicyEngine, PolicyError, validate_policy, is_text_equal, is_content_equal, listeners_of,
  notify_listeners, copy_fields, differ, update_policy, put_policy, add_policy, remove_found,
  remove_policy,
}
use muxcore.PolicyEngine.Versions.{add_policy_valid}

-- What the listeners of a policy's type hear.
pub heard : {C : Type 0} → Policy C → PolicyEngine C → List (ℕ × Policy C)
unfolding listeners_of
heard p e = map (λ (l : ℕ). (l, p)) (listeners_of (lookup p.type e.listeners))

equal : (b : Bool) → (differ b b || false) ≡ false
equal true = refl
equal false = refl

no_change :
    (a b : Bool) (x : Option String) {t : String}
    → a ≡ b
    → x ≡ some t
    → (differ a b || not (is_text_equal x x)) ≡ false
unfolding is_text_equal
no_change a b x {t} same h = rw (same, h, same_refl t) (equal b)

some_change : (a b other : Bool) → a ≢ b → (differ a b || other) ≡ true
some_change true true other h = absurd (h refl)
some_change true false other h = refl
some_change false true other h = refl
some_change false false other h = absurd (h refl)

module _ {C : Type 0} (marshal : Option C → Option String) (now : ℕ) (p old : Policy C)
    (e : PolicyEngine C) where
  update_valid :
      validate_policy p ≡ none
      → lookup p.id e.policies ≡ some old
      → (add_policy marshal now p e).0 ≡ update_policy marshal p (copy_fields now p old) e
  unfolding put_policy
  update_valid valid found =
      ap (λ (r : PolicyEngine C × Option PolicyError). r.0) (add_policy_valid marshal now p e valid)
      ∙ ap (λ (o : Option (Policy C)). put_policy marshal now p o e) found

  -- An update of a policy whose Active stays as it is stores the new content, but no listener hears of it,
  -- whatever the old content was, if json.Marshal takes the new content: AddPolicy compares the new content with itself.
  pub silent_update :
      {text : String}
      → validate_policy p ≡ none
      → lookup p.id e.policies ≡ some old
      → old.active ≡ p.active
      → marshal p.content ≡ some text
      → ((add_policy marshal now p e).0.notified ≡ e.notified)
        × ((add_policy marshal now p e).0.policies ≡ insert p.id (copy_fields now p old) e.policies)
  unfolding update_policy is_content_equal is_text_equal copy_fields
  silent_update {text} valid found same fits =
      subst
        (λ (r : PolicyEngine C).
          (r.notified ≡ e.notified) × (r.policies ≡ insert p.id (copy_fields now p old) e.policies))
        (sym (update_valid valid found))
        (if_cases
          (λ (r : PolicyEngine C).
            (r.notified ≡ e.notified)
            × (r.policies ≡ insert p.id (copy_fields now p old) e.policies))
          (differ old.active p.active || not (is_content_equal marshal p.content p.content))
          (λ changed.
            let unchanged = no_change old.active p.active (marshal p.content) same fits in
            absurd (cc))
          (λ h. (refl, refl)))

  -- An update that changes Active is heard once by every listener of the policy's new type, in the order in
  -- which they were registered, with the new Active and content.
  pub activation_heard :
      validate_policy p ≡ none
      → lookup p.id e.policies ≡ some old
      → old.active ≢ p.active
      → (add_policy marshal now p e).0.notified
        ≡ e.notified ++ heard (record (copy_fields now p old) { active = p.active }) e
  unfolding update_policy notify_listeners copy_fields heard
  activation_heard valid found differs =
      ap (λ (r : PolicyEngine C). r.notified) (update_valid valid found)
      ∙ if_cases
          (λ (r : PolicyEngine C).
            r.notified
            ≡ e.notified ++ heard (record (copy_fields now p old) { active = p.active }) e)
          (differ old.active p.active || not (is_content_equal marshal p.content p.content))
          (λ changed. refl)
          (λ h.
            let change =
              some_change old.active p.active (not (is_content_equal marshal p.content p.content))
                differs in
            absurd (cc))

-- RemovePolicy of a policy that is there answers true, the listeners of its type hear of it with Active
-- false, its id is gone and every other id has the policy that it had.
pub remove_policy_found :
    {C : Type 0} (id : String) (p : Policy C) (e : PolicyEngine C)
    → lookup id e.policies ≡ some p
    → ((remove_policy id e).1 ≡ true)
      × ((remove_policy id e).0.notified ≡ e.notified ++ heard (record p { active = false }) e)
      × ((j : String)
          → lookup j (remove_policy id e).0.policies
            ≡ (if string_key.test id j then none else lookup j e.policies))
unfolding remove_policy remove_found notify_listeners heard
remove_policy_found id p e found = rw found (refl, refl, λ j. lookup-delete id j e.policies)
