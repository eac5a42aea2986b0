-- ===== src/PolicyEngine/Versions.antt =====
-- core/governance/policy_engine.go: what AddPolicy stores, over many calls.
use muxcore.Common.{
  ℕ, ◌+◌, String, ◌≡◌, refl, sym, ap, subst, ◌∙◌, not, ◌||◌, Option, none, some, List, [], ◌∷◌,
  ◌++◌, arith, length, All, if_either, if_cases,
}
use muxcore.Common.Dict.{lookup, lookup-insert}
use muxcore.Common.Keys.{string_key, number_key, same_refl}
use muxcore.PolicyEngine.{
  Policy, PolicyEngine, PolicyError, validate_policy, is_content_equal, notify_listeners, put,
  copy_fields, differ, update_policy, create_policy, put_policy, add_policy,
}

module _ {C : Type 0} (marshal : Option C → Option String) where
  pub add_policy_valid :
      (now : ℕ) (p : Policy C) (e : PolicyEngine C)
      → validate_policy p ≡ none
      → add_policy marshal now p e ≡ (put_policy marshal now p (lookup p.id e.policies) e, none)
  unfolding add_policy
  add_policy_valid now p e valid =
      ap
        (λ (r : Option PolicyError). elim r [
          | some error ↦ (e, some error)
          | none ↦ (put_policy marshal now p (lookup p.id e.policies) e, none)
        ])
        valid

  -- The version of a policy that may be there.
  pub version_of : Option (Policy C) → ℕ
  version_of none = 0
  version_of (some p) = p.version

  -- What a policy has from a call of AddPolicy.
  abbrev pub Holds : Policy C → ℕ → Policy C → Type 0
  Holds p n q =
      (q.type ≡ p.type)
      × (q.name ≡ p.name)
      × (q.description ≡ p.description)
      × (q.content ≡ p.content)
      × (q.active ≡ p.active)
      × (q.version ≡ n)

  pub Stored : Policy C → ℕ → PolicyEngine C → Type 0
  Stored p n e = (q : Policy C) × (lookup p.id e.policies ≡ some q) × Holds p n q

  version_of-none : version_of none ≡ 0
  unfolding version_of
  version_of-none = refl

  put-Stored :
      (p q : Policy C) (n : ℕ) (e : PolicyEngine C) → Holds p n q → Stored p n (put p.id q e)
  unfolding Stored
  put-Stored p q n e h =
      (q, ground (arith, lookup-insert p.id p.id q e.policies, same_refl p.id), h)

  update_policy-Stored :
      (p existing : Policy C) (n : ℕ) (e : PolicyEngine C)
      → (existing.type ≡ p.type)
      → (existing.name ≡ p.name)
      → (existing.description ≡ p.description)
      → (existing.content ≡ p.content)
      → (existing.version ≡ n)
      → Stored p n (update_policy marshal p existing e)
  unfolding update_policy notify_listeners Stored
  update_policy-Stored p existing n e t m d c v =
      if_cases (Stored p n)
        (differ existing.active p.active
          || not (is_content_equal marshal existing.content p.content))
        (λ changed. put-Stored p (record existing { active = p.active }) n e (t, m, d, c, refl, v))
        (λ same. put-Stored p existing n e (t, m, d, c, ground arith, v))

  put_policy-Stored :
      (now : ℕ) (p : Policy C) (old : Option (Policy C)) (e : PolicyEngine C)
      → Stored p (version_of old + 1) (put_policy marshal now p old e)
  unfolding put_policy create_policy notify_listeners copy_fields version_of Stored
  put_policy-Stored now p none e =
      let new = record p { version = 1; created_at = now; updated_at = now } in
      if_either (Stored p 1) p.active (put-Stored p new 1 e (refl, refl, refl, refl, refl, refl))
        (put-Stored p new 1 e (refl, refl, refl, refl, refl, refl))
  put_policy-Stored now p (some old) e =
      update_policy-Stored p (copy_fields now p old) (old.version + 1) e refl refl refl refl refl

  pub add_policy-Stored :
      (now : ℕ) (p : Policy C) (e : PolicyEngine C)
      → validate_policy p ≡ none
      → Stored p (version_of (lookup p.id e.policies) + 1) (add_policy marshal now p e).0
  add_policy-Stored now p e valid =
      subst
        (λ (r : PolicyEngine C × Option PolicyError).
          Stored p (version_of (lookup p.id e.policies) + 1) r.0)
        (sym (add_policy_valid now p e valid)) (put_policy-Stored now p (lookup p.id e.policies) e)

  -- Several calls of AddPolicy, each with its reading of the clock.
  pub add_policies : List (ℕ × Policy C) → PolicyEngine C → PolicyEngine C
  unfolding add_policy
  add_policies [] e = e
  add_policies ((now, p) ∷ l) e = add_policies l (add_policy marshal now p e).0

  abbrev pub IsUpdate : String → ℕ × Policy C → Type 0
  IsUpdate id (now, p) = (p.id ≡ id) × (validate_policy p ≡ none)

  add_policy-version :
      (now : ℕ) (p : Policy C) (id : String) (e : PolicyEngine C)
      → p.id ≡ id
      → validate_policy p ≡ none
      → version_of (lookup id (add_policy marshal now p e).0.policies)
        ≡ version_of (lookup id e.policies) + 1
  unfolding version_of Stored
  add_policy-version now p id e same valid =
      let (q, found, h) = add_policy-Stored now p e valid in
      subst
        (λ (k : String).
          version_of (lookup k (add_policy marshal now p e).0.policies)
          ≡ version_of (lookup k e.policies) + 1)
        same (ap version_of found ∙ h.5)

  add_policies-version :
      (id : String) (l : List (ℕ × Policy C)) (e : PolicyEngine C)
      → All (IsUpdate id) l
      → version_of (lookup id (add_policies l e).policies)
        ≡ version_of (lookup id e.policies) + length l
  unfolding add_policies
  add_policies-version id [] e h = omega arith
  add_policies-version id ((now, p) ∷ l) e ((same, valid), h) = omega (
    arith,
    add_policies-version id l (add_policy marshal now p e).0 h,
    add_policy-version now p id e same valid,
  )

  add_policies-append :
      (l : List (ℕ × Policy C)) (now : ℕ) (p : Policy C) (e : PolicyEngine C)
      → add_policies (l ++ (now, p) ∷ []) e ≡ (add_policy marshal now p (add_policies l e)).0
  unfolding add_policies
  add_policies-append [] now p e = refl
  add_policies-append ((before, q) ∷ l) now p e =
      add_policies-append l now p (add_policy marshal before q e).0

  -- After any number of valid calls for one id that was not there, and one more, the policy of the id has the
  -- fields of the last call, its Active included, and its version is the number of the calls.
  pub last_update :
      (l : List (ℕ × Policy C)) (now : ℕ) (p : Policy C) (e : PolicyEngine C)
      → All (IsUpdate p.id) l
      → validate_policy p ≡ none
      → lookup p.id e.policies ≡ none
      → Stored p (length l + 1) (add_policies (l ++ (now, p) ∷ []) e)
  last_update l now p e h valid absent =
      let before = add_policies l e in
      let count : version_of (lookup p.id before.policies) ≡ length l =
        omega (arith, add_policies-version p.id l e h, ap version_of absent, version_of-none) in
      subst (Stored p (length l + 1)) (sym (add_policies-append l now p e)) (
        subst (λ (n : ℕ). Stored p (n + 1) (add_policy marshal now p before).0) count
          (add_policy-Stored now p before valid))
