-- ===== src/PolicyEngine.antt =====
-- core/governance/policy_engine.go: policies by their id, and the listeners of their types. A map of
-- contents is a value of the type C, which json.Marshal, a parameter, turns into text or refuses; none
-- is a nil map. A notification holds the policy as it is when the goroutine that delivers it starts.
pub mod Listeners
pub mod Versions
mod Tests
use muxcore.Common.{
  ℕ, ◌+◌, String, Bool, true, false, not, ◌||◌, Option, none, some, List, [], ◌∷◌, ◌++◌, map,
  if◌then◌else◌,
}
use muxcore.Common.Dict.{Dict, lookup, insert, delete}
use muxcore.Common.Keys.{string_key, number_key}

pub record Policy (C : Type 0) : Type 0 where
  pub id : String
  pub type : String
  pub name : String
  pub description : String
  pub content : Option C
  pub version : ℕ
  pub active : Bool
  pub created_at : ℕ
  pub updated_at : ℕ

pub record PolicyEngine (C : Type 0) : Type 0 where
  pub policies : Dict String (Policy C)
  pub listeners : Dict String (List ℕ)
  pub enabled : Bool
  -- What OnPolicyChanged has been called with.
  pub notified : List (ℕ × Policy C)

pub data PolicyError : Type 0 where
  empty_id empty_type nil_content : PolicyError

pub new_policy_engine : {C : Type 0} → PolicyEngine C
new_policy_engine = record { policies = []; listeners = []; enabled = true; notified = [] }

pub is_nil_content {ℓ} : {C : Type ℓ} → Option C → Bool
is_nil_content none = true
is_nil_content (some c) = false

pub validate_policy : {C : Type 0} → Policy C → Option PolicyError
unfolding is_nil_content
validate_policy p =
    if string_key.test p.id ""
    then some empty_id
    else if string_key.test p.type ""
    then some empty_type
    else if is_nil_content p.content
    then some nil_content
    else none

-- isContentEqual, of what json.Marshal gives.
pub is_text_equal : Option String → Option String → Bool
is_text_equal (some s) (some t) = string_key.test s t
is_text_equal (some s) none = false
is_text_equal none t = false

pub is_content_equal : {C : Type 0} → (Option C → Option String) → Option C → Option C → Bool
unfolding is_text_equal
is_content_equal marshal a b = is_text_equal (marshal a) (marshal b)

pub listeners_of {ℓ} : {A : Type ℓ} → Option (List A) → List A
listeners_of none = []
listeners_of (some l) = l

pub notify_listeners : {C : Type 0} → Policy C → PolicyEngine C → PolicyEngine C
unfolding listeners_of
notify_listeners p e = record e {
  notified = e.notified ++ map (λ (l : ℕ). (l, p)) (listeners_of (lookup p.type e.listeners));
}

-- The policy of a key is created or changed where it stands.
abbrev pub put : {C : Type 0} → String → Policy C → PolicyEngine C → PolicyEngine C
put key p e = record e { policies = insert key p e.policies }

-- The fields that AddPolicy copies into the policy that is there.
pub copy_fields : {C : Type 0} → ℕ → Policy C → Policy C → Policy C
copy_fields now p old = record old {
  type = p.type;
  name = p.name;
  description = p.description;
  content = p.content;
  version = old.version + 1;
  updated_at = now;
}

-- `a != b`
abbrev pub differ : Bool → Bool → Bool
differ true b = not b
differ false b = b

-- The update, from the policy with its fields copied.
pub update_policy :
    {C : Type 0}
    → (Option C → Option String)
    → Policy C
    → Policy C
    → PolicyEngine C
    → PolicyEngine C
unfolding is_content_equal notify_listeners
update_policy marshal p existing e =
    if differ existing.active p.active || not (is_content_equal marshal existing.content p.content)
    then (let changed = record existing { active = p.active } in
        notify_listeners changed (put p.id changed e))
    else put p.id existing e

pub create_policy : {C : Type 0} → ℕ → Policy C → PolicyEngine C → PolicyEngine C
unfolding notify_listeners
create_policy now p e =
    let new = record p { version = 1; created_at = now; updated_at = now } in
    if p.active then notify_listeners new (put p.id new e) else put p.id new e

pub put_policy :
    {C : Type 0}
    → (Option C → Option String)
    → ℕ
    → Policy C
    → Option (Policy C)
    → PolicyEngine C
    → PolicyEngine C
unfolding update_policy copy_fields create_policy
put_policy marshal now p none e = create_policy now p e
put_policy marshal now p (some old) e = update_policy marshal p (copy_fields now p old) e

-- AddPolicy.
pub add_policy :
    {C : Type 0}
    → (Option C → Option String)
    → ℕ
    → Policy C
    → PolicyEngine C
    → PolicyEngine C × Option PolicyError
unfolding validate_policy put_policy
add_policy marshal now p e = elim (validate_policy p) [
  | some error ↦ (e, some error)
  | none ↦ (put_policy marshal now p (lookup p.id e.policies) e, none)
]

pub remove_found :
    {C : Type 0} → Option (Policy C) → String → PolicyEngine C → PolicyEngine C × Bool
unfolding notify_listeners
remove_found none id e = (e, false)
remove_found (some p) id e =
    let e' = notify_listeners (record p { active = false }) e in
    (record e' { policies = delete id e'.policies }, true)

-- RemovePolicy.
pub remove_policy : {C : Type 0} → String → PolicyEngine C → PolicyEngine C × Bool
unfolding remove_found
remove_policy id e = remove_found (lookup id e.policies) id e

pub get_policy : {C : Type 0} → String → PolicyEngine C → Option (Policy C)
get_policy id e = lookup id e.policies

pub policies_of : {C : Type 0} → String → Dict String (Policy C) → List (Policy C)
policies_of type [] = []
policies_of type ((k, p) ∷ m) =
    let rest = policies_of type m in if string_key.test p.type type then p ∷ rest else rest

pub get_policies_by_type : {C : Type 0} → String → PolicyEngine C → List (Policy C)
unfolding policies_of
get_policies_by_type type e = policies_of type e.policies

pub register_listener : {C : Type 0} → String → ℕ → PolicyEngine C → PolicyEngine C
unfolding listeners_of
register_listener type l e = record e {
  listeners = insert type (listeners_of (lookup type e.listeners) ++ l ∷ []) e.listeners;
}

pub enable : {C : Type 0} → PolicyEngine C → PolicyEngine C
enable e = record e { enabled = true }

pub disable : {C : Type 0} → PolicyEngine C → PolicyEngine C
disable e = record e { enabled = false }
