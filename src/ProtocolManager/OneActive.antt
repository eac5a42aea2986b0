-- ===== src/ProtocolManager/OneActive.antt =====
-- core/governance/protocol_manager.go: the versions of a protocol that are active.
use muxcore.Common.{
  ℕ, String, ◌≡◌, refl, sym, ap, subst, ◌∙◌, ◌⊎◌, inl, inr, Bool, true, false, not, ◌&&◌, ◌||◌,
  Option, none, some, List, [], ◌∷◌, Bool-cases, if_either, if_cases,
}
use muxcore.Common.Dict.{Dict, lookup, insert, lookup-insert}
use muxcore.Common.Keys.{string_key, number_key}
use muxcore.Common.Int.{ℤ, pos, ltb_ℤ}
use muxcore.ProtocolManager.{
  ProtocolStatus, status_inactive, status_testing, status_deprecating, Protocol, ProtocolManager,
  ManagerError, is_active, versions_of, put_protocol, upload_protocol, load_wasm_protocol,
  find_version, in_versions, write_version, set_status, start_protocol_testing, deprecate_protocol,
  demote, demote_others, is_full, set_traffic, traffic_found, update_protocol_traffic, set_enabled,
  is_testing, Call, upload, load_wasm, start_testing, update_traffic, deprecate, enable, step,
  run_calls, get_protocol,
}

abbrev pub active_at : Option Protocol → Bool
active_at none = false
active_at (some p) = is_active p.status

-- At most one version is active.
abbrev pub One : Dict String Protocol → Type 0
One vs = (v w : String) → active_at (lookup v vs) ≡ true → active_at (lookup w vs) ≡ true → v ≡ w

-- The same for every protocol.
abbrev pub OneEach : ProtocolManager → Type 0
OneEach m = (id : String) → One (versions_of (lookup id m.protocols))

fewer-One :
    (vs vs' : Dict String Protocol)
    → ((v : String) → active_at (lookup v vs') ≡ true → active_at (lookup v vs) ≡ true)
    → One vs
    → One vs'
fewer-One vs vs' fewer one v w p q = one v w (fewer v p) (fewer w q)

inactive-One :
    (version : String) (p : Protocol) (vs : Dict String Protocol)
    → is_active p.status ≡ false
    → One vs
    → One (insert version p vs)
inactive-One version p vs off = fewer-One vs (insert version p vs) (λ v h.
    if_cases (λ (o : Option Protocol). active_at o ≡ true → active_at (lookup v vs) ≡ true)
      (string_key.test version v) (λ _ on. absurd (cc)) (λ _ on. on)
      (subst (λ (o : Option Protocol). active_at o ≡ true) (lookup-insert version v p vs) h))

same-One :
    (version : String) (p q : Protocol) (vs : Dict String Protocol)
    → lookup version vs ≡ some q
    → is_active p.status ≡ is_active q.status
    → One vs
    → One (insert version p vs)
same-One version p q vs found same = fewer-One vs (insert version p vs) (λ v h.
    if_cases (λ (o : Option Protocol). active_at o ≡ true → active_at (lookup v vs) ≡ true)
      (string_key.test version v)
      (λ here on.
        ap (λ (k : String). active_at (lookup k vs)) (sym ((string_key.test_iff version v).0 here))
        ∙ ap active_at found
        ∙ sym same
        ∙ on)
      (λ _ on. on)
      (subst (λ (o : Option Protocol). active_at o ≡ true) (lookup-insert version v p vs) h))

demote-off :
    (version v : String) (p : Protocol)
    → string_key.test v version ≡ false
    → is_active (demote version v p).status ≡ false
unfolding demote is_active
demote-off version v p other = elim (Bool-cases (is_active p.status)) [
  | inl on ↦ rw (other, on) refl
  | inr off ↦ rw (other, off) off
]

-- After the loop no other version is active.
pub demote_others-off :
    (version v : String) (vs : Dict String Protocol)
    → string_key.test v version ≡ false
    → active_at (lookup v (demote_others version vs)) ≡ false
unfolding demote_others lookup
demote_others-off version v [] other = refl
demote_others-off version v ((k, p) ∷ vs) other =
    if_cases (λ (o : Option Protocol). active_at o ≡ false) (string_key.test k v)
      (λ here.
        let e = (string_key.test_iff k v).0 here in
        demote-off version k p (ap (λ (x : String). string_key.test x version) e ∙ other))
      (λ _. demote_others-off version v vs other)

demote_others-One : (version : String) (vs : Dict String Protocol) → One (demote_others version vs)
demote_others-One version vs v w p q = only v p ∙ sym (only w q)
  where
    only : (x : String) → active_at (lookup x (demote_others version vs)) ≡ true → x ≡ version
    only x on = elim (Bool-cases (string_key.test x version)) [
      | inl here ↦ (string_key.test_iff x version).0 here
      | inr other ↦ let off = demote_others-off version x vs other in absurd (cc)
    ]

insert-OneEach :
    (id : String) (vs : Dict String Protocol) (m : Dict String (Dict String Protocol))
    → One vs
    → ((j : String) → One (versions_of (lookup j m)))
    → (j : String) → One (versions_of (lookup j (insert id vs m)))
unfolding versions_of
insert-OneEach id vs m new old j =
    subst (λ (o : Option (Dict String Protocol)). One (versions_of o))
      (sym (lookup-insert id j vs m))
      (if_either (λ (o : Option (Dict String Protocol)). One (versions_of o)) (string_key.test id j)
        new (old j))

put_protocol-OneEach :
    (p : Protocol) (m : ProtocolManager)
    → is_active p.status ≡ false
    → OneEach m
    → OneEach (put_protocol p m)
unfolding put_protocol
put_protocol-OneEach p m off v =
    insert-OneEach p.id _ m.protocols (inactive-One p.version p _ off (v p.id)) v

-- What find_version gives is in the map.
abbrev pub Found :
    ManagerError ⊎ (Dict String Protocol × Protocol)
    → Option (Dict String Protocol)
    → String
    → Type 0
Found (inl e) o version = Unit
Found (inr (vs, p)) o version = (o ≡ some vs) × (lookup version vs ≡ some p)

pub find_version-Found :
    (o : Option (Dict String Protocol)) (id version : String)
    → Found (find_version o id version) o version
unfolding find_version in_versions
find_version-Found none id version = tt
find_version-Found (some vs) id version = one (lookup version vs) refl
  where
    one :
        (q : Option Protocol)
        → lookup version vs ≡ q
        → Found (in_versions q vs id version) (some vs) version
    one none e = tt
    one (some p) e = (refl, e)

set_status-OneEach :
    (status : ProtocolStatus) (now : ℕ) (r : ManagerError ⊎ (Dict String Protocol × Protocol))
    (id version : String) (m : ProtocolManager)
    → is_active status ≡ false
    → Found r (lookup id m.protocols) version
    → OneEach m
    → OneEach (set_status status now r id version m).0
unfolding set_status write_version versions_of
set_status-OneEach status now (inl e) id version m off found v = v
set_status-OneEach status now (inr (vs, p)) id version m off (here, there) v =
    insert-OneEach id _ m.protocols
      (inactive-One version (record p { status = status; traffic_rate = pos 0; updated_at = now })
        vs off (subst (λ (o : Option (Dict String Protocol)). One (versions_of o)) here (v id)))
      v

set_traffic-OneEach :
    (now : ℕ) (rate : ℤ) (p : Protocol) (vs : Dict String Protocol) (id version : String)
    (m : ProtocolManager)
    → lookup id m.protocols ≡ some vs
    → lookup version vs ≡ some p
    → OneEach m
    → OneEach (set_traffic now rate p vs id version m)
unfolding set_traffic write_version versions_of
set_traffic-OneEach now rate p vs id version m here there v =
    if_either OneEach (is_full rate)
      (insert-OneEach id _ m.protocols (demote_others-One version _) v)
      (insert-OneEach id _ m.protocols
        (same-One version (record p { traffic_rate = rate; updated_at = now }) p vs there refl
          (subst (λ (o : Option (Dict String Protocol)). One (versions_of o)) here (v id)))
        v)

traffic_found-OneEach :
    (now : ℕ) (rate : ℤ) (r : ManagerError ⊎ (Dict String Protocol × Protocol))
    (id version : String) (m : ProtocolManager)
    → Found r (lookup id m.protocols) version
    → OneEach m
    → OneEach (traffic_found now rate r id version m).0
unfolding traffic_found
traffic_found-OneEach now rate (inl e) id version m found v = v
traffic_found-OneEach now rate (inr (vs, p)) id version m (here, there) v =
    if_either (λ (r : ProtocolManager × Option ManagerError). OneEach r.0)
      (not (is_testing p.status) && not (is_active p.status)) v
      (set_traffic-OneEach now rate p vs id version m here there v)

abbrev Kept : ProtocolManager × Option ManagerError → Type 0
Kept r = OneEach r.0

step-OneEach : (c : Call) (m : ProtocolManager) → OneEach m → OneEach (step c m)
unfolding step upload_protocol load_wasm_protocol start_protocol_testing update_protocol_traffic
    deprecate_protocol set_enabled is_active
step-OneEach (upload verified stored now p) m v = if_either Kept (not verified) v (
    if_either Kept (not stored) v (
      put_protocol-OneEach
        (record p { status = status_inactive; created_at = now; updated_at = now }) m refl v))
step-OneEach (load_wasm present loads now id version name description) m v =
    if_either Kept (not m.enabled) v (
      if_either Kept (not present) v
        (if_either Kept (not loads) v (put_protocol-OneEach _ m refl v)))
step-OneEach (start_testing now id version) m v =
    set_status-OneEach status_testing now _ id version m refl
      (find_version-Found (lookup id m.protocols) id version) v
step-OneEach (update_traffic now id version rate) m v =
    if_either Kept (ltb_ℤ rate (pos 0) || ltb_ℤ (pos 100) rate) v (
      traffic_found-OneEach now rate _ id version m
        (find_version-Found (lookup id m.protocols) id version) v)
step-OneEach (deprecate now id version) m v =
    set_status-OneEach status_deprecating now _ id version m refl
      (find_version-Found (lookup id m.protocols) id version) v
step-OneEach (enable b) m v = v

-- if at most one version of each protocol is active at the start, then after any calls of UploadProtocol, LoadWASMProtocol,
-- StartProtocolTesting, UpdateProtocolTraffic, DeprecateProtocol, Enable and Disable, failed ones included, at most one
-- version of each protocol is active.
pub run_calls-OneEach :
    (cs : List Call) (m : ProtocolManager)
    → OneEach m
    → (id v w : String) → active_at (get_protocol id v (run_calls cs m)) ≡ true
    → active_at (get_protocol id w (run_calls cs m)) ≡ true
    → v ≡ w
unfolding run_calls get_protocol versions_of
run_calls-OneEach [] m one id v w p q = one id v w p q
run_calls-OneEach (c ∷ cs) m one id v w p q =
    run_calls-OneEach cs (step c m) (step-OneEach c m one) id v w p q
