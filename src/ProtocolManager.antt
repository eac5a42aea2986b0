-- ===== src/ProtocolManager.antt =====
-- core/governance/protocol_manager.go: the versions of protocols and their states. The trust store and the WASM loader are
-- arguments: whether they accept. A Protocol is changed only through the map of versions, so that a pointer of
-- activeProtocols is the version that it stands for, or what that was when another took its place. Each upload brings an
-- object of its own, and a status is one of the five constants.
mod Versions
pub mod OneActive
pub mod Promotion
mod Tests
unfoldable pub use Versions.*
use muxcore.Common.{
  ℕ, String, ◌⊎◌, inl, inr, Bool, false, not, ◌&&◌, ◌||◌, Option, none, some, List, [], ◌∷◌, ◌==◌,
  if◌then◌else◌,
}
use muxcore.Common.Dict.{Dict, lookup, insert}
use muxcore.Common.Keys.{string_key, number_key}
use muxcore.Common.Int.{ℤ, pos, negsuc, ltb_ℤ}

unfoldable pub in_versions :
    Option Protocol
    → Dict String Protocol
    → String
    → String
    → ManagerError ⊎ (Dict String Protocol × Protocol)
in_versions none vs id version = inl (version_not_found id version)
in_versions (some p) vs id version = inr (vs, p)

-- The checks that StartProtocolTesting, UpdateProtocolTraffic and DeprecateProtocol begin with.
unfoldable pub find_version :
    Option (Dict String Protocol)
    → String
    → String
    → ManagerError ⊎ (Dict String Protocol × Protocol)
unfolding in_versions
find_version none id version = inl (protocol_not_found id)
find_version (some vs) id version = in_versions (lookup version vs) vs id version

-- The object of a version is written.
unfoldable pub write_version :
    String → String → Protocol → Dict String Protocol → ProtocolManager → ProtocolManager
write_version id version p vs m = record m {
  protocols = insert id (insert version p vs) m.protocols;
}

unfoldable pub set_status :
    ProtocolStatus
    → ℕ
    → ManagerError ⊎ (Dict String Protocol × Protocol)
    → String
    → String
    → ProtocolManager
    → ProtocolManager × Option ManagerError
unfolding write_version
set_status status now (inl e) id version m = (m, some e)
set_status status now (inr (vs, p)) id version m = (
  write_version id version (record p { status = status; traffic_rate = pos 0; updated_at = now }) vs
      m,
  none,
)

unfoldable pub start_protocol_testing :
    ℕ → String → String → ProtocolManager → ProtocolManager × Option ManagerError
unfolding set_status find_version
start_protocol_testing now id version m =
    set_status status_testing now (find_version (lookup id m.protocols) id version) id version m

unfoldable pub deprecate_protocol :
    ℕ → String → String → ProtocolManager → ProtocolManager × Option ManagerError
unfolding set_status find_version
deprecate_protocol now id version m =
    set_status status_deprecating now (find_version (lookup id m.protocols) id version) id version m

-- The loop that marks the other active versions.
unfoldable pub demote : String → String → Protocol → Protocol
unfolding is_active
demote version v p =
    if not (string_key.test v version) && is_active p.status
    then record p { status = status_deprecating; traffic_rate = pos 0 }
    else p

unfoldable pub demote_others : String → Dict String Protocol → Dict String Protocol
unfolding demote
demote_others version [] = []
demote_others version ((v, p) ∷ vs) = (v, demote version v p) ∷ demote_others version vs

unfoldable pub is_full : ℤ → Bool
is_full (pos n) = n == 100
is_full (negsuc n) = false

unfoldable pub set_traffic :
    ℕ → ℤ → Protocol → Dict String Protocol → String → String → ProtocolManager → ProtocolManager
unfolding write_version demote_others is_full
set_traffic now rate p vs id version m =
    let p' = record p { traffic_rate = rate; updated_at = now } in
    if is_full rate
    then record m {
      protocols =
          insert id
            (demote_others version (insert version (record p' { status = status_active }) vs))
            m.protocols;
      active_protocols = insert id (current version) m.active_protocols;
    }
    else write_version id version p' vs m

unfoldable pub traffic_found :
    ℕ
    → ℤ
    → ManagerError ⊎ (Dict String Protocol × Protocol)
    → String
    → String
    → ProtocolManager
    → ProtocolManager × Option ManagerError
unfolding set_traffic is_testing is_active
traffic_found now rate (inl e) id version m = (m, some e)
traffic_found now rate (inr (vs, p)) id version m =
    if not (is_testing p.status) && not (is_active p.status)
    then (m, some (wrong_state id version))
    else (set_traffic now rate p vs id version m, none)

unfoldable pub update_protocol_traffic :
    ℕ → String → String → ℤ → ProtocolManager → ProtocolManager × Option ManagerError
unfolding traffic_found find_version
update_protocol_traffic now id version rate m =
    if ltb_ℤ rate (pos 0) || ltb_ℤ (pos 100) rate
    then (m, some invalid_rate)
    else traffic_found now rate (find_version (lookup id m.protocols) id version) id version m

unfoldable pub get_protocol : String → String → ProtocolManager → Option Protocol
unfolding versions_of
get_protocol id version m = lookup version (versions_of (lookup id m.protocols))

unfoldable pub resolve : Option ActiveRef → String → ProtocolManager → Option Protocol
unfolding get_protocol
resolve none id m = none
resolve (some (current v)) id m = get_protocol id v m
resolve (some (replaced p)) id m = some p

unfoldable pub get_active_protocol : String → ProtocolManager → Option Protocol
unfolding resolve
get_active_protocol id m = resolve (lookup id m.active_protocols) id m

-- Enable and Disable.
unfoldable pub set_enabled : Bool → ProtocolManager → ProtocolManager
set_enabled b m = record m { enabled = b }

unfoldable pub run_loader : Option (List ℕ) → ManagerError ⊎ List ℕ
run_loader none = inl execute_failed
run_loader (some output) = inr output

unfoldable pub execute_found :
    (String → String → List ℕ → Option (List ℕ))
    → Option Protocol
    → String
    → String
    → List ℕ
    → ManagerError ⊎ List ℕ
unfolding is_active is_testing run_loader
execute_found run none id version input = inl (version_not_found id version)
execute_found run (some p) id version input =
    if not (is_active p.status) && not (is_testing p.status)
    then inl (wrong_state id version)
    else run_loader (run id version input)

-- ExecuteWASMProtocol, with what the loader's ExecuteProtocol answers, if there is a loader.
unfoldable pub execute_wasm_protocol :
    Bool
    → (String → String → List ℕ → Option (List ℕ))
    → String
    → String
    → List ℕ
    → ProtocolManager
    → ManagerError ⊎ List ℕ
unfolding execute_found get_protocol
execute_wasm_protocol present run id version input m =
    if not m.enabled
    then inl manager_disabled
    else if not present
    then inl loader_missing
    else execute_found run (get_protocol id version m) id version input

-- The calls that change the manager, each with what its surroundings answer.
pub data Call : Type 0 where
  upload : Bool → Bool → ℕ → Protocol → Call
  load_wasm : Bool → Bool → ℕ → String → String → String → String → Call
  start_testing : ℕ → String → String → Call
  update_traffic : ℕ → String → String → ℤ → Call
  deprecate : ℕ → String → String → Call
  enable : Bool → Call

unfoldable pub step : Call → ProtocolManager → ProtocolManager
unfolding upload_protocol load_wasm_protocol start_protocol_testing update_protocol_traffic
    deprecate_protocol set_enabled
step (upload verified stored now p) m = (upload_protocol verified stored now p m).0
step (load_wasm present loads now id version name description) m =
    (load_wasm_protocol present loads now id version name description m).0
step (start_testing now id version) m = (start_protocol_testing now id version m).0
step (update_traffic now id version rate) m = (update_protocol_traffic now id version rate m).0
step (deprecate now id version) m = (deprecate_protocol now id version m).0
step (enable b) m = set_enabled b m

unfoldable pub run_calls : List Call → ProtocolManager → ProtocolManager
unfolding step
run_calls [] m = m
run_calls (c ∷ cs) m = run_calls cs (step c m)
