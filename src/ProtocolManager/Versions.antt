-- ===== src/ProtocolManager/Versions.antt =====
-- core/governance/protocol_manager.go: the versions, where they come from.
use muxcore.Common.{
  ℕ, String, Bool, true, false, not, Option, none, some, List, [], ◌∷◌, if◌then◌else◌,
}
use muxcore.Common.Dict.{Dict, lookup, insert}
use muxcore.Common.Keys.{string_key, number_key}
use muxcore.Common.Int.{ℤ, pos}

pub data ProtocolStatus : Type 0 where
  status_inactive status_testing status_active status_deprecating status_deprecated : ProtocolStatus

pub record Protocol : Type 0 where
  pub id : String
  pub name : String
  pub description : String
  pub version : String
  pub status : ProtocolStatus
  pub handler : Option ℕ
  pub traffic_rate : ℤ
  pub created_at : ℕ
  pub updated_at : ℕ

pub data ActiveRef : Type 0 where
  current : String → ActiveRef
  replaced : Protocol → ActiveRef

pub record ProtocolManager : Type 0 where
  pub protocols : Dict String (Dict String Protocol)
  pub active_protocols : Dict String ActiveRef
  pub enabled : Bool

pub data ManagerError : Type 0 where
  manager_disabled invalid_signature store_failed loader_missing load_failed invalid_rate
        execute_failed :
      ManagerError
  protocol_not_found : String → ManagerError
  version_not_found : String → String → ManagerError
  wrong_state : String → String → ManagerError

unfoldable pub is_active : ProtocolStatus → Bool
is_active status_active = true
is_active _ = false

unfoldable pub is_testing : ProtocolStatus → Bool
is_testing status_testing = true
is_testing _ = false

unfoldable pub versions_of : Option (Dict String Protocol) → Dict String Protocol
versions_of none = []
versions_of (some vs) = vs

-- The pointer of a version that another object replaces.
unfoldable pub detach : Option ActiveRef → String → Option Protocol → Option ActiveRef
detach (some (current v)) version (some old) =
    if string_key.test v version then some (replaced old) else some (current v)
detach o version old = o

unfoldable pub put_ref : Option ActiveRef → String → Dict String ActiveRef → Dict String ActiveRef
put_ref none id m = m
put_ref (some r) id m = insert id r m

-- `pm.protocols[protocol.ID][protocol.Version] = protocol`
unfoldable pub put_protocol : Protocol → ProtocolManager → ProtocolManager
unfolding versions_of detach put_ref
put_protocol p m =
    let vs = versions_of (lookup p.id m.protocols) in
    record m {
      protocols = insert p.id (insert p.version p vs) m.protocols;
      active_protocols =
          put_ref (detach (lookup p.id m.active_protocols) p.version (lookup p.version vs)) p.id
            m.active_protocols;
    }

unfoldable pub load_one : Protocol → ProtocolManager → ProtocolManager
unfolding put_protocol is_active
load_one p m =
    let m' = put_protocol p m in
    if is_active p.status
    then record m' { active_protocols = insert p.id (current p.version) m'.active_protocols }
    else m'

unfoldable pub load_all : List Protocol → ProtocolManager → ProtocolManager
unfolding load_one
load_all [] m = m
load_all (p ∷ l) m = load_all l (load_one p m)

-- NewProtocolManager, with what the trust store lists.
unfoldable pub new_manager : Option (List Protocol) → ProtocolManager
unfolding load_all
new_manager none = record { protocols = []; active_protocols = []; enabled = true }
new_manager (some l) = load_all l (record { protocols = []; active_protocols = []; enabled = true })

unfoldable pub upload_protocol :
    Bool → Bool → ℕ → Protocol → ProtocolManager → ProtocolManager × Option ManagerError
unfolding put_protocol
upload_protocol verified stored now p m =
    if not verified
    then (m, some invalid_signature)
    else if not stored
    then (m, some store_failed)
    else (
      put_protocol (record p { status = status_inactive; created_at = now; updated_at = now }) m,
      none,
    )

-- Whether there is a loader, and whether it takes the code.
unfoldable pub load_wasm_protocol :
    Bool
    → Bool
    → ℕ
    → String
    → String
    → String
    → String
    → ProtocolManager
    → ProtocolManager × Option ManagerError
unfolding put_protocol
load_wasm_protocol present loads now id version name description m =
    if not m.enabled
    then (m, some manager_disabled)
    else if not present
    then (m, some loader_missing)
    else if not loads
    then (m, some load_failed)
    else (
      put_protocol
          (record {
            id = id;
            name = name;
            description = description;
            version = version;
            status = status_inactive;
            handler = none;
            traffic_rate = pos 0;
            created_at = now;
            updated_at = now;
          })
          m,
      none,
    )
