-- ===== src/ProtocolManager/Tests.antt =====
-- Runs of the protocol manager.
use muxcore.Common.{String, ◌≡◌, refl, true, ◌||◌, Option, none, some, List, [], ◌∷◌}
use muxcore.Common.Dict.{lookup, insert}
use muxcore.Common.Keys.{string_key, number_key}
use muxcore.Common.Int.{pos}
use muxcore.ProtocolManager.{
  ProtocolStatus, status_inactive, status_testing, status_deprecating, Protocol, ProtocolManager,
  new_manager, put_protocol, put_ref, detach, Call, upload, start_testing, update_traffic,
  deprecate, run_calls, step, get_protocol, get_active_protocol, resolve, upload_protocol,
  start_protocol_testing, update_protocol_traffic, deprecate_protocol, find_version, in_versions,
  set_status, write_version, traffic_found, set_traffic, demote_others, demote, is_full, is_testing,
  is_active, versions_of,
}
use muxcore.ProtocolManager.OneActive.{active_at, OneEach, run_calls-OneEach}

abbrev version_of : String → Protocol
version_of v = record {
  id = "chat";
  name = "Chat";
  description = "";
  version = v;
  status = status_inactive;
  handler = none;
  traffic_rate = pos 0;
  created_at = 0;
  updated_at = 0;
}

-- Two versions, the first of which takes the traffic and then the second.
abbrev calls : List Call
calls =
    (upload true true 1 (version_of "1")
      ∷ upload true true 2 (version_of "2")
      ∷ start_testing 3 "chat" "1"
      ∷ update_traffic 4 "chat" "1" (pos 100)
      ∷ start_testing 5 "chat" "2"
      ∷ update_traffic 6 "chat" "2" (pos 100)
      ∷ [])

abbrev switched : ProtocolManager
switched = run_calls calls (new_manager none)

empty-OneEach : OneEach (new_manager none)
unfolding new_manager lookup versions_of
empty-OneEach id v w p q = absurd (cc)

second_active : active_at (get_protocol "chat" "2" switched) ≡ true
unfolding run_calls step new_manager upload_protocol put_protocol put_ref detach
    start_protocol_testing update_protocol_traffic deprecate_protocol find_version in_versions
    set_status write_version traffic_found set_traffic demote_others demote is_full is_testing
    is_active versions_of get_protocol lookup insert
second_active = refl

run_calls-OneEach_example : ◌≡◌ {A = String} "2" "2"
run_calls-OneEach_example =
    run_calls-OneEach calls (new_manager none) empty-OneEach "chat" "2" "2" second_active
      second_active

abbrev first_calls : List Call
first_calls = upload true true 1 (version_of "1") ∷ start_testing 3 "chat" "1" ∷ []

abbrev tested : Protocol
tested = record (version_of "1") { status = status_testing; created_at = 1; updated_at = 3 }

first_tested : get_protocol "chat" "1" (run_calls first_calls (new_manager none)) ≡ some tested
unfolding run_calls step new_manager upload_protocol put_protocol put_ref detach
    start_protocol_testing update_protocol_traffic deprecate_protocol find_version in_versions
    set_status write_version traffic_found set_traffic demote_others demote is_full is_testing
    is_active versions_of get_protocol lookup insert
first_tested = refl

ready : (is_testing tested.status || is_active tested.status) ≡ true
unfolding is_testing is_active
ready = refl

abbrev status_of : Option Protocol → Option ProtocolStatus
status_of none = none
status_of (some p) = some p.status

-- The version that GetActiveProtocol answers can be one that DeprecateProtocol was called on.
stale :
    status_of (get_active_protocol "chat" (step (deprecate 7 "chat" "2") switched))
    ≡ some status_deprecating
unfolding run_calls step new_manager upload_protocol put_protocol put_ref detach
    start_protocol_testing update_protocol_traffic deprecate_protocol find_version in_versions
    set_status write_version traffic_found set_traffic demote_others demote is_full is_testing
    is_active versions_of get_protocol lookup insert get_active_protocol resolve
stale = refl
