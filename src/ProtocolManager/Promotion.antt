-- ===== src/ProtocolManager/Promotion.antt =====
-- core/governance/protocol_manager.go: a version that takes all the traffic.
use muxcore.Common.{
  ℕ, String, ◌≡◌, refl, sym, ap, ◌∙◌, inl, inr, Bool, true, false, not, ◌&&◌, ◌||◌, Option, none,
  some, [], ◌∷◌, if◌then◌else◌, Bool-cases,
}
use muxcore.Common.Dict.{Dict, lookup, insert, lookup-insert}
use muxcore.Common.Keys.{string_key, number_key}
use muxcore.Common.Int.{pos}
use muxcore.ProtocolManager.{
  status_active, Protocol, current, ProtocolManager, ManagerError, is_active, is_testing,
  versions_of, find_version, demote, demote_others, is_full, set_traffic, traffic_found,
  wrong_state, update_protocol_traffic, get_protocol, resolve, get_active_protocol,
}
use muxcore.ProtocolManager.OneActive.{active_at, demote_others-off}

abbrev pub promoted : ℕ → Protocol → Protocol
promoted now p = record p { status = status_active; traffic_rate = pos 100; updated_at = now }

-- No error, the version is the active one, and no other is active.
abbrev pub Promoted :
    ℕ → Protocol → String → String → ProtocolManager × Option ManagerError → Type 0
Promoted now p id version r =
    (r.1 ≡ none)
    × (get_active_protocol id r.0 ≡ some (promoted now p))
    × ((v : String) → active_at (get_protocol id v r.0) ≡ string_key.test v version)

demote_others-kept :
    (version : String) (vs : Dict String Protocol)
    → lookup version (demote_others version vs) ≡ lookup version vs
unfolding demote_others lookup demote
demote_others-kept version [] = refl
demote_others-kept version ((k, p) ∷ vs) = elim (Bool-cases (string_key.test k version)) [
  | inl here ↦ rw (here) refl
  | inr other ↦ rw (other) (demote_others-kept version vs)
]

set_traffic-Promoted :
    (now : ℕ) (p : Protocol) (vs : Dict String Protocol) (id version : String) (m : ProtocolManager)
    → Promoted now p id version (set_traffic now (pos 100) p vs id version m, none)
unfolding set_traffic get_active_protocol resolve get_protocol versions_of is_full is_active
set_traffic-Promoted now p vs id version m = (refl, active, others)
  where
    after : Dict String Protocol
    after = demote_others version (insert version (promoted now p) vs)

    here : versions_of (lookup id (insert id after m.protocols)) ≡ after
    here = rw (lookup-insert id id after m.protocols, (string_key.test_iff id id).1 refl) refl

    kept : lookup version after ≡ some (promoted now p)
    kept =
        rw
          (
            demote_others-kept version (insert version (promoted now p) vs),
            lookup-insert version version (promoted now p) vs,
            (string_key.test_iff version version).1 refl,
          )
          refl

    active :
        get_active_protocol id (set_traffic now (pos 100) p vs id version m) ≡ some (promoted now p)
    active =
        rw
          (
            lookup-insert id id (current version) m.active_protocols,
            (string_key.test_iff id id).1 refl,
            here,
            kept,
          )
          refl

    others :
        (v : String)
        → active_at (get_protocol id v (set_traffic now (pos 100) p vs id version m))
          ≡ string_key.test v version
    others v =
        ap (λ (l : Dict String Protocol). active_at (lookup v l)) here
        ∙ (elim (Bool-cases (string_key.test v version)) [
          | inl same ↦
              ap (λ (k : String). active_at (lookup k after))
                ((string_key.test_iff v version).0 same)
              ∙ ap active_at kept
              ∙ sym same
          | inr other ↦
              demote_others-off version v (insert version (promoted now p) vs) other ∙ sym other
        ])

traffic_found-Promoted :
    (now : ℕ) (p : Protocol) (o : Option (Dict String Protocol)) (id version : String)
    (m : ProtocolManager)
    → lookup version (versions_of o) ≡ some p
    → (is_testing p.status || is_active p.status) ≡ true
    → Promoted now p id version
        (traffic_found now (pos 100) (find_version o id version) id version m)
unfolding traffic_found find_version versions_of lookup
traffic_found-Promoted now p none id version m there ready = absurd (cc)
traffic_found-Promoted now p (some vs) id version m there ready =
    rw (there) (allowed (is_testing p.status) (is_active p.status) ready)
  where
    allowed :
        (a b : Bool)
        → (a || b) ≡ true
        → Promoted now p id version (
            if not a && not b
            then (m, some (wrong_state id version))
            else (set_traffic now (pos 100) p vs id version m, none))
    allowed true b e = set_traffic-Promoted now p vs id version m
    allowed false true e = set_traffic-Promoted now p vs id version m
    allowed false false e = absurd (cc)

-- UpdateProtocolTraffic to 100 of a version that is tested or active has no error; GetActiveProtocol then answers that
-- version, active and with the rate 100, and no other version of the protocol is active.
pub update_protocol_traffic-full :
    (now : ℕ) (p : Protocol) (id version : String) (m : ProtocolManager)
    → get_protocol id version m ≡ some p
    → (is_testing p.status || is_active p.status) ≡ true
    → Promoted now p id version (update_protocol_traffic now id version (pos 100) m)
unfolding update_protocol_traffic get_protocol
update_protocol_traffic-full now p id version m there ready =
    traffic_found-Promoted now p (lookup id m.protocols) id version m there ready
