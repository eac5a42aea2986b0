-- ===== src/MessageBus/Websocket.antt =====
-- core/bus/message_bus.go: the bus of WebSocket connections. A connection is a number, and the parameter
-- `accepts` says whether websocket.Message.Send takes a message for it; `sent` is what was taken.
use muxcore.Common.{
  ℕ, String, ◌≡◌, sym, ap, inl, inr, Bool, true, false, not, ◌&&◌, Option, none, some, List, [],
  ◌∷◌, ◌++◌, if◌then◌else◌, Bool-cases,
}
use muxcore.Common.Dict.{Dict, lookup, insert, delete}
use muxcore.Common.Keys.{string_key, number_key}
use mathlib.Core.List.{append-nil, append_assoc}
use muxcore.MessageBus.Bus.{BusError, connection_not_found, send_failed}

pub record MessageBus : Type 0 where
  pub connections : Dict String ℕ
  pub sent : List (ℕ × String)

unfoldable pub register : String → ℕ → MessageBus → MessageBus
register id conn b = record b { connections = insert id conn b.connections }

unfoldable pub unregister : String → MessageBus → MessageBus
unregister id b = record b { connections = delete id b.connections }

module _ (accepts : ℕ → String → Bool) where
  unfoldable pub send_to : ℕ → String → MessageBus → MessageBus × Bool
  send_to conn text b =
      if accepts conn text
      then (record b { sent = b.sent ++ (conn, text) ∷ [] }, true)
      else (b, false)

  -- The loop of BroadcastMessage; the error of a Send is logged only.
  unfoldable pub broadcast_rounds : Dict String ℕ → String → String → MessageBus → MessageBus
  unfolding send_to
  broadcast_rounds [] exclude text b = b
  broadcast_rounds ((id, conn) ∷ m) exclude text b =
      broadcast_rounds m exclude text
        (if string_key.test id exclude then b else (send_to conn text b).0)

  unfoldable pub broadcast_message : String → String → MessageBus → MessageBus
  unfolding broadcast_rounds
  broadcast_message exclude text b = broadcast_rounds b.connections exclude text b

  unfoldable pub send_found : Option ℕ → String → String → MessageBus → MessageBus × Option BusError
  unfolding send_to
  send_found none id text b = (b, some (connection_not_found id))
  send_found (some conn) id text b =
      let (b', taken) = send_to conn text b in (b', if taken then none else some send_failed)

  unfoldable pub send_message : String → String → MessageBus → MessageBus × Option BusError
  unfolding send_found
  send_message id text b = send_found (lookup id b.connections) id text b

  -- The connections of a broadcast that take the message, in the order of the map.
  unfoldable pub takers : String → String → Dict String ℕ → List (ℕ × String)
  takers exclude text [] = []
  takers exclude text ((id, conn) ∷ m) =
      let rest = takers exclude text m in
      if not (string_key.test id exclude) && accepts conn text then (conn, text) ∷ rest else rest

  broadcast_rounds-takers :
      (m : Dict String ℕ) (exclude text : String) (b : MessageBus)
      → broadcast_rounds m exclude text b ≡ record b { sent = b.sent ++ takers exclude text m }
  unfolding broadcast_rounds takers
  broadcast_rounds-takers [] exclude text b =
      ap (λ (l : List (ℕ × String)). record b { sent = l }) (sym (append-nil b.sent))
  broadcast_rounds-takers ((id, conn) ∷ m) exclude text b =
      elim (Bool-cases (string_key.test id exclude)) [
        | inl same ↦ rw same (broadcast_rounds-takers m exclude text b)
        | inr other ↦ elim (Bool-cases (accepts conn text)) [
          | inl taken ↦
              rw (other, taken, ← append_assoc b.sent ((conn, text) ∷ []) (takers exclude text m))
                (broadcast_rounds-takers m exclude text
                  (record b { sent = b.sent ++ (conn, text) ∷ [] }))
          | inr refused ↦ rw (other, refused) (broadcast_rounds-takers m exclude text b)
        ]
      ]

  -- BroadcastMessage gives the message once to every connection that takes it, the excluded one left out,
  -- in the order of the map, and goes on after a connection that does not take it.
  pub broadcast_message-takers :
      (exclude text : String) (b : MessageBus)
      → broadcast_message exclude text b
        ≡ record b { sent = b.sent ++ takers exclude text b.connections }
  unfolding broadcast_message
  broadcast_message-takers exclude text b = broadcast_rounds-takers b.connections exclude text b
