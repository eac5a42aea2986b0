-- ===== src/WebsocketBatch/Deliveries.antt =====
-- core/protocols/websocket/batch_processor.go: what becomes of the messages of a connection.
use muxcore.Common.{ℕ, ◌+◌, String, ◌≡◌, Option, none, some, List, [], ◌∷◌, ◌++◌, length, get_elem?}
use muxcore.Common.Counts.{times, total}
use muxcore.Common.Keys.{string_key, number_key}
use muxcore.WebsocketBatch.{
  Flush, idle, wanted, sending, BatchedConnection, BatchEvent, message, timeout, flush,
  on_batch_event,
}

-- The messages that messageSender takes in a run.
abbrev taken_now : BatchEvent → Option Flush → List String
taken_now (message content) (some idle) = content ∷ []
taken_now (message content) (some wanted) = []
taken_now (message content) (some (sending l)) = []
taken_now (message content) none = []
taken_now timeout o = []
taken_now (flush i ok) o = []

abbrev pub taken : List BatchEvent → BatchedConnection → List String
taken [] c = []
taken (e ∷ es) c = taken_now e (get_elem? c.flushes 0) ++ taken es (on_batch_event e c)

-- The messages that a goroutine has still to send.
abbrev pub held : Flush → List String
held idle = []
held wanted = []
held (sending l) = l

-- How often a message stands in what a goroutine has still to send.
abbrev pub held_times : String → Flush → ℕ
held_times x g = times x (held g)

-- How often a message was sent, was dropped, is on its way, or waits in the buffer.
abbrev pub places : String → BatchedConnection → ℕ
places x c =
    times x c.sent + times x c.dropped + total (held_times x) c.flushes + times x c.batch_buffer

-- The counters of messages count what was sent and dropped.
abbrev pub Tallied : BatchedConnection → Type 0
Tallied c = (c.messages_sent ≡ length c.sent) × (c.message_errors ≡ length c.dropped)
