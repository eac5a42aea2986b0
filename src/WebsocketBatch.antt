-- ===== src/WebsocketBatch.antt =====
-- core/protocols/websocket/batch_processor.go: the batches of a connection, and the timer that sends what has not filled one.
-- What happens under the lock of the connection, and each send, is one step. `flushes` lists the goroutines that may
-- flush: messageSender first, then one for each time that the timer has fired. A message is the text that is sent, and
-- whether the library can send it comes with the event. The counters are those
-- of one connection; BytesTransferred, a Stop of the handler, and a connection that is closed, are left out.
pub mod Deliveries
mod Tests
use muxcore.Common.{
  ℕ, ◌+◌, String, Bool, true, false, ◌==◌, Option, none, some, List, [], ◌∷◌, ◌++◌, leb,
  if◌then◌else◌, length, get_elem?, set,
}
use muxcore.Common.Keys.{string_key, number_key}

-- Where a goroutine stands: out of flushBatch, before its Lock, or with the messages that it has still to send.
pub data Flush : Type 0 where
  idle wanted : Flush
  sending : List String → Flush

pub record BatchedConnection : Type 0 where
  pub batch_size : ℕ
  pub batch_buffer : List String
  pub timer_armed : Bool
  pub flushes : List Flush
  pub sent : List String
  pub dropped : List String
  pub batches_sent : ℕ
  pub messages_sent : ℕ
  pub message_errors : ℕ

-- createOptimizedConnection, where batches are enabled, with messageSender.
unfoldable pub create_batched : ℕ → BatchedConnection
create_batched batch_size = record {
  batch_size = batch_size;
  batch_buffer = [];
  timer_armed = true;
  flushes = idle ∷ [];
  sent = [];
  dropped = [];
  batches_sent = 0;
  messages_sent = 0;
  message_errors = 0;
}

-- The part of addToBatch under the lock, by messageSender; a full batch is flushed next.
unfoldable pub add_to_batch : String → BatchedConnection → BatchedConnection
add_to_batch content c = record c {
  batch_buffer = c.batch_buffer ++ content ∷ [];
  flushes = set c.flushes 0 (if leb c.batch_size (length c.batch_buffer + 1) then wanted else idle);
}

-- The function of time.AfterFunc starts, once for each time that the timer is set.
unfoldable pub timer_fires : BatchedConnection → BatchedConnection
timer_fires c =
    if c.timer_armed
    then record c { timer_armed = false; flushes = c.flushes ++ wanted ∷ [] }
    else c

-- The part of flushBatch under the lock.
unfoldable pub take_batch : ℕ → List String → BatchedConnection → BatchedConnection
take_batch i [] c = record c { flushes = set c.flushes i idle }
take_batch i (content ∷ l) c = record c {
  batch_buffer = [];
  flushes = set c.flushes i (sending (content ∷ l));
}

unfoldable pub send_directly : Bool → String → BatchedConnection → BatchedConnection
send_directly true content c = record c {
  sent = c.sent ++ content ∷ [];
  messages_sent = c.messages_sent + 1;
}
send_directly false content c = record c {
  dropped = c.dropped ++ content ∷ [];
  message_errors = c.message_errors + 1;
}

-- The end of flushBatch.
unfoldable pub end_flush : ℕ → BatchedConnection → BatchedConnection
end_flush i c = record c {
  flushes = set c.flushes i idle;
  batches_sent = c.batches_sent + 1;
  timer_armed = true;
}

-- The next step of a flush; the Boolean tells whether a message can be sent.
unfoldable pub flush_step : ℕ → Bool → Option Flush → BatchedConnection → BatchedConnection
unfolding take_batch send_directly end_flush
flush_step i ok none c = c
flush_step i ok (some idle) c = c
flush_step i ok (some wanted) c = take_batch i c.batch_buffer c
flush_step i ok (some (sending [])) c = end_flush i c
flush_step i ok (some (sending (content ∷ l))) c =
    send_directly ok content (record c { flushes = set c.flushes i (sending l) })

pub data BatchEvent : Type 0 where
  message : String → BatchEvent
  timeout : BatchEvent
  flush : ℕ → Bool → BatchEvent

-- messageSender takes a message when it is not in flushBatch.
unfoldable pub take_message : String → Option Flush → BatchedConnection → BatchedConnection
unfolding add_to_batch
take_message content (some idle) c = add_to_batch content c
take_message content (some wanted) c = c
take_message content (some (sending l)) c = c
take_message content none c = c

unfoldable pub on_batch_event : BatchEvent → BatchedConnection → BatchedConnection
unfolding take_message timer_fires flush_step
on_batch_event (message content) c = take_message content (get_elem? c.flushes 0) c
on_batch_event timeout c = timer_fires c
on_batch_event (flush i ok) c = flush_step i ok (get_elem? c.flushes i) c

unfoldable pub on_batch_events : List BatchEvent → BatchedConnection → BatchedConnection
unfolding on_batch_event
on_batch_events [] c = c
on_batch_events (e ∷ es) c = on_batch_events es (on_batch_event e c)
