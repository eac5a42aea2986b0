-- ===== src/WebsocketBatch/Tests.antt =====
-- Runs of a connection with batches.
use muxcore.Common.{◌≡◌, refl, true, false, List, [], ◌∷◌}
use muxcore.Common.Keys.{string_key, number_key}
use muxcore.WebsocketBatch.{create_batched, BatchEvent, message, timeout, flush, on_batch_events}
use muxcore.WebsocketBatch.Deliveries.{taken}

-- The timer's flush takes the first message and is overtaken by the flush of a full batch, whose second send fails.
abbrev overtaken : List BatchEvent
overtaken =
    message "a"
    ∷ timeout
    ∷ flush 1 true
    ∷ message "b"
    ∷ message "c"
    ∷ flush 0 true
    ∷ message "d"
    ∷ flush 0 true
    ∷ flush 1 true
    ∷ flush 0 false
    ∷ flush 0 true
    ∷ []

-- "a" came before "b"; "d" came while messageSender was in its flush.
b_before_a :
    let c = on_batch_events overtaken (create_batched 2) in
    (c.sent ≡ "b" ∷ "a" ∷ [])
    × (c.dropped ≡ "c" ∷ [])
    × (taken overtaken (create_batched 2) ≡ "a" ∷ "b" ∷ "c" ∷ [])
unfolding on_batch_events create_batched
b_before_a = (refl, refl, refl)

-- The timer fires with nothing to send and is not set again: the message waits.
timer_lost :
    let c =
      on_batch_events (timeout ∷ flush 1 true ∷ message "a" ∷ timeout ∷ []) (create_batched 2) in
    (c.timer_armed ≡ false) × (c.batch_buffer ≡ "a" ∷ []) × (c.sent ≡ [])
unfolding on_batch_events create_batched
timer_lost = (refl, refl, refl)
