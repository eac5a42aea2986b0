-- ===== src/MessageBus/Delivery.antt =====
-- core/bus/enhanced_message_bus.go: Publish, SendDirect and Broadcast. json.Marshal and the wrapping of its bytes
-- into a payload are the parameters `marshal` and `embed`. The goroutines of a message end before the call
-- returns and only the number of their errors is used, so they are a list, in the order of its subscriptions.
use muxcore.Common.{
  ℕ, zero, suc, ◌+◌, ◌%◌, ◌^◌, String, Bool, true, false, not, ◌&&◌, Option, none, some, List, [],
  ◌∷◌, ltb, leb, ◌==◌, if◌then◌else◌,
}
use muxcore.Common.Dict.{Dict, lookup, insert, delete}
use muxcore.Common.Keys.{string_key, number_key}
use muxcore.Common.Int.{ℤ, pos, negsuc}
use muxcore.Common.Text.{sum32a, hex}
use muxcore.MessageBus.{Message}
use muxcore.MessageBus.Bus.{
  Subscription, EnhancedMessageBus, BusMetrics, BusError, World, connection_not_found,
  message_not_found, handler_failed, context_done, send_failed, routing_failed, broadcast_failed,
}

-- The rounds of sendWithRetry that are left, with the number of the next attempt.
unfoldable pub send_rounds : World → ℕ → ℕ → ℕ → Option BusError
send_rounds w conn zero attempt = some send_failed
send_rounds w conn (suc left) attempt =
    let rest = send_rounds w conn left (attempt + 1) in
    if ltb 0 attempt && w.done_before attempt
    then some context_done
    else if w.accepts conn attempt
    then none
    else rest

-- Attempts from 0 up to and including the number of retries.
unfoldable pub rounds_of : ℤ → ℕ
rounds_of (pos n) = n + 1
rounds_of (negsuc n) = 0

unfoldable pub send_with_retry : World → ℤ → ℕ → Option BusError
unfolding send_rounds rounds_of
send_with_retry w retries conn = send_rounds w conn (rounds_of retries) 0

unfoldable pub is_some : Option BusError → Bool
is_some none = false
is_some (some e) = true

-- How many of the answers are errors.
unfoldable pub count_errors : List (Option BusError) → ℕ
unfolding is_some
count_errors [] = 0
count_errors (r ∷ l) = (if is_some r then 1 else 0) + count_errors l

unfoldable pub or_send : Option BusError → World → ℤ → ℕ → Option BusError
unfolding send_with_retry
or_send (some e) w retries conn = some e
or_send none w retries conn = send_with_retry w retries conn

unfoldable pub error_of : (ℕ → BusError) → ℕ → Option BusError
error_of f n = if ltb 0 n then some (f n) else none

unfoldable pub broadcast_targets : World → String → Dict String ℕ → List ℕ
broadcast_targets w exclude [] = []
broadcast_targets w exclude ((id, conn) ∷ l) =
    let rest = broadcast_targets w exclude l in
    if not (string_key.test id exclude) && w.is_active conn then conn ∷ rest else rest

unfoldable pub send_all : World → ℤ → List ℕ → List (Option BusError)
unfolding send_with_retry
send_all w retries [] = []
send_all w retries (conn ∷ l) = send_with_retry w retries conn ∷ send_all w retries l

unfoldable pub send_found : Option ℕ → String → World → ℤ → Option BusError
unfolding send_with_retry
send_found none id w retries = some (connection_not_found id)
send_found (some conn) id w retries = send_with_retry w retries conn

unfoldable pub is_zero : ℤ → Bool
is_zero (pos n) = n == 0
is_zero (negsuc n) = false

-- GzipCompressor.Compress, which answers with the data itself; so does Decompress.
unfoldable pub compress : List ℕ → Option (List ℕ)
compress d = some d

unfoldable pub compressed_by : Option (List ℕ) → Option (List ℕ)
unfolding compress
compressed_by none = none
compressed_by (some d) = compress d

-- The counters of Publish; int64 wraps around.
unfoldable pub count_published : BusMetrics → BusMetrics
count_published c = record c { messages_published = (c.messages_published + 1) % 2 ^ 64 }

unfoldable pub count_routed : Option BusError → BusMetrics → BusMetrics
count_routed none c = record c { messages_delivered = (c.messages_delivered + 1) % 2 ^ 64 }
count_routed (some e) c = record c { messages_failed = (c.messages_failed + 1) % 2 ^ 64 }

unfoldable pub count_latency : ℕ → BusMetrics → BusMetrics
count_latency ms c = record c { total_latency = (c.total_latency + ms) % 2 ^ 64 }

module _ {P : Type 0} where
  unfoldable pub store_message : Message P → Dict String (Message P) → Dict String (Message P)
  store_message m s = insert m.id m s

  unfoldable pub retrieve : String → Dict String (Message P) → Option (Message P) × Option BusError
  retrieve id s = elim (lookup id s) [
    | none ↦ (none, some (message_not_found id))
    | some m ↦ (some m, none)
  ]

  -- InMemoryMessageStore.Delete.
  unfoldable pub delete_message : String → Dict String (Message P) → Dict String (Message P)
  delete_message id s = delete id s

  -- The loop of GetByTopic, with `count` messages found; with no limit it never breaks off.
  unfoldable pub by_topic : String → ℕ → ℕ → Dict String (Message P) → List (Message P)
  by_topic topic limit count [] = []
  by_topic topic limit count ((id, m) ∷ s) =
      let rest = by_topic topic limit count s in
      let more = by_topic topic limit (count + 1) s in
      if string_key.test m.topic topic
      then (if ltb 0 limit && leb limit (count + 1) then m ∷ [] else m ∷ more)
      else rest

  unfoldable pub get_by_topic : String → ℕ → Dict String (Message P) → List (Message P)
  unfolding by_topic
  get_by_topic topic limit s = by_topic topic limit 0 s

  -- The subscriptions that a message goes to.
  unfoldable pub is_target : Option (Subscription P) → Bool
  is_target none = false
  is_target (some s) = s.active

  unfoldable pub add_target :
      Option (Subscription P) → List (Subscription P) → List (Subscription P)
  add_target none l = l
  add_target (some s) l = if s.active then s ∷ l else l

  unfoldable pub targets : List String → Dict String (Subscription P) → List (Subscription P)
  unfolding add_target
  targets [] subs = []
  targets (id ∷ ids) subs = add_target (lookup id subs) (targets ids subs)

  unfoldable pub passes : Option (Message P → Bool) → Message P → Bool
  passes none m = true
  passes (some f) m = f m

  unfoldable pub handled : Option (Message P → Option ℕ) → Message P → Option BusError
  handled none m = none
  handled (some h) m = elim (h m) [ none ↦ none | some e ↦ some (handler_failed e) ]

  unfoldable pub to_connection : Option ℕ → World → Subscription P → Message P → ℤ → Option BusError
  unfolding handled or_send
  to_connection none w s m retries = some (connection_not_found s.connection_id)
  to_connection (some conn) w s m retries =
      if w.is_active conn
      then or_send (handled s.handler m) w retries conn
      else some (connection_not_found s.connection_id)

  unfoldable pub handle_subscription :
      World → Subscription P → Message P → EnhancedMessageBus P → Option BusError
  unfolding to_connection passes
  handle_subscription w s m b =
      if passes s.filter m
      then to_connection (lookup s.connection_id b.connections) w s m b.retry_attempts
      else none

  unfoldable pub handle_all :
      World → List (Subscription P) → Message P → EnhancedMessageBus P → List (Option BusError)
  unfolding handle_subscription
  handle_all w [] m b = []
  handle_all w (s ∷ l) m b = handle_subscription w s m b ∷ handle_all w l m b

  unfoldable pub targets_found :
      Option (List String) → Dict String (Subscription P) → List (Subscription P)
  unfolding targets
  targets_found none subs = []
  targets_found (some ids) subs = targets ids subs

  unfoldable pub targets_of : Message P → EnhancedMessageBus P → List (Subscription P)
  unfolding targets_found
  targets_of m b = targets_found (lookup m.topic b.topic_subs) b.subscriptions

  unfoldable pub route_message : World → Message P → EnhancedMessageBus P → Option BusError
  unfolding targets_of handle_all count_errors error_of
  route_message w m b = error_of routing_failed (count_errors (handle_all w (targets_of m b) m b))

  unfoldable pub send_direct : World → String → EnhancedMessageBus P → Option BusError
  unfolding send_found
  send_direct w id b = send_found (lookup id b.connections) id w b.retry_attempts

  unfoldable pub broadcast : World → String → EnhancedMessageBus P → Option BusError
  unfolding broadcast_targets send_all count_errors error_of
  broadcast w exclude b =
      error_of broadcast_failed
        (count_errors (send_all w b.retry_attempts (broadcast_targets w exclude b.connections)))

  -- The fields that Publish fills in.
  unfoldable pub fill_fields : String → ℕ → Message P → Message P
  unfolding is_zero
  fill_fields fresh_id now m = record m {
    id = if string_key.test m.id "" then fresh_id else m.id;
    timestamp = if m.timestamp == 0 then now else m.timestamp;
    priority = if is_zero m.priority then pos 1 else m.priority;
    delivery_mode = if is_zero m.delivery_mode then pos 1 else m.delivery_mode;
  }

  unfoldable pub with_payload : (List ℕ → P) → Option (List ℕ) → Message P → Message P
  with_payload embed none m = m
  with_payload embed (some d) m = record m { payload = embed d; compressed = true }

  unfoldable pub with_checksum : Option (List ℕ) → Message P → Message P
  unfolding sum32a hex
  with_checksum none m = m
  with_checksum (some d) m = record m { checksum = hex 7 (sum32a d) }

  -- The message as Publish stores and sends it.
  unfoldable pub prepare :
      (P → Option (List ℕ)) → (List ℕ → P) → Bool → String → ℕ → Message P → Message P
  unfolding fill_fields with_payload with_checksum
  prepare marshal embed enabled fresh_id now m =
      let filled = fill_fields fresh_id now m in
      let packed =
        if enabled && filled.compressed
        then with_payload embed (compressed_by (marshal filled.payload)) filled
        else filled in
      with_checksum (marshal packed.payload) packed

  -- Publish of a message that is prepared, with the milliseconds that it took.
  unfoldable pub publish_prepared :
      World → ℕ → Message P → EnhancedMessageBus P → EnhancedMessageBus P × Option BusError
  unfolding store_message count_published count_routed count_latency route_message
  publish_prepared w ms m b =
      let result = route_message w m b in
      (
        record b {
          store = store_message m b.store;
          metrics = count_latency ms (count_routed result (count_published b.metrics));
        },
        result,
      )

  unfoldable pub publish :
      (P → Option (List ℕ))
      → (List ℕ → P)
      → World
      → String
      → ℕ
      → ℕ
      → Message P
      → EnhancedMessageBus P
      → EnhancedMessageBus P × Option BusError
  unfolding publish_prepared prepare
  publish marshal embed w fresh_id now ms m b =
      publish_prepared w ms (prepare marshal embed b.compression_enabled fresh_id now m) b
