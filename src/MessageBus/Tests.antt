-- ===== src/MessageBus/Tests.antt =====
-- Runs of the message bus.
use muxcore.Common.{
  ℕ, ◌%◌, String, ◌≡◌, refl, ◌↔◌, true, false, Option, none, some, List, [], ◌∷◌, map, ◌==◌,
  if◌then◌else◌, length, All,
}
use muxcore.Common.Dict.{lookup, insert, delete}
use muxcore.Common.Keys.{string_key, number_key}
use muxcore.Common.Int.{ℤ, pos, negsuc}
use muxcore.MessageBus.{Message, new_queue, get_partition}
use muxcore.MessageBus.Refinement.{
  QueueOp, enqueue_op, dequeue_op, peek_op, size_op, clear_op, message, number, done,
  run as run_queue, list_run, queue_refines,
}
use muxcore.MessageBus.Bus.{
  World, new_bus, send_failed, max_connections_reached, register_connection,
}
use muxcore.Common.Counts.{times}
use muxcore.MessageBus.Bus.Invariant.{Inv, entry}
use muxcore.MessageBus.Delivery.{targets_of, is_target, broadcast, send_with_retry}
use muxcore.MessageBus.Runs.{
  BusOp, register_op, unregister_op, subscribe_op, publish_op, cleanup_op, run, AreFresh,
  run_bus-Inv, targets_once,
}
use muxcore.MessageBus.Sends.{Owed, broadcast_iff}
use muxcore.MessageBus.Events.{EventBus}
use muxcore.MessageBus.Websocket

abbrev msg : String → String → ℤ → Message ℕ
msg id topic priority = record {
  id = id;
  type = "event";
  topic = topic;
  payload = 7;
  headers = [];
  metadata = [];
  timestamp = 0;
  source = "test";
  destination = "";
  correlation_id = "";
  reply_to = "";
  ttl = pos 0;
  priority = priority;
  delivery_mode = pos 0;
  retry_count = pos 0;
  max_retries = pos 0;
  partition_key = "";
  compressed = false;
  checksum = "";
}

abbrev low_first : List (QueueOp ℕ)
low_first =
    enqueue_op (msg "a" "t" (pos 0))
    ∷ enqueue_op (msg "b" "t" (negsuc 4))
    ∷ enqueue_op (msg "c" "t" (pos 3))
    ∷ peek_op
    ∷ dequeue_op
    ∷ size_op
    ∷ dequeue_op
    ∷ dequeue_op
    ∷ dequeue_op
    ∷ clear_op
    ∷ []

priorities_served :
    run_queue low_first new_queue
    ≡ done
      ∷ done
      ∷ done
      ∷ message (some (msg "c" "t" (pos 3)))
      ∷ message (some (msg "c" "t" (pos 3)))
      ∷ number 2
      ∷ message (some (msg "b" "t" (negsuc 4)))
      ∷ message (some (msg "a" "t" (pos 0)))
      ∷ message none
      ∷ done
      ∷ []
unfolding run_queue new_queue
priorities_served = refl

queue_refines_example : run_queue low_first new_queue ≡ list_run low_first []
queue_refines_example = queue_refines low_first

-- fnv.New32a of "a" is 0xE40C292C.
hashed : get_partition (msg "x" "a" (pos 1)) (pos 1000) ≡ 0xE40C292C % 1000
unfolding get_partition
hashed = refl

abbrev world : World
world = record {
  is_active = λ c. c == 1;
  accepts = λ c attempt. attempt == 1;
  done_before = λ attempt. false;
}

abbrev calls : List (BusOp ℕ)
calls =
    register_op "c" 1
    ∷ register_op "d" 2
    ∷ subscribe_op "c" "t" none none 5 "5"
    ∷ subscribe_op "d" "t" none none 6 "6"
    ∷ subscribe_op "d" "u" none none 7 "7"
    ∷ publish_op world "id" 8 1 (msg "" "t" (pos 0))
    ∷ unregister_op "d"
    ∷ cleanup_op world 9
    ∷ []

abbrev marshal : ℕ → Option (List ℕ)
marshal n = some (n ∷ [])

abbrev embed : List ℕ → ℕ
embed d = length d

calls-AreFresh : AreFresh marshal embed calls (new_bus 10 (pos 3) true)
unfolding AreFresh new_bus lookup insert
calls-AreFresh = (tt, (tt, (refl, (refl, (refl, (tt, (tt, (tt, tt))))))))

run_bus-Inv_example : Inv (run marshal embed calls (new_bus 10 (pos 3) true))
run_bus-Inv_example = run_bus-Inv marshal embed 10 (pos 3) true calls calls-AreFresh

targets_once_example :
    let b = run marshal embed calls (new_bus 10 (pos 3) true) in
    times "c_t_5" (map (λ s. s.id) (targets_of (msg "m" "t" (pos 1)) b)) ≡ (
      if is_target (lookup "c_t_5" b.subscriptions)
      then entry "t" (lookup "c_t_5" b.subscriptions)
      else 0)
targets_once_example =
    targets_once marshal embed 10 (pos 3) true calls (msg "m" "t" (pos 1)) "c_t_5" calls-AreFresh

reached :
    map
      (λ s. s.id)
      (targets_of (msg "m" "t" (pos 1)) (run marshal embed calls (new_bus 10 (pos 3) true)))
    ≡ "c_t_5" ∷ []
unfolding run targets_of new_bus lookup insert delete
reached = refl

broadcast_iff_example :
    let b = run marshal embed calls (new_bus 10 (pos 3) true) in
    (broadcast world "d" b ≡ none) ↔ All (Owed world "d" b.retry_attempts) b.connections
broadcast_iff_example = broadcast_iff world "d" (run marshal embed calls (new_bus 10 (pos 3) true))

second_attempt : send_with_retry world (pos 3) 1 ≡ none
unfolding send_with_retry
second_attempt = refl

no_attempt : send_with_retry world (negsuc 0) 1 ≡ some send_failed
unfolding send_with_retry
no_attempt = refl

full : (register_connection "c" 1 (new_bus {P = ℕ} 0 (pos 3) true)).1 ≡ some max_connections_reached
unfolding register_connection new_bus
full = refl

abbrev events : EventBus ℕ
events = record { subscriptions = ("up", ("x", 1) ∷ []) ∷ []; events_published = 0; started = [] }

abbrev sockets : Websocket.MessageBus
sockets = record { connections = ("a", 1) ∷ ("b", 2) ∷ ("c", 3) ∷ []; sent = [] }

one_taken : (Websocket.broadcast_message (λ c t. c == 3) "a" "hi" sockets).sent ≡ (3, "hi") ∷ []
unfolding Websocket.broadcast_message
one_taken = refl
