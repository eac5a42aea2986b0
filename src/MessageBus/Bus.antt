-- ===== src/MessageBus/Bus.antt =====
-- core/bus/enhanced_message_bus.go: EnhancedMessageBus with its in-memory store. A Connection is a number; `closed`
-- lists what its Close was called on. Whether it is active, which attempts of Send it takes, and when the context
-- is done are the parameter World. A handler answers with the number of its error, or none. Times and the
-- ids that generateID gives are arguments. A negative maximum of connections acts as 0.
pub mod Topics
pub mod Invariant
pub mod Calls
use muxcore.Common.{
  ℕ, ◌-◌, String, Bool, true, Option, none, some, List, [], ◌∷◌, ◌++◌, map, ltb, leb, if◌then◌else◌,
  length,
}
use muxcore.Common.Dict.{Dict, lookup, insert, delete}
use muxcore.Common.Keys.{string_key, number_key}
use muxcore.Common.Int.{ℤ}
use muxcore.Common.Text.{joined}
use muxcore.Common.Counts.{remove_first}
use muxcore.MessageBus.{Message}

pub record Subscription (P : Type 0) : Type 0 where
  pub id : String
  pub topic : String
  pub connection_id : String
  pub handler : Option (Message P → Option ℕ)
  pub filter : Option (Message P → Bool)
  pub created_at : ℕ
  pub active : Bool

pub record BusMetrics : Type 0 where
  pub messages_published : ℕ
  pub messages_delivered : ℕ
  pub messages_failed : ℕ
  pub active_connections : ℕ
  pub active_subscriptions : ℕ
  pub total_latency : ℕ

pub record EnhancedMessageBus (P : Type 0) : Type 0 where
  pub connections : Dict String ℕ
  pub subscriptions : Dict String (Subscription P)
  pub topic_subs : Dict String (List String)
  pub store : Dict String (Message P)
  pub metrics : BusMetrics
  pub closed : List ℕ
  pub max_connections : ℕ
  pub retry_attempts : ℤ
  pub compression_enabled : Bool

pub data BusError : Type 0 where
  max_connections_reached : BusError
  connection_not_found : String → BusError
  subscription_not_found : String → BusError
  message_not_found : String → BusError
  handler_failed : ℕ → BusError
  context_done : BusError
  send_failed : BusError
  routing_failed : ℕ → BusError
  broadcast_failed : ℕ → BusError

-- What the source does not decide: IsActive, the outcome of each attempt of Send, and whether the context is
-- done when an attempt waits.
pub record World : Type 0 where
  pub is_active : ℕ → Bool
  pub accepts : ℕ → ℕ → Bool
  pub done_before : ℕ → Bool

abbrev pub zero_metrics : BusMetrics
zero_metrics = record {
  messages_published = 0;
  messages_delivered = 0;
  messages_failed = 0;
  active_connections = 0;
  active_subscriptions = 0;
  total_latency = 0;
}

-- The id that Subscribe makes, where stamp is the time in decimal.
unfoldable pub subscription_id : String → String → String → String
unfolding joined
subscription_id conn_id topic stamp = joined conn_id (joined topic stamp)

-- The list of a topic with one more id.
unfoldable pub with_id : Option (List String) → String → List String
with_id none id = id ∷ []
with_id (some subs) id = subs ++ id ∷ []

unfoldable pub add_subscription_to_topic :
    String → String → Dict String (List String) → Dict String (List String)
unfolding with_id
add_subscription_to_topic topic id m = insert topic (with_id (lookup topic m) id) m

-- A topic without subscriptions is deleted.
unfoldable pub put_topic :
    String → List String → Dict String (List String) → Dict String (List String)
put_topic topic [] m = delete topic m
put_topic topic (x ∷ l) m = insert topic (x ∷ l) m

unfoldable pub remove_from_found :
    Option (List String) → String → String → Dict String (List String) → Dict String (List String)
unfolding put_topic remove_first
remove_from_found none topic id m = m
remove_from_found (some subs) topic id m = put_topic topic (remove_first id subs) m

unfoldable pub remove_subscription_from_topic :
    String → String → Dict String (List String) → Dict String (List String)
unfolding remove_from_found
remove_subscription_from_topic topic id m = remove_from_found (lookup topic m) topic id m

module _ {P : Type 0} where
  -- NewEnhancedMessageBus, with the values of its configuration.
  unfoldable pub new_bus : ℕ → ℤ → Bool → EnhancedMessageBus P
  new_bus max_connections retry_attempts compression_enabled = record {
    connections = [];
    subscriptions = [];
    topic_subs = [];
    store = [];
    metrics = zero_metrics;
    closed = [];
    max_connections = max_connections;
    retry_attempts = retry_attempts;
    compression_enabled = compression_enabled;
  }

  unfoldable pub register_connection :
      String → ℕ → EnhancedMessageBus P → EnhancedMessageBus P × Option BusError
  register_connection id conn b =
      if leb b.max_connections (length b.connections)
      then (b, some max_connections_reached)
      else (record b { connections = insert id conn b.connections }, none)

  unfoldable pub remove_subscription :
      String → Subscription P → EnhancedMessageBus P → EnhancedMessageBus P
  unfolding remove_subscription_from_topic
  remove_subscription id sub b = record b {
    topic_subs = remove_subscription_from_topic sub.topic id b.topic_subs;
    subscriptions = delete id b.subscriptions;
  }

  -- The loop over the subscriptions that removes those of a connection.
  unfoldable pub remove_subscriptions_of :
      String → Dict String (Subscription P) → EnhancedMessageBus P → EnhancedMessageBus P
  unfolding remove_subscription
  remove_subscriptions_of conn_id [] b = b
  remove_subscriptions_of conn_id ((id, sub) ∷ rest) b =
      remove_subscriptions_of conn_id rest
        (if string_key.test sub.connection_id conn_id then remove_subscription id sub b else b)

  -- The connection is closed and deleted.
  unfoldable pub close_connection : String → ℕ → EnhancedMessageBus P → EnhancedMessageBus P
  close_connection id conn b = record b {
    connections = delete id b.connections;
    closed = b.closed ++ conn ∷ [];
  }

  unfoldable pub close_found : Option ℕ → String → EnhancedMessageBus P → EnhancedMessageBus P
  unfolding close_connection
  close_found none id b = b
  close_found (some conn) id b = close_connection id conn b

  unfoldable pub unregister_connection : String → EnhancedMessageBus P → EnhancedMessageBus P
  unfolding close_found remove_subscriptions_of
  unregister_connection id b =
      remove_subscriptions_of id b.subscriptions (close_found (lookup id b.connections) id b)

  unfoldable pub subscribe_found :
      Option ℕ
      → Subscription P
      → EnhancedMessageBus P
      → EnhancedMessageBus P × (String × Option BusError)
  unfolding add_subscription_to_topic
  subscribe_found none sub b = (b, ("", some (connection_not_found sub.connection_id)))
  subscribe_found (some conn) sub b = (
    record b {
      subscriptions = insert sub.id sub b.subscriptions;
      topic_subs = add_subscription_to_topic sub.topic sub.id b.topic_subs;
    },
    (sub.id, none),
  )

  unfoldable pub subscribe :
      String
      → String
      → Option (Message P → Option ℕ)
      → Option (Message P → Bool)
      → ℕ
      → String
      → EnhancedMessageBus P
      → EnhancedMessageBus P × (String × Option BusError)
  unfolding subscribe_found subscription_id
  subscribe conn_id topic handler filter now stamp b =
      subscribe_found (lookup conn_id b.connections)
        (record {
          id = subscription_id conn_id topic stamp;
          topic = topic;
          connection_id = conn_id;
          handler = handler;
          filter = filter;
          created_at = now;
          active = true;
        })
        b

  unfoldable pub unsubscribe_found :
      Option (Subscription P)
      → String
      → EnhancedMessageBus P
      → EnhancedMessageBus P × Option BusError
  unfolding remove_subscription
  unsubscribe_found none id b = (b, some (subscription_not_found id))
  unsubscribe_found (some sub) id b = (remove_subscription id sub b, none)

  unfoldable pub unsubscribe :
      String → EnhancedMessageBus P → EnhancedMessageBus P × Option BusError
  unfolding unsubscribe_found
  unsubscribe id b = unsubscribe_found (lookup id b.subscriptions) id b

  -- InMemoryMessageStore.Cleanup.
  unfoldable pub cleanup_store : ℕ → Dict String (Message P) → Dict String (Message P)
  cleanup_store before [] = []
  cleanup_store before ((id, m) ∷ s) =
      let rest = cleanup_store before s in if ltb m.timestamp before then rest else (id, m) ∷ rest

  -- The loop of cleanup over the connections.
  unfoldable pub remove_inactive :
      World → Dict String ℕ → EnhancedMessageBus P → EnhancedMessageBus P
  unfolding close_connection remove_subscriptions_of
  remove_inactive w [] b = b
  remove_inactive w ((id, conn) ∷ rest) b = remove_inactive w rest (
      if w.is_active conn
      then b
      else remove_subscriptions_of id b.subscriptions (close_connection id conn b))

  -- Messages are kept for 24 hours.
  unfoldable pub cleanup : World → ℕ → EnhancedMessageBus P → EnhancedMessageBus P
  unfolding cleanup_store remove_inactive
  cleanup w now b =
      remove_inactive w b.connections
        (record b { store = cleanup_store (now - 86400000000000) b.store })

  -- Close, which leaves the connections registered.
  unfoldable pub close_bus : EnhancedMessageBus P → EnhancedMessageBus P
  close_bus b = record b { closed = b.closed ++ map (λ (e : String × ℕ). e.1) b.connections }

  unfoldable pub update_metrics : EnhancedMessageBus P → EnhancedMessageBus P
  update_metrics b = record b {
    metrics = record b.metrics {
      active_connections = length b.connections;
      active_subscriptions = length b.subscriptions;
    };
  }
