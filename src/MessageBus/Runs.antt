-- ===== src/MessageBus/Runs.antt =====
-- core/bus/enhanced_message_bus.go: runs of calls of a bus, and which subscriptions a message reaches.
use muxcore.Common.{
  ℕ, String, ◌≡◌, refl, ap, subst, ◌∙◌, inl, inr, Bool, Option, none, some, List, [], ◌∷◌, map,
  arith, leb, if◌then◌else◌, Bool-cases, length, if_either,
}
use muxcore.Common.Dict.{Dict, lookup, insert-Distinct}
use muxcore.Common.Keys.{string_key, number_key}
use muxcore.Common.Int.{ℤ}
use muxcore.MessageBus.{Message}
use muxcore.MessageBus.Bus.{
  Subscription, EnhancedMessageBus, BusError, World, subscription_id, new_bus, register_connection,
  unregister_connection, subscribe, unsubscribe, cleanup, close_bus, update_metrics,
}
use muxcore.Common.Counts.{times}
use muxcore.MessageBus.Bus.Topics.{listed, ids_of}
use muxcore.MessageBus.Bus.Invariant.{Inv, Named, entry, subscribe_found-Inv, unsubscribe_found-Inv}
use muxcore.MessageBus.Bus.Calls.{remove_inactive-Inv, close_found-Inv, Owned-insert}
use muxcore.MessageBus.Delivery.{
  add_target, targets, targets_found, targets_of, publish_prepared, publish, is_target,
}

pub data BusOp (P : Type 0) : Type 0 where
  register_op : String → ℕ → BusOp P
  unregister_op : String → BusOp P
  subscribe_op :
      String
      → String
      → Option (Message P → Option ℕ)
      → Option (Message P → Bool)
      → ℕ
      → String
      → BusOp P
  unsubscribe_op : String → BusOp P
  publish_op : World → String → ℕ → ℕ → Message P → BusOp P
  cleanup_op : World → ℕ → BusOp P
  metrics_op : BusOp P
  close_op : BusOp P

module _ {P : Type 0} where
  -- The id of a new subscription is not in use.
  unfoldable pub IsFresh : BusOp P → EnhancedMessageBus P → Type 0
  IsFresh (register_op id conn) b = Unit
  IsFresh (unregister_op id) b = Unit
  IsFresh (subscribe_op conn_id topic handler filter now stamp) b =
      lookup (subscription_id conn_id topic stamp) b.subscriptions ≡ none
  IsFresh (unsubscribe_op id) b = Unit
  IsFresh (publish_op w fresh_id now ms m) b = Unit
  IsFresh (cleanup_op w now) b = Unit
  IsFresh metrics_op b = Unit
  IsFresh close_op b = Unit

  targets-times :
      (x : String) (ids : List String) (subs : Dict String (Subscription P))
      → ((y : String) → Named y (lookup y subs))
      → times x (map (λ (s : Subscription P). s.id) (targets ids subs))
        ≡ (if is_target (lookup x subs) then times x ids else 0)
  unfolding targets times is_target add_target
  targets-times x [] subs named = ground arith
  targets-times x (id ∷ ids) subs named = one (lookup id subs) refl (targets-times x ids subs named)
    where
      one :
          (o : Option (Subscription P))
          → lookup id subs ≡ o
          → times x (map (λ (s : Subscription P). s.id) (targets ids subs))
            ≡ (if is_target (lookup x subs) then times x ids else 0)
          → times x (map (λ (s : Subscription P). s.id) (add_target o (targets ids subs)))
            ≡ (if is_target (lookup x subs) then times x (id ∷ ids) else 0)
      one none found rest = elim (Bool-cases (string_key.test id x)) [
        | inl same ↦
            let here =
              ap (λ (y : String). is_target (lookup y subs)) ((string_key.test_iff id x).0 same) in
            ground (arith, found)
        | inr other ↦ ground arith
      ]
      one (some s) found rest =
          let named_id : s.id ≡ id = subst (Named id) found (named id) in
          let same_test = ap (λ (y : String). string_key.test y x) named_id in
          elim (Bool-cases (string_key.test id x)) [
            | inl same ↦
                let here =
                  ap (λ (y : String). is_target (lookup y subs))
                    ((string_key.test_iff id x).0 same) in
                ground (arith, found)
            | inr other ↦ ground arith
          ]

  module _ (marshal : P → Option (List ℕ)) (embed : List ℕ → P) where
    unfoldable pub step : BusOp P → EnhancedMessageBus P → EnhancedMessageBus P
    unfolding register_connection unregister_connection subscribe unsubscribe publish cleanup
        update_metrics close_bus
    step (register_op id conn) b = (register_connection id conn b).0
    step (unregister_op id) b = unregister_connection id b
    step (subscribe_op conn_id topic handler filter now stamp) b =
        (subscribe conn_id topic handler filter now stamp b).0
    step (unsubscribe_op id) b = (unsubscribe id b).0
    step (publish_op w fresh_id now ms m) b = (publish marshal embed w fresh_id now ms m b).0
    step (cleanup_op w now) b = cleanup w now b
    step metrics_op b = update_metrics b
    step close_op b = close_bus b

    unfoldable pub run : List (BusOp P) → EnhancedMessageBus P → EnhancedMessageBus P
    unfolding step
    run [] b = b
    run (o ∷ l) b = run l (step o b)

    unfoldable pub AreFresh : List (BusOp P) → EnhancedMessageBus P → Type 0
    unfolding IsFresh step
    AreFresh [] b = Unit
    AreFresh (o ∷ l) b = IsFresh o b × AreFresh l (step o b)

    publish_prepared-Inv :
        (w : World) (ms : ℕ) (m : Message P) (b : EnhancedMessageBus P)
        → Inv b
        → Inv (publish_prepared w ms m b).0
    unfolding publish_prepared
    publish_prepared-Inv w ms m b v = record {
      core = v.core;
      owned = v.owned;
      conns_distinct = v.conns_distinct;
    }

    step-Inv : (o : BusOp P) (b : EnhancedMessageBus P) → IsFresh o b → Inv b → Inv (step o b)
    unfolding step IsFresh register_connection unregister_connection subscribe unsubscribe publish
        cleanup update_metrics close_bus
    step-Inv (register_op id conn) b fresh v =
        if_either (λ (r : EnhancedMessageBus P × Option BusError). Inv r.0)
          (leb b.max_connections (length b.connections)) v
          (record {
            core = v.core;
            owned = λ x. Owned-insert id conn b.connections (lookup x b.subscriptions) (v.owned x);
            conns_distinct = insert-Distinct id conn b.connections v.conns_distinct;
          })
    step-Inv (unregister_op id) b fresh v = close_found-Inv (lookup id b.connections) id b v
    step-Inv (subscribe_op conn_id topic handler filter now stamp) b fresh v =
        subscribe_found-Inv (lookup conn_id b.connections) _ b refl fresh v
    step-Inv (unsubscribe_op id) b fresh v =
        unsubscribe_found-Inv (lookup id b.subscriptions) id b refl v
    step-Inv (publish_op w fresh_id now ms m) b fresh v = publish_prepared-Inv w ms _ b v
    step-Inv (cleanup_op w now) b fresh v =
        remove_inactive-Inv w b.connections _
          (record { core = v.core; owned = v.owned; conns_distinct = v.conns_distinct })
    step-Inv metrics_op b fresh v = record {
      core = v.core;
      owned = v.owned;
      conns_distinct = v.conns_distinct;
    }
    step-Inv close_op b fresh v = record {
      core = v.core;
      owned = v.owned;
      conns_distinct = v.conns_distinct;
    }

    run-Inv-from :
        (ops : List (BusOp P)) (b : EnhancedMessageBus P) → AreFresh ops b → Inv b → Inv (run ops b)
    unfolding run AreFresh
    run-Inv-from [] b fresh v = v
    run-Inv-from (o ∷ l) b (fresh, rest) v = run-Inv-from l (step o b) rest (step-Inv o b fresh v)

    new_bus-Inv : (most : ℕ) (retries : ℤ) (packs : Bool) → Inv (new_bus {P = P} most retries packs)
    unfolding new_bus listed times lookup
    new_bus-Inv most retries packs = record {
      core = record {
        distinct = tt;
        counted = λ x t. refl;
        named = λ x. tt;
        filled = λ t e. absurd (cc);
      };
      owned = λ x. tt;
      conns_distinct = tt;
    }

    -- After any run of calls on a new bus, in which no two subscriptions get the same id, the id of a
    -- subscription stands once in the list of its topic and in no other list, no list of a topic is empty,
    -- a subscription has the id under which it is stored, and its connection is registered.
    pub run_bus-Inv :
        (most : ℕ) (retries : ℤ) (packs : Bool) (ops : List (BusOp P))
        → AreFresh ops (new_bus most retries packs)
        → Inv (run ops (new_bus most retries packs))
    run_bus-Inv most retries packs ops fresh =
        run-Inv-from ops _ fresh (new_bus-Inv most retries packs)

    targets_found-times :
        (x : String) (o : Option (List String)) (subs : Dict String (Subscription P))
        → ((y : String) → Named y (lookup y subs))
        → times x (map (λ (s : Subscription P). s.id) (targets_found o subs))
          ≡ (if is_target (lookup x subs) then times x (ids_of o) else 0)
    unfolding targets_found times
    targets_found-times x none subs named = ground arith
    targets_found-times x (some ids) subs named = targets-times x ids subs named

    Inv-targets :
        (m : Message P) (x : String) (b : EnhancedMessageBus P)
        → Inv b
        → times x (map (λ (s : Subscription P). s.id) (targets_of m b)) ≡ (
            if is_target (lookup x b.subscriptions)
            then entry m.topic (lookup x b.subscriptions)
            else 0)
    unfolding targets_of listed
    Inv-targets m x b v =
        targets_found-times x (lookup m.topic b.topic_subs) b.subscriptions v.core.named
        ∙ ap (λ (n : ℕ). if is_target (lookup x b.subscriptions) then n else 0)
            (v.core.counted x m.topic)

    -- After any run of calls on a new bus, in which no two subscriptions get the same id, a message goes to
    -- every active subscription to its topic once, and to no other.
    pub targets_once :
        (most : ℕ) (retries : ℤ) (packs : Bool) (ops : List (BusOp P)) (m : Message P) (x : String)
        → AreFresh ops (new_bus most retries packs)
        → let b = run ops (new_bus most retries packs) in
          times x (map (λ (s : Subscription P). s.id) (targets_of m b)) ≡ (
            if is_target (lookup x b.subscriptions)
            then entry m.topic (lookup x b.subscriptions)
            else 0)
    targets_once most retries packs ops m x fresh =
        Inv-targets m x _ (run_bus-Inv most retries packs ops fresh)
