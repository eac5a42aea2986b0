-- ===== src/MessageBus/Bus/Invariant.antt =====
-- core/bus/enhanced_message_bus.go: what holds of the connections, the subscriptions and the topics of a bus
-- between any two calls.
use muxcore.Common.{
  ℕ, String, ◌≡◌, refl, sym, subst, ◌∙◌, ◌≢◌, inl, inr, Option, none, some, List, [], ◌∷◌, arith,
  if◌then◌else◌, Bool-cases, All, if_either, if_cases,
}
use muxcore.Common.Dict.{
  Dict, lookup, delete, Distinct, lookup-insert, lookup-delete, delete-Distinct, insert-Distinct,
}
use muxcore.Common.Keys.{string_key, number_key}
use muxcore.MessageBus.Bus.{
  Subscription, EnhancedMessageBus, add_subscription_to_topic, remove_subscription,
  remove_subscriptions_of, subscribe_found, unsubscribe_found,
}
use muxcore.MessageBus.Bus.Topics.{
  remove_from_found-filled, with_id-filled, insert-filled, listed, listed-add, listed-remove,
}

module _ {P : Type 0} where
  -- 1 for a subscription to the topic.
  abbrev pub entry : String → Option (Subscription P) → ℕ
  entry topic none = 0
  entry topic (some s) = if string_key.test s.topic topic then 1 else 0

  -- A subscription has the id under which it stands.
  abbrev pub Named : String → Option (Subscription P) → Type 0
  Named x none = Unit
  Named x (some s) = s.id ≡ x

  -- The connection of a subscription is registered.
  abbrev pub Owned : Dict String ℕ → Option (Subscription P) → Type 0
  Owned conns none = Unit
  Owned conns (some s) = lookup s.connection_id conns ≢ none

  -- An id stands once in the list of its subscription's topic, and nowhere else; no list is empty.
  pub record Core (subs : Dict String (Subscription P)) (topics : Dict String (List String))
      : Type 0 where
    pub distinct : Distinct subs
    pub counted : (x t : String) → listed x t topics ≡ entry t (lookup x subs)
    pub named : (x : String) → Named x (lookup x subs)
    pub filled : (t : String) → lookup t topics ≢ some []

  abbrev pub AllOwned : Dict String ℕ → Dict String (Subscription P) → Type 0
  AllOwned conns subs = (x : String) → Owned conns (lookup x subs)

  pub record Inv (b : EnhancedMessageBus P) : Type 0 where
    pub core : Core b.subscriptions b.topic_subs
    pub owned : AllOwned b.connections b.subscriptions
    pub conns_distinct : Distinct b.connections

  -- What becomes of the entry of x when id is deleted or put.
  Named-delete :
      (x id : String) (subs : Dict String (Subscription P))
      → Named x (lookup x subs)
      → Named x (lookup x (delete id subs))
  Named-delete x id subs h =
      subst (Named x) (sym (lookup-delete id x subs))
        (if_either (Named x) (string_key.test id x) tt h)

  remove_subscription-Core :
      (id : String) (s : Subscription P) (b : EnhancedMessageBus P)
      → lookup id b.subscriptions ≡ some s
      → Core b.subscriptions b.topic_subs
      → Core (remove_subscription id s b).subscriptions (remove_subscription id s b).topic_subs
  unfolding remove_subscription
  remove_subscription-Core id s b found v = record {
    distinct = delete-Distinct id b.subscriptions v.distinct;
    counted = λ x t. ground (
      arith,
      string_key.test_iff id x,
      v.counted x t,
      listed-remove x s.topic t id b.topic_subs,
      lookup-delete id x b.subscriptions,
    );
    named = λ x. Named-delete x id b.subscriptions (v.named x);
    filled = λ t.
        remove_from_found-filled s.topic t id b.topic_subs (lookup s.topic b.topic_subs)
          (v.filled t);
  }

  pub subscribe_found-Inv :
      (conn : Option ℕ) (s : Subscription P) (b : EnhancedMessageBus P)
      → lookup s.connection_id b.connections ≡ conn
      → lookup s.id b.subscriptions ≡ none
      → Inv b
      → Inv (subscribe_found conn s b).0
  unfolding subscribe_found add_subscription_to_topic
  subscribe_found-Inv none s b found fresh v = v
  subscribe_found-Inv (some conn) s b found fresh v =
      let id = s.id in
      record {
        core = record {
          distinct = insert-Distinct id s b.subscriptions v.core.distinct;
          counted = λ x t. ground (
            arith,
            string_key.test_iff id x,
            v.core.counted x t,
            listed-add x s.topic t id b.topic_subs,
            lookup-insert id x s b.subscriptions,
          );
          named = λ x. subst (Named x) (sym (lookup-insert id x s b.subscriptions)) (
              if_cases (Named x) (string_key.test id x) (λ h. (string_key.test_iff id x).0 h)
                (λ _. v.core.named x));
          filled = λ t.
              insert-filled s.topic t _ b.topic_subs
                (with_id-filled (lookup s.topic b.topic_subs) id) (v.core.filled t);
        };
        owned = λ x. subst (Owned b.connections) (sym (lookup-insert id x s b.subscriptions)) (
            if_either (Owned b.connections) (string_key.test id x) (λ gone. absurd (cc))
              (v.owned x));
        conns_distinct = v.conns_distinct;
      }

  pub unsubscribe_found-Inv :
      (o : Option (Subscription P)) (id : String) (b : EnhancedMessageBus P)
      → lookup id b.subscriptions ≡ o
      → Inv b
      → Inv (unsubscribe_found o id b).0
  unfolding unsubscribe_found remove_subscription
  unsubscribe_found-Inv none id b found v = v
  unsubscribe_found-Inv (some s) id b found v = record {
    core = remove_subscription-Core id s b found v.core;
    owned = λ x.
        subst (Owned b.connections) (sym (lookup-delete id x b.subscriptions))
          (if_either (Owned b.connections) (string_key.test id x) tt (v.owned x));
    conns_distinct = v.conns_distinct;
  }

  -- The subscriptions that are still to be visited are in the bus as they were.
  abbrev pub Agrees : Dict String (Subscription P) → Dict String (Subscription P) → Type 0
  Agrees rest subs = All (λ (e : String × Subscription P). lookup e.0 subs ≡ some e.1) rest

  Agrees-delete :
      (id : String) (rest subs : Dict String (Subscription P))
      → lookup id rest ≡ none
      → Agrees rest subs
      → Agrees rest (delete id subs)
  unfolding lookup
  Agrees-delete id [] subs absent h = tt
  Agrees-delete id ((k, s) ∷ rest) subs absent (e, h) = elim (Bool-cases (string_key.test k id)) [
    | inl same ↦ absurd (ground arith)
    | inr other ↦ (
      ground (arith, string_key.test_iff k id, string_key.test_iff id k, lookup-delete id k subs),
      Agrees-delete id rest subs (ground arith) h,
    )
  ]

  Agrees-remove :
      (id : String) (s : Subscription P) (rest : Dict String (Subscription P))
      (b : EnhancedMessageBus P)
      → lookup id rest ≡ none
      → Agrees rest b.subscriptions
      → Agrees rest (remove_subscription id s b).subscriptions
  unfolding remove_subscription
  Agrees-remove id s rest b absent h = Agrees-delete id rest b.subscriptions absent h

  pub remove_subscriptions_of-Core :
      (c : String) (rest : Dict String (Subscription P)) (b : EnhancedMessageBus P)
      → Distinct rest
      → Agrees rest b.subscriptions
      → Core b.subscriptions b.topic_subs
      → let b' = remove_subscriptions_of c rest b in Core b'.subscriptions b'.topic_subs
  unfolding remove_subscriptions_of
  remove_subscriptions_of-Core c [] b d h v = v
  remove_subscriptions_of-Core c ((id, s) ∷ rest) b (absent, d) (found, h) v =
      let next =
        if_either
          (λ (b' : EnhancedMessageBus P).
            Agrees rest b'.subscriptions × Core b'.subscriptions b'.topic_subs)
          (string_key.test s.connection_id c) (removed found v h) (h, v) in
      remove_subscriptions_of-Core c rest _ d next.0 next.1
    where
      removed :
          lookup id b.subscriptions ≡ some s
          → Core b.subscriptions b.topic_subs
          → Agrees rest b.subscriptions
          → Agrees rest (remove_subscription id s b).subscriptions
            × Core
                (remove_subscription id s b).subscriptions
                (remove_subscription id s b).topic_subs
      removed found v h =
          (Agrees-remove id s rest b absent h, remove_subscription-Core id s b found v)

  pub connections-remove_subscriptions_of :
      (c : String) (rest : Dict String (Subscription P)) (b : EnhancedMessageBus P)
      → (remove_subscriptions_of c rest b).connections ≡ b.connections
  unfolding remove_subscriptions_of remove_subscription
  connections-remove_subscriptions_of c [] b = refl
  connections-remove_subscriptions_of c ((id, s) ∷ rest) b =
      connections-remove_subscriptions_of c rest _
      ∙ if_either (λ (b' : EnhancedMessageBus P). b'.connections ≡ b.connections)
          (string_key.test s.connection_id c) refl refl

  -- What is left of the entry that a visited subscription has.
  abbrev pub survivor :
      String → Option (Subscription P) → Option (Subscription P) → Option (Subscription P)
  survivor c none o = o
  survivor c (some s) o = if string_key.test s.connection_id c then none else o

  pub lookup-remove_subscriptions_of :
      (c x : String) (rest : Dict String (Subscription P)) (b : EnhancedMessageBus P)
      → Distinct rest
      → lookup x (remove_subscriptions_of c rest b).subscriptions
        ≡ survivor c (lookup x rest) (lookup x b.subscriptions)
  unfolding remove_subscriptions_of remove_subscription lookup
  lookup-remove_subscriptions_of c x [] b d = refl
  lookup-remove_subscriptions_of c x ((id, s) ∷ rest) b (absent, d) =
      lookup-remove_subscriptions_of c x rest _ d
      ∙ if_cases
          (λ (b' : EnhancedMessageBus P).
            survivor c (lookup x rest) (lookup x b'.subscriptions)
            ≡ survivor c (lookup x ((id, s) ∷ rest)) (lookup x b.subscriptions))
          (string_key.test s.connection_id c)
          (λ own. ground (arith, string_key.test_iff id x, lookup-delete id x b.subscriptions))
          (λ other. ground (arith, string_key.test_iff id x))
