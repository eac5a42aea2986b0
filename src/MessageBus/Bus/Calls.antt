-- ===== src/MessageBus/Bus/Calls.antt =====
-- core/bus/enhanced_message_bus.go: the removal of connections.
use muxcore.Common.{
  ℕ, String, ◌≡◌, refl, sym, ap, subst, ◌∙◌, inl, inr, Option, none, some, List, [], ◌∷◌, arith,
  Bool-cases, if_either, if_cases,
}
use muxcore.Common.Dict.{
  Dict, lookup, insert, delete, Distinct, lookup-insert, lookup-delete, delete-Distinct,
}
use muxcore.Common.Keys.{string_key, number_key}
use muxcore.MessageBus.Bus.{
  Subscription, EnhancedMessageBus, World, remove_subscriptions_of, close_connection, close_found,
  remove_inactive,
}
use muxcore.MessageBus.Bus.Invariant.{
  Inv, Core, Owned, Agrees, survivor, remove_subscriptions_of-Core,
  connections-remove_subscriptions_of, lookup-remove_subscriptions_of,
}

module _ {P : Type 0} where
  Agrees-cons :
      (k : String) (v : Subscription P) (rest subs : Dict String (Subscription P))
      → lookup k rest ≡ none
      → Agrees rest subs
      → Agrees rest ((k, v) ∷ subs)
  unfolding lookup
  Agrees-cons k v [] subs absent h = tt
  Agrees-cons k v ((j, s) ∷ rest) subs absent (e, h) = elim (Bool-cases (string_key.test j k)) [
    | inl same ↦ absurd (ground arith)
    | inr other ↦ (
      ground (arith, string_key.test_iff j k, string_key.test_iff k j),
      Agrees-cons k v rest subs (ground arith) h,
    )
  ]

  Agrees-refl : (subs : Dict String (Subscription P)) → Distinct subs → Agrees subs subs
  unfolding lookup
  Agrees-refl [] d = tt
  Agrees-refl ((k, s) ∷ rest) (absent, d) = (
    ground (arith, string_key.test_iff k k),
    Agrees-cons k s rest rest absent (Agrees-refl rest d),
  )

  -- A connection that is gone leaves no subscription behind.
  Owned-survivor :
      (c : String) (conns : Dict String ℕ) (o : Option (Subscription P))
      → Owned conns o
      → Owned (delete c conns) (survivor c o o)
  Owned-survivor c conns none h = tt
  Owned-survivor c conns (some s) h =
      if_cases (Owned (delete c conns)) (string_key.test s.connection_id c) (λ _. tt)
        (λ other gone. h (
          ground (
            arith,
            string_key.test_iff c s.connection_id,
            string_key.test_iff s.connection_id c,
            lookup-delete c s.connection_id conns,
          )))

  Owned-same :
      (c : String) (conns : Dict String ℕ) (o : Option (Subscription P))
      → Owned conns o
      → Owned conns (survivor c o o)
  Owned-same c conns none h = tt
  Owned-same c conns (some s) h = if_either (Owned conns) (string_key.test s.connection_id c) tt h

  -- The loop over all subscriptions, in a bus with other connections.
  removed-Inv :
      (id : String) (b b' : EnhancedMessageBus P)
      → Inv b
      → b'.subscriptions ≡ b.subscriptions
      → b'.topic_subs ≡ b.topic_subs
      → Distinct b'.connections
      → ((o : Option (Subscription P))
          → Owned b.connections o
          → Owned b'.connections (survivor id o o))
      → Inv (remove_subscriptions_of id b.subscriptions b')
  removed-Inv id b b' v same_subs same_topics d owned =
      let agrees =
        subst (Agrees b.subscriptions) (sym same_subs)
          (Agrees-refl b.subscriptions v.core.distinct) in
      let core =
        subst (λ (t : Dict String (List String)). Core b'.subscriptions t) (sym same_topics)
          (subst (λ (l : Dict String (Subscription P)). Core l b.topic_subs) (sym same_subs)
            v.core) in
      let same_conns = connections-remove_subscriptions_of id b.subscriptions b' in
      record {
        core = remove_subscriptions_of-Core id b.subscriptions b' v.core.distinct agrees core;
        owned = λ x.
            subst
              (λ (m : Dict String ℕ).
                Owned m (lookup x (remove_subscriptions_of id b.subscriptions b').subscriptions))
              (sym same_conns)
              (subst (Owned b'.connections)
                (sym (
                  lookup-remove_subscriptions_of id x b.subscriptions b' v.core.distinct
                  ∙ ap
                      (λ (l : Dict String (Subscription P)).
                        survivor id (lookup x b.subscriptions) (lookup x l))
                      same_subs))
                (owned (lookup x b.subscriptions) (v.owned x)));
        conns_distinct = subst (λ (m : Dict String ℕ). Distinct m) (sym same_conns) d;
      }

  close_connection-Inv :
      (id : String) (conn : ℕ) (b : EnhancedMessageBus P)
      → Inv b
      → Inv (remove_subscriptions_of id b.subscriptions (close_connection id conn b))
  unfolding close_connection
  close_connection-Inv id conn b v =
      removed-Inv id b (close_connection id conn b) v refl refl
        (delete-Distinct id b.connections v.conns_distinct) (Owned-survivor id b.connections)

  pub close_found-Inv :
      (o : Option ℕ) (id : String) (b : EnhancedMessageBus P)
      → Inv b
      → Inv (remove_subscriptions_of id b.subscriptions (close_found o id b))
  unfolding close_found
  close_found-Inv none id b v =
      removed-Inv id b b v refl refl v.conns_distinct (Owned-same id b.connections)
  close_found-Inv (some conn) id b v = close_connection-Inv id conn b v

  pub remove_inactive-Inv :
      (w : World) (rest : Dict String ℕ) (b : EnhancedMessageBus P)
      → Inv b
      → Inv (remove_inactive w rest b)
  unfolding remove_inactive
  remove_inactive-Inv w [] b v = v
  remove_inactive-Inv w ((id, conn) ∷ rest) b v =
      remove_inactive-Inv w rest _
        (if_either Inv (w.is_active conn) v (close_connection-Inv id conn b v))

  pub Owned-insert :
      (id : String) (conn : ℕ) (conns : Dict String ℕ) (o : Option (Subscription P))
      → Owned conns o
      → Owned (insert id conn conns) o
  Owned-insert id conn conns none h = tt
  Owned-insert id conn conns (some s) h =
      λ gone. h (ground (arith, lookup-insert id s.connection_id conn conns))
