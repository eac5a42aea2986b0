-- ===== src/MessageBus/Events.antt =====
-- core/bus/enhanced_message_bus.go: events. A handler is a value of the type H; the handlers of an event run in
-- goroutines, and `started` lists those that PublishEvent starts. The ids are what generateID gives.
use mathlib.Core.Option.{some_inj}
use muxcore.Common.{
  ℕ, ◌+◌, ◌%◌, ◌^◌, String, ◌≡◌, refl, ap, ◌∙◌, ◌≢◌, Bool, true, false, Option, none, some, List,
  [], ◌∷◌, ◌++◌, map, arith, ◌==◌, if◌then◌else◌, All, if_either, if_cases,
}
use muxcore.Common.Dict.{delete-insert_new, Dict, lookup, insert, delete, lookup-insert}
use muxcore.Common.Keys.{string_key, number_key, same_refl}

pub record Event : Type 0 where
  pub id : String
  pub type : String
  pub timestamp : ℕ

pub record EventBus (H : Type 0) : Type 0 where
  pub subscriptions : Dict String (Dict String H)
  pub events_published : ℕ
  pub started : List (Event × H)

module _ {H : Type 0} where
  unfoldable pub handlers_of : Option (Dict String H) → Dict String H
  handlers_of none = []
  handlers_of (some hs) = hs

  -- SubscribeEvent; a nil map of a new type is made first.
  unfoldable pub subscribe_event : String → String → H → EventBus H → EventBus H
  unfolding handlers_of
  subscribe_event fresh_id type h b = record b {
    subscriptions =
        insert type (insert fresh_id h (handlers_of (lookup type b.subscriptions))) b.subscriptions;
  }

  -- The handlers of a type that has some left, or none.
  unfoldable pub put_handlers :
      String → Dict String H → Dict String (Dict String H) → Dict String (Dict String H)
  put_handlers type [] m = delete type m
  put_handlers type (e ∷ hs) m = insert type (e ∷ hs) m

  unfoldable pub or_type :
      Option H
      → String
      → Dict String H
      → Option (String × Dict String H)
      → Option (String × Dict String H)
  or_type none type hs rest = rest
  or_type (some h) type hs rest = some (type, hs)

  -- The loop of UnsubscribeEvent over the types, which ends at the first that has the id.
  unfoldable pub find_type : String → Dict String (Dict String H) → Option (String × Dict String H)
  unfolding or_type
  find_type id [] = none
  find_type id ((type, hs) ∷ m) = let rest = find_type id m in or_type (lookup id hs) type hs rest

  unfoldable pub unsubscribe_found :
      Option (String × Dict String H) → String → EventBus H → EventBus H × Bool
  unfolding put_handlers
  unsubscribe_found none id b = (b, false)
  unsubscribe_found (some (type, hs)) id b =
      (record b { subscriptions = put_handlers type (delete id hs) b.subscriptions }, true)

  -- UnsubscribeEvent, with false for its error.
  unfoldable pub unsubscribe_event : String → EventBus H → EventBus H × Bool
  unfolding unsubscribe_found find_type
  unsubscribe_event id b = unsubscribe_found (find_type id b.subscriptions) id b

  unfoldable pub publish_event : String → ℕ → Event → EventBus H → EventBus H
  unfolding handlers_of
  publish_event fresh_id now e b =
      let filled : Event = record e {
        id = if string_key.test e.id "" then fresh_id else e.id;
        timestamp = if e.timestamp == 0 then now else e.timestamp;
      } in
      record b {
        events_published = (b.events_published + 1) % 2 ^ 64;
        started =
            b.started
            ++ map (λ (x : String × H). (filled, x.1))
                (handlers_of (lookup e.type b.subscriptions));
      }

  -- The id is that of no subscription, as 16 random bytes are not.
  abbrev pub IsUnused : String → Dict String (Dict String H) → Type 0
  IsUnused id m = All (λ (x : String × Dict String H). lookup id x.1 ≡ none) m

  abbrev pub NonEmpty : Dict String (Dict String H) → Type 0
  NonEmpty m = All (λ (x : String × Dict String H). x.1 ≢ []) m

  find_type-insert :
      (id type : String) (h : H) (hs' : Dict String H) (m : Dict String (Dict String H))
      → IsUnused id m
      → lookup id hs' ≡ some h
      → find_type id (insert type hs' m) ≡ some (type, hs')
  unfolding find_type insert or_type
  find_type-insert id type h hs' [] unused found = rw found refl
  find_type-insert id type h hs' ((t, hs) ∷ m) (free, unused) found =
      if_cases (λ (l : Dict String (Dict String H)). find_type id l ≡ some (type, hs'))
        (string_key.test t type) (λ same. rw (found, (string_key.test_iff t type).0 same) refl)
        (λ other. rw free (find_type-insert id type h hs' m unused found))

  -- A key put back to what it had.
  insert-insert_old :
      (type : String) (hs hs' : Dict String H) (m : Dict String (Dict String H))
      → lookup type m ≡ some hs
      → insert type hs (insert type hs' m) ≡ m
  unfolding insert lookup
  insert-insert_old type hs hs' [] found = absurd (cc)
  insert-insert_old type hs hs' ((t, v) ∷ m) found = ground (arith, insert-insert_old type hs hs' m)

  unused_in :
      (id type : String) (m : Dict String (Dict String H))
      → IsUnused id m
      → lookup id (handlers_of (lookup type m)) ≡ none
  unfolding lookup handlers_of
  unused_in id type [] unused = refl
  unused_in id type ((t, hs) ∷ m) (free, unused) =
      if_either (λ (o : Option (Dict String H)). lookup id (handlers_of o) ≡ none)
        (string_key.test t type) free (unused_in id type m unused)

  lookup-NonEmpty :
      (type : String) (m : Dict String (Dict String H)) → NonEmpty m → lookup type m ≢ some []
  unfolding lookup
  lookup-NonEmpty type [] filled = λ e. absurd (cc)
  lookup-NonEmpty type ((t, hs) ∷ m) (first, filled) =
      if_either (λ (o : Option (Dict String H)). o ≢ some []) (string_key.test t type)
        (λ e. first (some_inj.0 e)) (lookup-NonEmpty type m filled)

  put_back :
      (o : Option (Dict String H)) (type : String) (hs' : Dict String H)
      (m : Dict String (Dict String H))
      → lookup type m ≡ o
      → o ≢ some []
      → put_handlers type (handlers_of o) (insert type hs' m) ≡ m
  unfolding put_handlers handlers_of
  put_back none type hs' m found filled = delete-insert_new type hs' m found
  put_back (some []) type hs' m found filled = absurd (filled refl)
  put_back (some (e ∷ hs)) type hs' m found filled = insert-insert_old type (e ∷ hs) hs' m found

  -- UnsubscribeEvent of the id that SubscribeEvent has just given undoes it: it answers without an error
  -- and the bus is as it was, if the id was not in use and no type was without a handler.
  pub unsubscribe_event-subscribe_event :
      (id type : String) (h : H) (b : EventBus H)
      → IsUnused id b.subscriptions
      → NonEmpty b.subscriptions
      → unsubscribe_event id (subscribe_event id type h b) ≡ (b, true)
  unfolding unsubscribe_event subscribe_event unsubscribe_found
  unsubscribe_event-subscribe_event id type h b unused filled =
      let old = lookup type b.subscriptions in
      let hs' = insert id h (handlers_of old) in
      let here : lookup id hs' ≡ some h =
        lookup-insert id id h (handlers_of old)
        ∙ ap (λ (t : Bool). if t then some h else lookup id (handlers_of old)) (same_refl id) in
      let b' = record b { subscriptions = insert type hs' b.subscriptions } in
      ap (λ (o : Option (String × Dict String H)). unsubscribe_found o id b')
        (find_type-insert id type h hs' b.subscriptions unused here)
      ∙ ap
          (λ (hs : Dict String H). (
            record b { subscriptions = put_handlers type hs (insert type hs' b.subscriptions) },
            true,
          ))
          (delete-insert_new id h (handlers_of old) (unused_in id type b.subscriptions unused))
      ∙ ap (λ (m : Dict String (Dict String H)). (record b { subscriptions = m }, true))
          (put_back old type hs' b.subscriptions refl (lookup-NonEmpty type b.subscriptions filled))
