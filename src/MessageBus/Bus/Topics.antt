-- ===== src/MessageBus/Bus/Topics.antt =====
-- core/bus/enhanced_message_bus.go: the lists of subscriptions by topic against the subscriptions.
use muxcore.Common.{
  ℕ, ◌+◌, ◌-◌, String, ◌≡◌, refl, sym, ◌∙◌, ◌≢◌, ◌&&◌, Option, none, some, List, [], ◌∷◌, arith,
  if◌then◌else◌, if_cases,
}
use muxcore.Common.Dict.{Dict, lookup, insert, lookup-insert, lookup-delete}
use muxcore.Common.Keys.{string_key, number_key}
use muxcore.Common.Counts.{times, remove_first, times-append, times-remove_first}
use muxcore.MessageBus.Bus.{
  put_topic, with_id, remove_from_found, add_subscription_to_topic, remove_subscription_from_topic,
}

abbrev pub ids_of : Option (List String) → List String
ids_of none = []
ids_of (some l) = l

-- How often an id stands in the list of a topic.
unfoldable pub listed : String → String → Dict String (List String) → ℕ
unfolding times
listed x topic m = times x (ids_of (lookup topic m))

pub listed-insert :
    (x topic t : String) (l : List String) (m : Dict String (List String))
    → listed x t (insert topic l m) ≡ (if string_key.test topic t then times x l else listed x t m)
unfolding listed
listed-insert x topic t l m = ground (arith, lookup-insert topic t l m)

pub listed-put_topic :
    (x topic t : String) (l : List String) (m : Dict String (List String))
    → listed x t (put_topic topic l m)
      ≡ (if string_key.test topic t then times x l else listed x t m)
unfolding listed put_topic times
listed-put_topic x topic t [] m = ground (arith, lookup-delete topic t m)
listed-put_topic x topic t (y ∷ l) m = ground (arith, lookup-insert topic t (y ∷ l) m)

with_id-times :
    (x id : String) (o : Option (List String))
    → times x (with_id o id) ≡ times x (ids_of o) + (if string_key.test id x then 1 else 0)
unfolding with_id times
with_id-times x id none = ground arith
with_id-times x id (some l) = ground (arith, times-append x l (id ∷ []))

pub listed-add :
    (x topic t id : String) (m : Dict String (List String))
    → listed x t (add_subscription_to_topic topic id m)
      ≡ listed x t m + (if string_key.test topic t && string_key.test id x then 1 else 0)
unfolding add_subscription_to_topic listed
listed-add x topic t id m = ground (
  arith,
  string_key.test_iff topic t,
  lookup-insert topic t (with_id (lookup topic m) id) m,
  with_id-times x id (lookup topic m),
)

remove_from_found-listed :
    (x topic t id : String) (m : Dict String (List String)) (o : Option (List String))
    → lookup topic m ≡ o
    → listed x t (remove_from_found o topic id m)
      ≡ listed x t m - (if string_key.test topic t && string_key.test id x then 1 else 0)
unfolding remove_from_found listed times
remove_from_found-listed x topic t id m none e = ground (arith, string_key.test_iff topic t)
remove_from_found-listed x topic t id m (some l) e = ground (
  arith,
  string_key.test_iff topic t,
  listed-put_topic x topic t (remove_first id l) m,
  times-remove_first x id l,
)

pub listed-remove :
    (x topic t id : String) (m : Dict String (List String))
    → listed x t (remove_subscription_from_topic topic id m)
      ≡ listed x t m - (if string_key.test topic t && string_key.test id x then 1 else 0)
unfolding remove_subscription_from_topic
listed-remove x topic t id m = remove_from_found-listed x topic t id m (lookup topic m) refl

put_topic-filled :
    (topic t : String) (l : List String) (m : Dict String (List String))
    → lookup t m ≢ some []
    → lookup t (put_topic topic l m) ≢ some []
unfolding put_topic
put_topic-filled topic t [] m h e =
    let e' : (if string_key.test topic t then none else lookup t m) ≡ some [] =
      sym (lookup-delete topic t m) ∙ e in
    if_cases (λ (o : Option (List String)). ¬ (o ≡ some [])) (string_key.test topic t)
      (λ _ bad. absurd (cc)) (λ _. h) e'
put_topic-filled topic t (x ∷ l) m h e =
    let e' : (if string_key.test topic t then some (x ∷ l) else lookup t m) ≡ some [] =
      sym (lookup-insert topic t (x ∷ l) m) ∙ e in
    if_cases (λ (o : Option (List String)). ¬ (o ≡ some [])) (string_key.test topic t)
      (λ _ bad. absurd (cc)) (λ _. h) e'

pub remove_from_found-filled :
    (topic t id : String) (m : Dict String (List String)) (o : Option (List String))
    → lookup t m ≢ some []
    → lookup t (remove_from_found o topic id m) ≢ some []
unfolding remove_from_found
remove_from_found-filled topic t id m none h = h
remove_from_found-filled topic t id m (some l) h = put_topic-filled topic t (remove_first id l) m h

pub with_id-filled : (o : Option (List String)) (id : String) → with_id o id ≢ []
unfolding with_id
with_id-filled none id e = absurd (cc)
with_id-filled (some []) id e = absurd (cc)
with_id-filled (some (x ∷ l)) id e = absurd (cc)

pub insert-filled :
    (topic t : String) (l : List String) (m : Dict String (List String))
    → l ≢ []
    → lookup t m ≢ some []
    → lookup t (insert topic l m) ≢ some []
unfolding put_topic
insert-filled topic t [] m h old = absurd (h refl)
insert-filled topic t (x ∷ l) m h old = put_topic-filled topic t (x ∷ l) m old
