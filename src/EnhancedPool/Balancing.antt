-- ===== src/EnhancedPool/Balancing.antt =====
-- core/pool/enhanced_pool.go: which connection GetConnectionByProtocol answers.
use muxcore.Common.{
  ℕ, ◌≤◌, ◌<◌, String, ◌≡◌, refl, sym, ap, subst, ◌∙◌, inl, inr, Bool, true, false, ◌&&◌, Option,
  none, some, List, [], ◌∷◌, arith, ltb, Bool-cases, lt→ltb, if_cases,
}
use muxcore.Common.Dict.{Dict, lookup, lookup-insert}
use muxcore.Common.Keys.{string_key, number_key}
use muxcore.Common.Counts.{times}
use muxcore.EnhancedPool.{
  PoolConfig, PooledConnection, EnhancedPool, new_enhanced_pool, exists_id, find_object, use_object,
  better, with_object, use_best, best_of, group, pool_get_by_protocol, PoolSteps,
}
use muxcore.EnhancedPool.Accounts.{find_object-times}
use muxcore.EnhancedPool.Groups.{grouped_lem, in_group, Grouped}
use muxcore.EnhancedPool.Steps.{find_object-lookup, PoolSteps-Grouped}

-- A connection with at most as many requests as c.
abbrev AtMost : PooledConnection → Option PooledConnection → Type 0
AtMost c none = ⊥
AtMost c (some b) = b.request_count ≤ c.request_count

with_object-AtMost :
    (c : PooledConnection) (best o : Option PooledConnection)
    → AtMost c best
    → AtMost c (with_object best o)
unfolding with_object better
with_object-AtMost c best none h = h
with_object-AtMost c none (some d) h = absurd h
with_object-AtMost c (some b) (some d) h =
    if_cases (AtMost c) (d.is_active && d.healthy && ltb d.request_count b.request_count)
      (λ e. ground arith) (λ _. h)

better-AtMost :
    (c : PooledConnection) (best : Option PooledConnection)
    → (c.is_active && c.healthy) ≡ true
    → AtMost c (better best c)
unfolding better
better-AtMost c none usable =
    if_cases (AtMost c) (c.is_active && c.healthy) (λ _. omega arith) (λ e. absurd (cc))
better-AtMost c (some b) usable =
    if_cases (AtMost c) (c.is_active && c.healthy && ltb c.request_count b.request_count)
      (λ _. omega arith) (λ e. ground arith)

best_of-AtMost :
    (c : PooledConnection) (ids : List String) (m : Dict String PooledConnection)
    (best : Option PooledConnection)
    → AtMost c best
    → AtMost c (best_of ids m best)
unfolding best_of
best_of-AtMost c [] m best h = h
best_of-AtMost c (x ∷ ids) m best h =
    best_of-AtMost c ids m (with_object best (lookup x m))
      (with_object-AtMost c best (lookup x m) h)

best_of-least :
    (x : String) (c : PooledConnection) (ids : List String) (m : Dict String PooledConnection)
    (best : Option PooledConnection)
    → 0 < times x ids
    → lookup x m ≡ some c
    → (c.is_active && c.healthy) ≡ true
    → AtMost c (best_of ids m best)
unfolding best_of times with_object
best_of-least x c [] m best h there usable = absurd (omega arith)
best_of-least x c (y ∷ ids) m best h there usable = elim (Bool-cases (string_key.test y x)) [
  | inl here ↦
      let found : lookup y m ≡ some c =
        ap (λ (k : String). lookup k m) ((string_key.test_iff y x).0 here) ∙ there in
      best_of-AtMost c ids m (with_object best (lookup y m)) (
        subst (λ (o : Option PooledConnection). AtMost c (with_object best o)) (sym found)
          (better-AtMost c best usable))
  | inr other ↦ best_of-least x c ids m (with_object best (lookup y m)) (ground arith) there usable
]

-- A usable connection of the pool with the protocol.
abbrev Good : EnhancedPool → String → Option PooledConnection → Type 0
Good p protocol none = Unit
Good p protocol (some b) =
    (find_object b.id p ≡ some b) × (b.protocol ≡ protocol) × ((b.is_active && b.healthy) ≡ true)

and-left : (a b c : Bool) → (a && b && c) ≡ true → (a && b) ≡ true
and-left true true c e = refl
and-left true false c e = absurd (cc)
and-left false b c e = absurd (cc)

with_object-Good :
    (p : EnhancedPool) (protocol : String) (best : Option PooledConnection) (c : PooledConnection)
    → find_object c.id p ≡ some c
    → c.protocol ≡ protocol
    → Good p protocol best
    → Good p protocol (better best c)
unfolding better
with_object-Good p protocol none c e f h =
    if_cases (Good p protocol) (c.is_active && c.healthy) (λ usable. (e, f, usable)) (λ _. tt)
with_object-Good p protocol (some b) c e f h =
    if_cases (Good p protocol) (c.is_active && c.healthy && ltb c.request_count b.request_count)
      (λ t. (e, f, and-left c.is_active c.healthy (ltb c.request_count b.request_count) t)) (λ _. h)

-- Whether an id is one of the pool with the protocol.
abbrev Member : EnhancedPool → String → String → Type 0
Member p protocol x =
    (find_object x p ≡ lookup x p.objects) × (in_group protocol (find_object x p) ≡ true)

lookup-Good :
    (p : EnhancedPool) (protocol x : String) (best o : Option PooledConnection)
    → Grouped p
    → lookup x p.objects ≡ o
    → Member p protocol x
    → Good p protocol best
    → Good p protocol (with_object best o)
unfolding with_object
lookup-Good p protocol x best none v e m h = h
lookup-Good p protocol x best (some c) v e (found, named) h =
    let same = v.ids x c e in
    with_object-Good p protocol best c (ap (λ (k : String). find_object k p) same ∙ found ∙ e)
      ((string_key.test_iff c.protocol protocol).0
        (sym (ap (in_group protocol) (found ∙ e)) ∙ named))
      h

best_of-Good :
    (p : EnhancedPool) (protocol : String) (ids : List String) (best : Option PooledConnection)
    → Grouped p
    → ((x : String) → 0 < times x ids → Member p protocol x)
    → Good p protocol best
    → Good p protocol (best_of ids p.objects best)
unfolding best_of times
best_of-Good p protocol [] best v all h = h
best_of-Good p protocol (x ∷ ids) best v all h =
    best_of-Good p protocol ids (with_object best (lookup x p.objects)) v
      (λ y more. all y (omega (arith, more)))
      (lookup-Good p protocol x best (lookup x p.objects) v refl
        (all x (rw ((string_key.test_iff x x).1 refl) (omega arith))) h)

-- In a group of a protocol that has a name stand members.
group-Member :
    (p : EnhancedPool) (protocol x : String)
    → Grouped p
    → string_key.test protocol "" ≡ false
    → 0 < times x (group (lookup protocol p.protocol_map))
    → Member p protocol x
unfolding find_object exists_id
group-Member p protocol x v named h =
    let count = v.listed x protocol named in
    let some_place = grouped_lem x protocol p.protocol_map in
    let there : (in_group protocol (lookup x p.objects)) ≡ true = ground arith in
    let live : ltb 0 (times x p.connections) ≡ true = ground arith in
    (rw (live) refl, rw (live) there)

-- The answer against a usable connection of the pool with the protocol.
abbrev pub Answers : String → PooledConnection → EnhancedPool × Option PooledConnection → Type 0
Answers protocol c (q, none) = ⊥
Answers protocol c (q, some u) =
    (find_object u.id q ≡ some u)
    × (u.protocol ≡ protocol)
    × ((u.is_active && u.healthy) ≡ true)
    × (u.request_count ≤ c.request_count)

use_best-Answers :
    (p : EnhancedPool) (protocol : String) (c : PooledConnection) (o : Option PooledConnection)
    (now : ℕ)
    → Good p protocol o
    → AtMost c o
    → Answers protocol c (use_best o now p)
unfolding use_best use_object find_object exists_id
use_best-Answers p protocol c none now good least = absurd least
use_best-Answers p protocol c (some b) now (found, named, usable) least =
    let here = find_object-times b.id p b found in
    (
      rw
          (
            lt→ltb 0 (times b.id p.connections) here,
            lookup-insert b.id b.id (record b { last_used = now }) p.objects,
            (string_key.test_iff b.id b.id).1 refl,
          )
          refl,
      named,
      usable,
      least,
    )

-- in every state that a new pool reaches, if the pool has an active and healthy connection with a protocol other than
-- "", then GetConnectionByProtocol of that protocol answers a connection; it is one of the pool, active and healthy, of
-- that protocol, and has at most as many requests as the first.
pub pool_get_by_protocol-least :
    (config : PoolConfig) {p : EnhancedPool}
    → PoolSteps (new_enhanced_pool config) p
    → (protocol : String) → string_key.test protocol "" ≡ false
    → (x : String) (c : PooledConnection) → find_object x p ≡ some c
    → c.protocol ≡ protocol
    → (c.is_active && c.healthy) ≡ true
    → (now : ℕ) → Answers protocol c (pool_get_by_protocol protocol now p)
unfolding pool_get_by_protocol
pool_get_by_protocol-least config {p = p} steps protocol named x c found mine usable now =
    let v = PoolSteps-Grouped config steps in
    let ids = group (lookup protocol p.protocol_map) in
    let there = find_object-lookup x p c found in
    use_best-Answers p protocol c (best_of ids p.objects none) now
      (best_of-Good p protocol ids none v (λ y h. group-Member p protocol y v named h) tt)
      (best_of-least x c ids p.objects none
        (ground (
          arith,
          v.listed x protocol named,
          grouped_lem x protocol p.protocol_map,
          find_object-times x p c found,
          (string_key.test_iff c.protocol protocol).1 mine,
          there,
        ))
        there usable)
