-- ===== src/EnhancedPool/Groups.antt =====
-- core/pool/enhanced_pool.go: the groups of protocolMap against the connections.
use muxcore.Common.{
  ℕ, ◌+◌, ◌-◌, ◌≤◌, String, ◌≡◌, refl, sym, ap, ◌∙◌, Bool, true, false, ◌&&◌, Option, none, some,
  List, [], ◌∷◌, ◌++◌, arith, ltb, if◌then◌else◌, if_either, if_cases,
}
use muxcore.Common.Dict.{Dict, lookup, insert, lookup-insert, lookup-delete}
use muxcore.Common.Keys.{string_key, number_key}
use muxcore.Common.Counts.{times, remove_first, one_if, times-append, times-remove_first}
use muxcore.EnhancedPool.{
  PooledConnection, EnhancedPool, exists_id, find_object, use_object, get_usable, better,
  with_object, use_best, best_of, group, put_group, remove_from_group, remove_from_protocol_map,
  leave_group,
}

-- How often an id stands in the group of a protocol.
unfoldable pub grouped : String → String → Dict String (List String) → ℕ
unfolding times group
grouped x t m = times x (group (lookup t m))

pub grouped_lem :
    (x t : String) (m : Dict String (List String)) → grouped x t m ≡ times x (group (lookup t m))
unfolding grouped
grouped_lem x t m = refl

grouped-insert :
    (x protocol t : String) (l : List String) (m : Dict String (List String))
    → grouped x t (insert protocol l m)
      ≡ (if string_key.test protocol t then times x l else grouped x t m)
unfolding grouped group
grouped-insert x protocol t l m = ground (arith, lookup-insert protocol t l m)

grouped-put_group :
    (x protocol t : String) (l : List String) (m : Dict String (List String))
    → grouped x t (put_group protocol l m)
      ≡ (if string_key.test protocol t then times x l else grouped x t m)
unfolding grouped put_group times group
grouped-put_group x protocol t [] m = ground (arith, lookup-delete protocol t m)
grouped-put_group x protocol t (y ∷ l) m = ground (arith, lookup-insert protocol t (y ∷ l) m)

remove_from_group-grouped :
    (x protocol t id : String) (m : Dict String (List String)) (o : Option (List String))
    → lookup protocol m ≡ o
    → grouped x t (remove_from_group o protocol id m)
      ≡ grouped x t m - (if string_key.test protocol t && string_key.test id x then 1 else 0)
unfolding remove_from_group grouped times group
remove_from_group-grouped x protocol t id m none e = ground (arith, string_key.test_iff protocol t)
remove_from_group-grouped x protocol t id m (some l) e = ground (
  arith,
  string_key.test_iff protocol t,
  grouped-put_group x protocol t (remove_first id l) m,
  times-remove_first x id l,
)

pub leave_group-grouped :
    (x protocol t id : String) (m : Dict String (List String))
    → string_key.test t "" ≡ false
    → grouped x t (leave_group protocol id m)
      ≡ grouped x t m - (if string_key.test protocol t && string_key.test id x then 1 else 0)
unfolding leave_group remove_from_protocol_map
leave_group-grouped x protocol t id m named = ground (
  arith,
  string_key.test_iff protocol "",
  string_key.test_iff protocol t,
  string_key.test_iff t "",
  remove_from_group-grouped x protocol t id m (lookup protocol m) refl,
)

pub join-grouped :
    (x protocol t id : String) (m : Dict String (List String))
    → grouped x t (insert protocol (group (lookup protocol m) ++ id ∷ []) m)
      ≡ grouped x t m + (if string_key.test protocol t && string_key.test id x then 1 else 0)
unfolding times
join-grouped x protocol t id m = ground (
  arith,
  string_key.test_iff protocol t,
  grouped-insert x protocol t (group (lookup protocol m) ++ id ∷ []) m,
  times-append x (group (lookup protocol m)) (id ∷ []),
  grouped_lem x protocol m,
)

abbrev pub in_group : String → Option PooledConnection → Bool
in_group t none = false
in_group t (some c) = string_key.test c.protocol t

abbrev pub present : Option PooledConnection → Bool
present none = false
present (some c) = true

-- Every connection of the pool stands once in the group of its protocol, and nothing else does, the group of "" apart.
pub record Grouped (p : EnhancedPool) : Type 0 where
  pub ids : (x : String) (c : PooledConnection) → lookup x p.objects ≡ some c → c.id ≡ x
  pub once : (x : String) → times x p.connections ≤ one_if (present (lookup x p.objects))
  pub listed :
      (x t : String)
      → string_key.test t "" ≡ false
      → grouped x t p.protocol_map
        ≡ (if in_group t (lookup x p.objects) then times x p.connections else 0)

pub put_ids :
    (id : String) (c : PooledConnection) (m : Dict String PooledConnection)
    → c.id ≡ id
    → ((x : String) (d : PooledConnection) → lookup x m ≡ some d → d.id ≡ x)
    → (x : String) (d : PooledConnection) → lookup x (insert id c m) ≡ some d
    → d.id ≡ x
put_ids id c m same old x d e =
    if_cases (λ (o : Option PooledConnection). o ≡ some d → d.id ≡ x) (string_key.test id x)
      (λ here f. let k = (string_key.test_iff id x).0 here in cc) (λ _ f. old x d f)
      (sym (lookup-insert id x c m) ∙ e)

-- A write to an object that keeps its id and its protocol.
pub write-Grouped :
    (id : String) (c d : PooledConnection) (p : EnhancedPool)
    → lookup id p.objects ≡ some c
    → d.id ≡ id
    → d.protocol ≡ c.protocol
    → Grouped p
    → Grouped (record p { objects = insert id d p.objects })
write-Grouped id c d p there same kept v = record {
  ids = put_ids id d p.objects same v.ids;
  once = λ x. ground (arith, v.once x, lookup-insert id x d p.objects, string_key.test_iff id x);
  listed = λ x t named. ground (
    arith,
    v.listed x t named,
    lookup-insert id x d p.objects,
    string_key.test_iff id x,
    there,
    kept,
  );
}

-- The object that is used stands in the store under its own id.
abbrev pub Held : EnhancedPool → Option PooledConnection → Type 0
Held p none = Unit
Held p (some c) = lookup c.id p.objects ≡ some c

pub lookup-Held :
    (x : String) (p : EnhancedPool) (o : Option PooledConnection)
    → lookup x p.objects ≡ o
    → Grouped p
    → Held p o
lookup-Held x p none e v = tt
lookup-Held x p (some c) e v = ap (λ (k : String). lookup k p.objects) (v.ids x c e) ∙ e

pub find_object-Held : (id : String) (p : EnhancedPool) → Grouped p → Held p (find_object id p)
unfolding find_object
find_object-Held id p v =
    if_either (Held p) (exists_id id p) (lookup-Held id p (lookup id p.objects) refl v) tt

use_object-Grouped :
    (now : ℕ) (c : PooledConnection) (p : EnhancedPool)
    → lookup c.id p.objects ≡ some c
    → Grouped p
    → Grouped (use_object now c p).0
unfolding use_object
use_object-Grouped now c p there v =
    write-Grouped c.id c (record c { last_used = now }) p there refl refl v

pub get_usable-Grouped :
    (o : Option PooledConnection) (now : ℕ) (p : EnhancedPool)
    → Held p o
    → Grouped p
    → Grouped (get_usable o now p).0
unfolding get_usable
get_usable-Grouped none now p there v = v
get_usable-Grouped (some c) now p there v =
    if_either (λ (r : EnhancedPool × Option PooledConnection). Grouped r.0)
      (c.is_active && c.healthy) (use_object-Grouped now c p there v) v

with_object-Held :
    (p : EnhancedPool) (best o : Option PooledConnection)
    → Held p best
    → Held p o
    → Held p (with_object best o)
unfolding with_object better
with_object-Held p best none h k = h
with_object-Held p none (some c) h k = if_either (Held p) (c.is_active && c.healthy) k tt
with_object-Held p (some b) (some c) h k =
    if_either (Held p) (c.is_active && c.healthy && ltb c.request_count b.request_count) k h

pub best_of-Held :
    (ids : List String) (p : EnhancedPool) (best : Option PooledConnection)
    → Grouped p
    → Held p best
    → Held p (best_of ids p.objects best)
unfolding best_of
best_of-Held [] p best v h = h
best_of-Held (x ∷ ids) p best v h =
    best_of-Held ids p (with_object best (lookup x p.objects)) v
      (with_object-Held p best (lookup x p.objects) h (lookup-Held x p (lookup x p.objects) refl v))

pub use_best-Grouped :
    (o : Option PooledConnection) (now : ℕ) (p : EnhancedPool)
    → Held p o
    → Grouped p
    → Grouped (use_best o now p).0
unfolding use_best
use_best-Grouped none now p there v = v
use_best-Grouped (some c) now p there v = use_object-Grouped now c p there v
