-- ===== src/EnhancedPool/Accounts.antt =====
-- core/pool/enhanced_pool.go: the counters of OptimizedConnectionPool, and how far the cleaner goes.
use muxcore.Common.{
  ℕ, ◌+◌, ◌-◌, ◌≤◌, ◌<◌, min, String, ◌≡◌, refl, ◌⊎◌, inl, inr, Bool, true, false, not, ◌&&◌,
  Option, none, some, List, [], ◌∷◌, arith, ltb, leb, Bool-cases, length, take, length-append,
  length-take, ltb→lt, if_either, if_cases,
}
use muxcore.Common.Dict.{Dict, lookup, insert}
use muxcore.Common.Keys.{string_key, number_key}
use muxcore.Common.Counts.{times, length-remove_first, length-remove_first_le}
use muxcore.EnhancedPool.{
  PoolConfig, PooledConnection, EnhancedPool, new_enhanced_pool, exists_id, find_object, pool_add,
  use_object, get_usable, pool_get, use_best, best_of, group, pool_get_by_protocol, update_object,
  update_protocol, remove_object, pool_remove, check_object, active_ids, is_idle, remove_ids,
  clean_idle_connections, close_enhanced_pool, PoolStep, PoolSteps, adds, gets, gets_by, updates,
  removes, checks, counts, closes, no_step, and_step,
}

pub record Counted (p : EnhancedPool) : Type 0 where
  pub within : length p.connections ≤ p.config.max_connections
  pub made : p.connections_created ≡ p.total_connections + p.connections_closed
  pub enough : length p.connections ≤ p.total_connections
  pub exact : (p.running ≡ false) ⊎ (p.total_connections ≡ length p.connections)

-- Of the pool only what the counters are about.
abbrev SameCounts : EnhancedPool → EnhancedPool → Type 0
SameCounts p q =
    (length q.connections ≡ length p.connections)
    × (q.config ≡ p.config)
    × (q.connections_created ≡ p.connections_created)
    × (q.connections_closed ≡ p.connections_closed)
    × (q.total_connections ≡ p.total_connections)
    × (q.running ≡ p.running)

pub find_object-times :
    (id : String) (p : EnhancedPool) (c : PooledConnection)
    → find_object id p ≡ some c
    → 0 < times id p.connections
unfolding find_object exists_id
find_object-times id p c e = elim (Bool-cases (ltb 0 (times id p.connections))) [
  | inl here ↦ ltb→lt 0 (times id p.connections) here
  | inr gone ↦ absurd (cc)
]

remove_object-Counted :
    (id : String) (p : EnhancedPool) (o : Option PooledConnection)
    → find_object id p ≡ o
    → Counted p
    → Counted (remove_object o id p)
unfolding remove_object
remove_object-Counted id p none e v = v
remove_object-Counted id p (some c) e v =
    let here = find_object-times id p c e in
    let shorter = length-remove_first id p.connections here in
    record {
      within = omega (arith, v.within, shorter);
      made = omega (arith, v.made, v.enough, shorter);
      enough = omega (arith, v.enough, shorter);
      exact = elim v.exact [ inl off ↦ inl off | inr e ↦ inr (omega (arith, e, shorter)) ];
    }

pool_remove-Counted : (id : String) (p : EnhancedPool) → Counted p → Counted (pool_remove id p)
unfolding pool_remove
pool_remove-Counted id p v = remove_object-Counted id p (find_object id p) refl v

-- A write to an object changes no counter.
write-Counted :
    (objects : Dict String PooledConnection) (p : EnhancedPool)
    → Counted p
    → Counted (record p { objects = objects })
write-Counted objects p v = record {
  within = v.within;
  made = v.made;
  enough = v.enough;
  exact = v.exact;
}

get_usable-Counted :
    (o : Option PooledConnection) (now : ℕ) (p : EnhancedPool)
    → Counted p
    → Counted (get_usable o now p).0
unfolding get_usable use_object
get_usable-Counted none now p v = v
get_usable-Counted (some c) now p v =
    if_either (λ (r : EnhancedPool × Option PooledConnection). Counted r.0)
      (c.is_active && c.healthy)
      (write-Counted (insert c.id (record c { last_used = now }) p.objects) p v) v

use_best-Counted :
    (o : Option PooledConnection) (now : ℕ) (p : EnhancedPool)
    → Counted p
    → Counted (use_best o now p).0
unfolding use_best use_object
use_best-Counted none now p v = v
use_best-Counted (some c) now p v =
    write-Counted (insert c.id (record c { last_used = now }) p.objects) p v

update_object-Counted :
    (o : Option PooledConnection) (id protocol : String) (p : EnhancedPool)
    → Counted p
    → Counted (update_object o id protocol p).0
unfolding update_object
update_object-Counted none id protocol p v = v
update_object-Counted (some c) id protocol p v = record {
  within = v.within;
  made = v.made;
  enough = v.enough;
  exact = v.exact;
}

check_object-Counted :
    (o : Option PooledConnection) (alive : Bool) (p : EnhancedPool)
    → Counted p
    → Counted (check_object o alive p)
unfolding check_object
check_object-Counted none alive p v = v
check_object-Counted (some c) alive p v =
    let marked = insert c.id (record c { healthy = alive }) p.objects in
    if_either Counted (not c.is_active) v (
      if_either Counted alive (write-Counted marked p v)
        (pool_remove-Counted c.id (record p { objects = marked }) (write-Counted marked p v)))

pool_add-Counted :
    (id : String) (now conn : ℕ) (p : EnhancedPool) → Counted p → Counted (pool_add id now conn p).0
unfolding pool_add
pool_add-Counted id now conn p v =
    if_cases (λ (r : EnhancedPool × String). Counted r.0)
      (leb p.config.max_connections (length p.connections))
      (λ _. record { within = v.within; made = v.made; enough = v.enough; exact = v.exact })
      (λ room.
        let one_more = length-append p.connections (id ∷ []) in
        record {
          within = ground (arith, one_more);
          made = omega (arith, v.made);
          enough = omega (arith, v.enough, one_more);
          exact = elim v.exact [ inl off ↦ inl off | inr e ↦ inr (omega (arith, e, one_more)) ];
        })

close-Counted : (p : EnhancedPool) → Counted p → Counted (close_enhanced_pool p)
unfolding close_enhanced_pool
close-Counted p v =
    if_either Counted (not p.running) v
      (record { within = omega arith; made = v.made; enough = omega arith; exact = inl refl })

step-Counted : {p q : EnhancedPool} → PoolStep p q → Counted p → Counted q
unfolding pool_get pool_get_by_protocol update_protocol
step-Counted {p = p} (adds id now conn new) v = pool_add-Counted id now conn p v
step-Counted {p = p} (gets id now) v = get_usable-Counted (find_object id p) now p v
step-Counted {p = p} (gets_by protocol now) v =
    use_best-Counted (best_of (group (lookup protocol p.protocol_map)) p.objects none) now p v
step-Counted {p = p} (updates id protocol) v =
    update_object-Counted (find_object id p) id protocol p v
step-Counted {p = p} (removes id) v = pool_remove-Counted id p v
step-Counted {p = p} (checks id alive) v = check_object-Counted (lookup id p.objects) alive p v
step-Counted {p = p} (counts id c sent received now there) v = write-Counted _ p v
step-Counted {p = p} closes v = close-Counted p v

-- in every state that a new pool reaches, the pool has at most MaxConnections connections; ConnectionsCreated is
-- TotalConnections and ConnectionsClosed together; and TotalConnections is the number of connections, unless Close was
-- called: then it is at least that.
pub PoolSteps-Counted :
    (config : PoolConfig) {p : EnhancedPool} → PoolSteps (new_enhanced_pool config) p → Counted p
unfolding new_enhanced_pool
PoolSteps-Counted config no_step = record {
  within = omega arith;
  made = refl;
  enough = omega arith;
  exact = inr refl;
}
PoolSteps-Counted config (and_step steps step) = step-Counted step (PoolSteps-Counted config steps)

active_ids-length :
    (test : PooledConnection → Bool) (ids : List String) (objects : Dict String PooledConnection)
    → length (active_ids test ids objects) ≤ length ids
unfolding active_ids
active_ids-length test [] objects = omega arith
active_ids-length test (id ∷ ids) objects = ground (arith, active_ids-length test ids objects)

remove_object-length :
    (o : Option PooledConnection) (id : String) (p : EnhancedPool)
    → length p.connections ≤ length (remove_object o id p).connections + 1
unfolding remove_object
remove_object-length none id p = omega arith
remove_object-length (some c) id p = length-remove_first_le id p.connections

remove_ids-length :
    (ids : List String) (p : EnhancedPool)
    → length p.connections ≤ length (remove_ids ids p).connections + length ids
unfolding remove_ids pool_remove
remove_ids-length [] p = omega arith
remove_ids-length (id ∷ ids) p =
    omega (
      arith,
      remove_object-length (find_object id p) id p,
      remove_ids-length ids (pool_remove id p),
    )

-- cleanIdleConnections, with no other call in between, leaves at least MinConnections connections in the pool, or all
-- of them where there are fewer.
pub clean_idle_connections-min :
    (now : ℕ) (p : EnhancedPool)
    → min (length p.connections) p.config.min_connections
      ≤ length (clean_idle_connections now p).connections
unfolding clean_idle_connections
clean_idle_connections-min now p =
    let active = active_ids (λ _. true) p.connections p.objects in
    let idle = active_ids (is_idle p.config.max_idle_time now) p.connections p.objects in
    ground (
      arith,
      active_ids-length (λ _. true) p.connections p.objects,
      remove_ids-length (take (length active - p.config.min_connections) idle) p,
      length-take (length active - p.config.min_connections) idle,
    )
