-- ===== src/EnhancedPool/Steps.antt =====
-- core/pool/enhanced_pool.go: the groups of protocolMap through the steps of the pool.
use muxcore.Common.{
  ℕ, String, ◌≡◌, refl, Bool, not, Option, none, some, [], ◌∷◌, arith, leb, length, if_either,
}
use muxcore.Common.Dict.{lookup, lookup-insert}
use muxcore.Common.Keys.{string_key, number_key}
use muxcore.Common.Counts.{times, times-append, times-remove_first}
use muxcore.EnhancedPool.{
  PoolConfig, PooledConnection, EnhancedPool, new_enhanced_pool, exists_id, find_object,
  fresh_connection, pool_add, pool_get, best_of, group, pool_get_by_protocol, leave_group,
  update_object, update_protocol, remove_object, pool_remove, check_object, pool_update_stats,
  close_enhanced_pool, PoolStep, PoolSteps, adds, gets, gets_by, updates, removes, checks, counts,
  closes, no_step, and_step,
}
use muxcore.EnhancedPool.Accounts.{find_object-times}
use muxcore.EnhancedPool.Groups.{
  grouped, leave_group-grouped, join-grouped, Grouped, put_ids, write-Grouped, Held, lookup-Held,
  find_object-Held, get_usable-Grouped, best_of-Held, use_best-Grouped,
}

pub find_object-lookup :
    (id : String) (p : EnhancedPool) (c : PooledConnection)
    → find_object id p ≡ some c
    → lookup id p.objects ≡ some c
unfolding find_object
find_object-lookup id p c =
    if_either (λ (o : Option PooledConnection). o ≡ some c → lookup id p.objects ≡ some c)
      (exists_id id p) (λ e. e) (λ e. absurd (cc))

remove_object-Grouped :
    (id : String) (p : EnhancedPool) (o : Option PooledConnection)
    → find_object id p ≡ o
    → Grouped p
    → Grouped (remove_object o id p)
unfolding remove_object
remove_object-Grouped id p none e v = v
remove_object-Grouped id p (some c) e v =
    let there = find_object-lookup id p c e in
    record {
      ids = v.ids;
      once = λ x. omega (arith, v.once x, times-remove_first x id p.connections);
      listed = λ x t named. ground (
        arith,
        v.listed x t named,
        leave_group-grouped x c.protocol t id p.protocol_map named,
        times-remove_first x id p.connections,
        string_key.test_iff id x,
        there,
      );
    }

pool_remove-Grouped : (id : String) (p : EnhancedPool) → Grouped p → Grouped (pool_remove id p)
unfolding pool_remove
pool_remove-Grouped id p v = remove_object-Grouped id p (find_object id p) refl v

pool_add-Grouped :
    (id : String) (now conn : ℕ) (p : EnhancedPool)
    → lookup id p.objects ≡ none
    → Grouped p
    → Grouped (pool_add id now conn p).0
unfolding pool_add fresh_connection times
pool_add-Grouped id now conn p new v =
    let c = fresh_connection id now conn p.config.buffer_size in
    if_either (λ (r : EnhancedPool × String). Grouped r.0)
      (leb p.config.max_connections (length p.connections))
      (record { ids = v.ids; once = v.once; listed = v.listed })
      (record {
        ids = put_ids id c p.objects refl v.ids;
        once = λ x. ground (
          arith,
          v.once x,
          times-append x p.connections (id ∷ []),
          lookup-insert id x c p.objects,
          string_key.test_iff id x,
          new,
        );
        listed = λ x t named. ground (
          arith,
          v.listed x t named,
          v.once x,
          times-append x p.connections (id ∷ []),
          lookup-insert id x c p.objects,
          string_key.test_iff id x,
          string_key.test_iff "" t,
          string_key.test_iff t "",
          new,
        );
      })

update_object-Grouped :
    (id protocol : String) (p : EnhancedPool) (o : Option PooledConnection)
    → find_object id p ≡ o
    → Grouped p
    → Grouped (update_object o id protocol p).0
unfolding update_object
update_object-Grouped id protocol p none e v = v
update_object-Grouped id protocol p (some c) e v =
    let there = find_object-lookup id p c e in
    let d = record c { protocol = protocol } in
    record {
      ids = put_ids id d p.objects (v.ids id c there) v.ids;
      once = λ x.
          ground (arith, v.once x, lookup-insert id x d p.objects, string_key.test_iff id x, there);
      listed = λ x t named. ground (
        arith,
        v.listed x t named,
        v.once x,
        find_object-times id p c e,
        join-grouped x protocol t id (leave_group c.protocol id p.protocol_map),
        leave_group-grouped x c.protocol t id p.protocol_map named,
        lookup-insert id x d p.objects,
        string_key.test_iff id x,
        there,
      );
    }

check_object-Grouped :
    (o : Option PooledConnection) (alive : Bool) (p : EnhancedPool)
    → Held p o
    → Grouped p
    → Grouped (check_object o alive p)
unfolding check_object
check_object-Grouped none alive p there v = v
check_object-Grouped (some c) alive p there v =
    let marked = write-Grouped c.id c (record c { healthy = alive }) p there refl refl v in
    if_either Grouped (not c.is_active) v
      (if_either Grouped alive marked (pool_remove-Grouped c.id _ marked))

close-Grouped : (p : EnhancedPool) → Grouped p → Grouped (close_enhanced_pool p)
unfolding close_enhanced_pool times grouped group lookup
close-Grouped p v =
    if_either Grouped (not p.running) v
      (record { ids = v.ids; once = λ x. omega arith; listed = λ x t named. ground arith })

step-Grouped : {p q : EnhancedPool} → PoolStep p q → Grouped p → Grouped q
unfolding pool_get pool_get_by_protocol update_protocol pool_update_stats
step-Grouped {p = p} (adds id now conn new) v = pool_add-Grouped id now conn p new v
step-Grouped {p = p} (gets id now) v =
    get_usable-Grouped (find_object id p) now p (find_object-Held id p v) v
step-Grouped {p = p} (gets_by protocol now) v =
    let ids = group (lookup protocol p.protocol_map) in
    use_best-Grouped (best_of ids p.objects none) now p (best_of-Held ids p none v tt) v
step-Grouped {p = p} (updates id protocol) v =
    update_object-Grouped id protocol p (find_object id p) refl v
step-Grouped {p = p} (removes id) v = pool_remove-Grouped id p v
step-Grouped {p = p} (checks id alive) v =
    check_object-Grouped (lookup id p.objects) alive p
      (lookup-Held id p (lookup id p.objects) refl v) v
step-Grouped {p = p} (counts id c sent received now there) v =
    write-Grouped id c (pool_update_stats sent received now c) p there (v.ids id c there) refl v
step-Grouped {p = p} closes v = close-Grouped p v

-- Every state that a new pool reaches.
pub PoolSteps-Grouped :
    (config : PoolConfig) {p : EnhancedPool} → PoolSteps (new_enhanced_pool config) p → Grouped p
unfolding new_enhanced_pool times grouped group lookup
PoolSteps-Grouped config no_step = record {
  ids = λ x c e. absurd (cc);
  once = λ x. omega arith;
  listed = λ x t named. refl;
}
PoolSteps-Grouped config (and_step steps step) = step-Grouped step (PoolSteps-Grouped config steps)
