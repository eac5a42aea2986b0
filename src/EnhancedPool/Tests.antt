-- ===== src/EnhancedPool/Tests.antt =====
-- Runs of OptimizedConnectionPool.
use muxcore.Common.{ℕ, ◌≡◌, refl, true, ◌&&◌, Option, none, some, [], ◌∷◌}
use muxcore.Common.Dict.{lookup, insert}
use muxcore.Common.Keys.{string_key, number_key}
use muxcore.Common.Counts.{times, remove_first}
use muxcore.EnhancedPool.{
  PoolConfig, PooledConnection, EnhancedPool, new_enhanced_pool, exists_id, find_object,
  fresh_connection, pool_add, best_of, group, pool_get_by_protocol, put_group, remove_from_group,
  remove_from_protocol_map, leave_group, update_object, update_protocol, remove_object, pool_remove,
  use_best, use_object, with_object, better, close_enhanced_pool, PoolSteps, adds, updates, no_step,
  and_step,
}
use muxcore.EnhancedPool.Accounts.{Counted, PoolSteps-Counted}
use muxcore.EnhancedPool.Balancing.{Answers, pool_get_by_protocol-least}

abbrev config : PoolConfig
config = record { max_connections = 3; min_connections = 1; max_idle_time = 10; buffer_size = 4 }

-- Two connections, both with the protocol http.
abbrev with_two : EnhancedPool
with_two =
    (update_protocol "b" "http"
      (update_protocol "a" "http"
        (pool_add "b" 2 8 (pool_add "a" 1 7 (new_enhanced_pool config)).0).0).0).0

abbrev of_a : PooledConnection
of_a = record (fresh_connection "a" 1 7 4) { protocol = "http" }

two_steps : PoolSteps (new_enhanced_pool config) with_two
unfolding new_enhanced_pool pool_add fresh_connection update_protocol update_object leave_group
    remove_from_protocol_map remove_from_group put_group group find_object exists_id times lookup
    insert remove_first
two_steps =
    and_step
      (and_step (and_step (and_step no_step (adds "a" 1 7 refl)) (adds "b" 2 8 refl))
        (updates "a" "http"))
      (updates "b" "http")

PoolSteps-Counted_example : Counted with_two
PoolSteps-Counted_example = PoolSteps-Counted config two_steps

found_a : find_object "a" with_two ≡ some of_a
unfolding new_enhanced_pool pool_add fresh_connection update_protocol update_object leave_group
    remove_from_protocol_map remove_from_group put_group group find_object exists_id times lookup
    insert remove_first
found_a = refl

usable_a : (of_a.is_active && of_a.healthy) ≡ true
unfolding fresh_connection
usable_a = refl

named_a : of_a.protocol ≡ "http"
unfolding fresh_connection
named_a = refl

pool_get_by_protocol-least_example : Answers "http" of_a (pool_get_by_protocol "http" 9 with_two)
pool_get_by_protocol-least_example =
    pool_get_by_protocol-least config two_steps "http" refl "a" of_a found_a named_a usable_a 9

-- A connection that was put into the group of "" is closed and gone, and is answered still.
abbrev nameless : EnhancedPool
nameless =
    pool_remove "a" (update_protocol "a" "" (pool_add "a" 1 7 (new_enhanced_pool config)).0).0

abbrev conn_of : Option PooledConnection → Option ℕ
conn_of none = none
conn_of (some c) = some c.conn

answers_closed : conn_of (pool_get_by_protocol "" 9 nameless).1 ≡ some 7
unfolding new_enhanced_pool pool_add fresh_connection update_protocol update_object leave_group
    remove_from_protocol_map remove_from_group put_group group find_object exists_id times lookup
    insert remove_first pool_remove remove_object pool_get_by_protocol use_best best_of use_object
    with_object better
answers_closed = refl

seven_closed : nameless.closed ≡ 7 ∷ []
unfolding new_enhanced_pool pool_add fresh_connection update_protocol update_object leave_group
    remove_from_protocol_map remove_from_group put_group group find_object exists_id times lookup
    insert remove_first pool_remove remove_object pool_get_by_protocol use_best best_of use_object
    with_object better
seven_closed = refl

-- After Close the pool counts a connection that it has no more.
total_stays :
    (close_enhanced_pool (pool_add "a" 1 7 (new_enhanced_pool config)).0).total_connections ≡ 1
unfolding new_enhanced_pool pool_add close_enhanced_pool
total_stays = refl
