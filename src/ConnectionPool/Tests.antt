-- ===== src/ConnectionPool/Tests.antt =====
-- Runs of the pool of connections.
use muxcore.Common.{◌+◌, ◌≡◌, refl, List, [], ◌∷◌}
use muxcore.Common.Dict.{lookup, insert, delete}
use muxcore.Common.Keys.{string_key, number_key}
use muxcore.ConnectionPool.{new_pool}
use muxcore.ConnectionPool.Balance.{
  Op, add_op, remove_op, update_op, close_op, run, AreFresh, held, times, added, run-balance,
}

abbrev ops : List Op
ops =
    add_op "a" 1
    ∷ add_op "b" 2
    ∷ update_op "a" "http"
    ∷ remove_op "a"
    ∷ remove_op "a"
    ∷ close_op
    ∷ []

closed_once : (run ops new_pool).closed ≡ 1 ∷ 2 ∷ []
unfolding run new_pool lookup insert delete
closed_once = refl

ops-AreFresh : AreFresh ops new_pool
unfolding AreFresh new_pool lookup insert delete
ops-AreFresh = (refl, (refl, (tt, (tt, (tt, (tt, tt))))))

run-balance_example :
    held 1 (run ops new_pool).connections + times 1 (run ops new_pool).closed ≡ added 1 ops
run-balance_example = run-balance 1 ops ops-AreFresh
