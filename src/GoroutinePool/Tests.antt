-- ===== src/GoroutinePool/Tests.antt =====
-- Runs of the pool of goroutines.
use muxcore.Common.{◌≡◌, refl, [], arith}
use muxcore.Common.Keys.{string_key, number_key}
use muxcore.GoroutinePool.{
  Pool, start_pool, submit, scale_up, receive, begin, finish, leave, exit, shut_down, submits,
  scales, receives, begins, finishes, times_out, exits, ◌⟶*◌, stop, then_go,
}
use muxcore.GoroutinePool.Accounts.{Inv, reachable_pool-Inv}
use muxcore.GoroutinePool.Shutdown.{busy, IsStuck, shutdown-IsStuck}

-- A pool of one worker, which begins a task before Shutdown is called.
abbrev working : Pool
working = begin [] 7 [] (receive 7 [] (submit 7 (start_pool 1 4 8)).0)

begun : start_pool 1 4 8 ⟶* working
unfolding start_pool submit receive begin
begun =
    then_go (submits 7)
      (then_go (receives 7 [] (omega arith) refl) (then_go (begins [] 7 [] refl) stop))

reachable_pool-Inv_example : Inv working
reachable_pool-Inv_example = reachable_pool-Inv 1 4 8 (omega arith) begun

asked : IsStuck (shut_down working)
unfolding shut_down busy start_pool submit receive begin
asked = record { holds = refl; waits = omega arith }

finished : shut_down working ⟶* finish [] [] (shut_down working)
unfolding shut_down start_pool submit receive begin
finished = then_go (finishes [] 7 [] refl) stop

shutdown-IsStuck_example : IsStuck (finish [] [] (shut_down working))
shutdown-IsStuck_example = shutdown-IsStuck finished asked

abbrev closing : Pool
closing = shut_down (start_pool 2 4 8)

abbrev one_left : Pool
one_left = (submit 7 (leave closing)).0

-- Both workers of two leave on their timeout, each having read the count before the other went.
abbrev two_gone : Pool
two_gone = exit (exit (leave (leave (scale_up (start_pool 1 4 8)))))

below_none : two_gone.worker_count ≡ 0
unfolding exit leave scale_up start_pool
below_none = refl

both_left : start_pool 1 4 8 ⟶* two_gone
unfolding exit leave scale_up start_pool
both_left = then_go (scales refl) (
    then_go (times_out (omega arith) (omega arith)) (
      then_go (times_out (omega arith) (omega arith))
        (then_go (exits (omega arith)) (then_go (exits (omega arith)) stop))))
