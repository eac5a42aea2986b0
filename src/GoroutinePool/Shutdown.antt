-- ===== src/GoroutinePool/Shutdown.antt =====
-- core/pool/enhanced_pool.go: Shutdown of OptimizedGoroutinePool, which holds the mutex while it waits.
use muxcore.Common.{
  ℕ, zero, suc, ◌+◌, ◌*◌, ◌<◌, ◌≡◌, Bool, true, false, ◌&&◌, [], arith, ltb, length, if_either,
}
use muxcore.Common.Counts.{one_if}
use muxcore.Common.Keys.{string_key, number_key}
use muxcore.GoroutinePool.{
  Pool, add_worker, add_workers, submit, scale_count, scale_up, receive, begin, finish, record_time,
  wait_again, leave, exit, shut_down, live, unlock, ◌⟶◌, submits, scales, receives, begins,
  finishes, records, waits_again, times_out, sees_done, exits, shuts_down, returns, ◌⟶*◌, stop,
  then_go,
}

-- The workers that have a task, or its time still to record.
unfoldable pub busy : Pool → ℕ
busy p = length p.received + (length p.running + p.recording)

-- Shutdown waits for workers that need the mutex that it holds.
pub record IsStuck (p : Pool) : Type 0 where
  pub holds : p.locked ≡ true
  pub waits : 0 < busy p

add_workers-IsStuck : (n : ℕ) (p : Pool) → IsStuck p → IsStuck (add_workers n p)
unfolding add_workers add_worker busy
add_workers-IsStuck zero p v = v
add_workers-IsStuck (suc n) p v =
    add_workers-IsStuck n (add_worker p) (record { holds = v.holds; waits = v.waits })

step-IsStuck : {p q : Pool} → p ⟶ q → IsStuck p → IsStuck q
unfolding submit receive begin finish record_time wait_again leave exit shut_down unlock live
    scale_up busy
step-IsStuck {p} (submits t) v =
    if_either (λ (r : Pool × Bool). IsStuck r.0) (p.accepting && ltb (length p.tasks) p.queue_size)
      (record { holds = v.holds; waits = v.waits }) (record { holds = v.holds; waits = v.waits })
step-IsStuck {p} (scales going) v =
    if_either IsStuck (ltb p.worker_count p.max_workers) (add_workers-IsStuck (scale_count p) p v) v
step-IsStuck (receives t rest some_waiting e) v = record { holds = v.holds; waits = omega arith }
step-IsStuck {p} (begins before t after e) v = record { holds = v.holds; waits = omega arith }
step-IsStuck {p} (finishes before t after e) v = record { holds = v.holds; waits = omega arith }
step-IsStuck {p} (records some_recording free) v = let h = v.holds in absurd (cc)
step-IsStuck (waits_again some_recorded) v = record { holds = v.holds; waits = v.waits }
step-IsStuck (times_out some_waiting more) v = record { holds = v.holds; waits = v.waits }
step-IsStuck (sees_done some_waiting done) v = record { holds = v.holds; waits = v.waits }
step-IsStuck (exits some_leaving) v = record { holds = v.holds; waits = v.waits }
step-IsStuck {p} (shuts_down open_pool free) v = let h = v.holds in absurd (cc)
step-IsStuck {p} (returns held none_left) v = absurd (omega (arith, v.waits, none_left))

-- Once Shutdown holds the mutex while some worker has a task, or the time of one still to record, this
-- stays so whatever steps follow: that worker waits for the mutex for ever, and Shutdown does not return.
pub shutdown-IsStuck : {p q : Pool} → p ⟶* q → IsStuck p → IsStuck q
shutdown-IsStuck stop v = v
shutdown-IsStuck (then_go s rest) v = shutdown-IsStuck rest (step-IsStuck s v)

-- A pool after the cancel of Shutdown in which no task waits and no worker has one, or its time still to record.
pub record IsClosing (p : Pool) : Type 0 where
  pub done : p.cancelled ≡ true
  pub refusing : p.accepting ≡ false
  pub no_tasks : p.tasks ≡ []
  pub no_received : p.received ≡ []
  pub no_running : p.running ≡ []
  pub no_recording : p.recording ≡ 0

-- A step that is not a call of Submit, which the pool refuses.
abbrev pub is_work : {p q : Pool} → p ⟶ q → Bool
is_work (submits t) = false
is_work (scales going) = true
is_work (receives t rest some_waiting e) = true
is_work (begins before t after e) = true
is_work (finishes before t after e) = true
is_work (records some_recording free) = true
is_work (waits_again some_recorded) = true
is_work (times_out some_waiting more) = true
is_work (sees_done some_waiting done) = true
is_work (exits some_leaving) = true
is_work (shuts_down open_pool free) = true
is_work (returns held none_left) = true

abbrev pub work_steps : {p q : Pool} → p ⟶* q → ℕ
work_steps stop = 0
work_steps (then_go s rest) = one_if (is_work s) + work_steps rest

-- The steps that the workers and Shutdown have still to take.
abbrev pub work_left : Pool → ℕ
work_left p = 3 * p.recorded + 2 * p.waiting + p.leaving + one_if p.locked

-- Some step that is not a call of Submit can be taken.
abbrev pub CanWork : Pool → Type 0
CanWork p = (q : Pool) × (s : p ⟶ q) × (is_work s ≡ true)
