-- ===== src/GoroutinePool/Accounts.antt =====
-- core/pool/enhanced_pool.go: the workers and the tasks of OptimizedGoroutinePool are accounted for.
use muxcore.Common.{
  ℕ, zero, suc, ◌+◌, ◌≤◌, ◌<◌, ◌≡◌, ap, Bool, true, false, ◌&&◌, List, [], ◌∷◌, ◌++◌, arith, ltb,
  length, length-append, ltb→lt, if_cases,
}
use muxcore.Common.Keys.{string_key, number_key}
use muxcore.GoroutinePool.{
  Pool, add_worker, add_workers, start_pool, submit, scale_count, scale_up, receive, begin, finish,
  record_time, wait_again, leave, exit, shut_down, live, unlock, ◌⟶◌, submits, scales, receives,
  begins, finishes, records, waits_again, times_out, sees_done, exits, shuts_down, returns, ◌⟶*◌,
  stop, then_go,
}

-- The counters agree with where the workers and the tasks are.
pub record Inv (p : Pool) : Type 0 where
  pub counted : p.worker_count ≡ live p
  pub idle : p.idle_workers ≡ p.waiting + length p.received
  pub tasks_kept :
      p.submitted ≡ length p.tasks + (length p.received + (length p.running + p.completed))
  pub queued : length p.tasks ≤ p.queue_size
  pub bounded : p.worker_count ≤ p.max_workers

pub length-middle : (l a b : List ℕ) (t : ℕ) → l ≡ a ++ t ∷ b → length l ≡ length (a ++ b) + 1
length-middle l a b t e =
    omega (arith, ap (λ (x : List ℕ). length x) e, length-append a (t ∷ b), length-append a b)

length-cons : (l rest : List ℕ) (t : ℕ) → l ≡ t ∷ rest → length l ≡ length rest + 1
length-cons l rest t e = omega (arith, ap (λ (x : List ℕ). length x) e)

length-snoc : (l : List ℕ) (t : ℕ) → length (l ++ t ∷ []) ≡ length l + 1
length-snoc l t = omega (arith, length-append l (t ∷ []))

add_worker-Inv : (p : Pool) → p.worker_count + 1 ≤ p.max_workers → Inv p → Inv (add_worker p)
unfolding add_worker live
add_worker-Inv p room v = record {
  counted = omega (arith, v.counted);
  idle = omega (arith, v.idle);
  tasks_kept = v.tasks_kept;
  queued = v.queued;
  bounded = room;
}

add_workers-Inv :
    (n : ℕ) (p : Pool) → p.worker_count + n ≤ p.max_workers → Inv p → Inv (add_workers n p)
unfolding add_workers
add_workers-Inv zero p room v = v
add_workers-Inv (suc n) p room v =
    add_workers-Inv n (add_worker p) (more n p room) (add_worker-Inv p (omega arith) v)
  where
    more :
        (n : ℕ) (p : Pool)
        → p.worker_count + suc n ≤ p.max_workers
        → (add_worker p).worker_count + n ≤ (add_worker p).max_workers
    more n p room = omega arith

scale_count-le :
    (p : Pool) → p.worker_count < p.max_workers → p.worker_count + scale_count p ≤ p.max_workers
unfolding scale_count
scale_count-le p lt = ground arith

second : (a b : Bool) → (a && b) ≡ true → b ≡ true
second true b h = h
second false b h = absurd (cc)

step-Inv : {p q : Pool} → p ⟶ q → Inv p → Inv q
unfolding submit receive begin finish record_time wait_again leave exit shut_down unlock live
    scale_up
step-Inv {p} (submits t) v =
    if_cases (λ (r : Pool × Bool). Inv r.0) (p.accepting && ltb (length p.tasks) p.queue_size)
      (λ room. record {
        counted = v.counted;
        idle = v.idle;
        tasks_kept = omega (arith, v.tasks_kept, length-snoc p.tasks t);
        queued =
            let free =
              ltb→lt (length p.tasks) p.queue_size
                (second p.accepting (ltb (length p.tasks) p.queue_size) room) in
            omega (arith, length-snoc p.tasks t);
        bounded = v.bounded;
      })
      (λ _. record {
        counted = v.counted;
        idle = v.idle;
        tasks_kept = v.tasks_kept;
        queued = v.queued;
        bounded = v.bounded;
      })
step-Inv {p} (scales going) v =
    if_cases Inv (ltb p.worker_count p.max_workers)
      (λ less. add_workers-Inv (scale_count p) p (scale_count-le p (ltb→lt _ _ less)) v) (λ _. v)
step-Inv {p} (receives t rest some_waiting e) v = record {
  counted = omega (arith, v.counted);
  idle = omega (arith, v.idle);
  tasks_kept = omega (arith, v.tasks_kept, length-cons p.tasks rest t e);
  queued = omega (arith, v.queued, length-cons p.tasks rest t e);
  bounded = v.bounded;
}
step-Inv {p} (begins before t after e) v = record {
  counted = omega (arith, v.counted, length-middle p.received before after t e);
  idle = omega (arith, v.idle, length-middle p.received before after t e);
  tasks_kept = omega (arith, v.tasks_kept, length-middle p.received before after t e);
  queued = v.queued;
  bounded = v.bounded;
}
step-Inv {p} (finishes before t after e) v = record {
  counted = omega (arith, v.counted, length-middle p.running before after t e);
  idle = v.idle;
  tasks_kept = omega (arith, v.tasks_kept, length-middle p.running before after t e);
  queued = v.queued;
  bounded = v.bounded;
}
step-Inv (records some_recording free) v = record {
  counted = omega (arith, v.counted);
  idle = v.idle;
  tasks_kept = v.tasks_kept;
  queued = v.queued;
  bounded = v.bounded;
}
step-Inv (waits_again some_recorded) v = record {
  counted = omega (arith, v.counted);
  idle = omega (arith, v.idle);
  tasks_kept = v.tasks_kept;
  queued = v.queued;
  bounded = v.bounded;
}
step-Inv (times_out some_waiting more) v = record {
  counted = omega (arith, v.counted);
  idle = omega (arith, v.idle);
  tasks_kept = v.tasks_kept;
  queued = v.queued;
  bounded = v.bounded;
}
step-Inv (sees_done some_waiting done) v = record {
  counted = omega (arith, v.counted);
  idle = omega (arith, v.idle);
  tasks_kept = v.tasks_kept;
  queued = v.queued;
  bounded = v.bounded;
}
step-Inv (exits some_leaving) v = record {
  counted = omega (arith, v.counted);
  idle = v.idle;
  tasks_kept = v.tasks_kept;
  queued = v.queued;
  bounded = omega (arith, v.bounded);
}
step-Inv (shuts_down open_pool free) v = record {
  counted = v.counted;
  idle = v.idle;
  tasks_kept = v.tasks_kept;
  queued = v.queued;
  bounded = v.bounded;
}
step-Inv (returns held none_left) v = record {
  counted = v.counted;
  idle = v.idle;
  tasks_kept = v.tasks_kept;
  queued = v.queued;
  bounded = v.bounded;
}

steps-Inv : {p q : Pool} → p ⟶* q → Inv p → Inv q
steps-Inv stop v = v
steps-Inv (then_go s rest) v = steps-Inv rest (step-Inv s v)

start_pool-Inv : (least most size : ℕ) → least ≤ most → Inv (start_pool least most size)
unfolding start_pool live
start_pool-Inv least most size le = add_workers-Inv least _ (omega arith) (record {
  counted = omega arith;
  idle = omega arith;
  tasks_kept = omega arith;
  queued = omega arith;
  bounded = omega arith;
})

-- In every state that a new pool reaches, if it is not made with more workers than MaxWorkers: workerCount is
-- the number of goroutines that have not counted themselves out, and never above MaxWorkers; idleWorkers is
-- the number of those that wait or have not yet begun; every task that Submit took is queued, with a worker
-- or completed; and the queue is not longer than its size.
pub reachable_pool-Inv :
    {q : Pool} (least most size : ℕ) → least ≤ most → start_pool least most size ⟶* q → Inv q
reachable_pool-Inv least most size le steps = steps-Inv steps (start_pool-Inv least most size le)
