-- ===== src/GoroutinePool.antt =====
-- core/pool/enhanced_pool.go: OptimizedGoroutinePool as steps of its goroutines. A task is a number. A worker is
-- counted by where it stands: `waiting` in its select, with a task that it has `received` or is `running`,
-- `recording` the time of one in updateTaskTime, behind that as `recorded`, or `leaving` before workerCount goes down.
-- The thresholds of performAutoScale are left open: it may add workers whenever there are fewer than MaxWorkers.
-- int(r * 0.2) is r / 5. Counters are below 2 ^ 63. Submit's test of the running flag and its send are one step, and the
-- queue has room for one task at least.
pub mod Accounts
pub mod Shutdown
mod Tests
use muxcore.Common.{
  ℕ, zero, suc, ◌+◌, ◌-◌, ◌/◌, ◌<◌, ◌≡◌, Bool, true, false, ◌&&◌, List, [], ◌∷◌, ◌++◌, ltb,
  if◌then◌else◌, length,
}
use muxcore.Common.Keys.{string_key, number_key}

pub record Pool : Type 0 where
  pub min_workers : ℕ
  pub max_workers : ℕ
  pub queue_size : ℕ
  pub tasks : List ℕ
  pub waiting : ℕ
  pub received : List ℕ
  pub running : List ℕ
  pub recording : ℕ
  pub recorded : ℕ
  pub leaving : ℕ
  pub worker_count : ℕ
  pub idle_workers : ℕ
  pub submitted : ℕ
  pub completed : ℕ
  pub rejected : ℕ
  pub accepting : Bool
  pub cancelled : Bool
  pub locked : Bool

-- addWorker.
unfoldable pub add_worker : Pool → Pool
add_worker p = record p {
  waiting = p.waiting + 1;
  worker_count = p.worker_count + 1;
  idle_workers = p.idle_workers + 1;
}

unfoldable pub add_workers : ℕ → Pool → Pool
unfolding add_worker
add_workers zero p = p
add_workers (suc n) p = add_workers n (add_worker p)

unfoldable pub start_pool : ℕ → ℕ → ℕ → Pool
unfolding add_workers
start_pool min_workers max_workers queue_size = add_workers min_workers (record {
  min_workers = min_workers;
  max_workers = max_workers;
  queue_size = queue_size;
  tasks = [];
  waiting = 0;
  received = [];
  running = [];
  recording = 0;
  recorded = 0;
  leaving = 0;
  worker_count = 0;
  idle_workers = 0;
  submitted = 0;
  completed = 0;
  rejected = 0;
  accepting = true;
  cancelled = false;
  locked = false;
})

-- Submit, and SubmitWithTimeout where its time is over at once.
unfoldable pub submit : ℕ → Pool → Pool × Bool
submit t p =
    if p.accepting && ltb (length p.tasks) p.queue_size
    then (record p { tasks = p.tasks ++ t ∷ []; submitted = p.submitted + 1 }, true)
    else (record p { rejected = p.rejected + 1 }, false)

-- The number of workers that performAutoScale adds.
unfoldable pub scale_count : Pool → ℕ
scale_count p =
    let n = (p.max_workers - p.worker_count) / 5 in
    if ltb n 1 then 1 else if ltb 10 n then 10 else n

unfoldable pub scale_up : Pool → Pool
unfolding add_workers scale_count
scale_up p = if ltb p.worker_count p.max_workers then add_workers (scale_count p) p else p

-- The steps of a worker. `task := <-p.tasks`
unfoldable pub receive : ℕ → List ℕ → Pool → Pool
receive t rest p = record p { tasks = rest; waiting = p.waiting - 1; received = t ∷ p.received }

unfoldable pub begin : List ℕ → ℕ → List ℕ → Pool → Pool
begin before t after p = record p {
  received = before ++ after;
  running = t ∷ p.running;
  idle_workers = p.idle_workers - 1;
}

unfoldable pub finish : List ℕ → List ℕ → Pool → Pool
finish before after p = record p {
  running = before ++ after;
  recording = p.recording + 1;
  completed = p.completed + 1;
}

-- updateTaskTime, which takes the mutex.
unfoldable pub record_time : Pool → Pool
record_time p = record p { recording = p.recording - 1; recorded = p.recorded + 1 }

unfoldable pub wait_again : Pool → Pool
wait_again p = record p {
  recorded = p.recorded - 1;
  waiting = p.waiting + 1;
  idle_workers = p.idle_workers + 1;
}

-- A worker leaves its loop, after its timeout or when the context is done.
unfoldable pub leave : Pool → Pool
leave p = record p {
  waiting = p.waiting - 1;
  leaving = p.leaving + 1;
  idle_workers = p.idle_workers - 1;
}

-- `defer atomic.AddInt64(&p.workerCount, -1)` and `defer p.wg.Done()`
unfoldable pub exit : Pool → Pool
exit p = record p { leaving = p.leaving - 1; worker_count = p.worker_count - 1 }

-- Shutdown up to p.wg.Wait().
unfoldable pub shut_down : Pool → Pool
shut_down p = record p { accepting = false; cancelled = true; locked = true }

-- The workers for which p.wg.Wait() waits.
unfoldable pub live : Pool → ℕ
live p =
    p.waiting + (length p.received + (length p.running + (p.recording + (p.recorded + p.leaving))))

unfoldable pub unlock : Pool → Pool
unlock p = record p { locked = false }

infix 4 ◌⟶◌
pub data ◌⟶◌ : Pool → Pool → Type 0 where
  submits : {p : Pool} (t : ℕ) → p ⟶ (submit t p).0
  scales : {p : Pool} → p.cancelled ≡ false → p ⟶ scale_up p
  receives :
      {p : Pool} (t : ℕ) (rest : List ℕ) → 0 < p.waiting → p.tasks ≡ t ∷ rest → p ⟶ receive t rest p
  begins :
      {p : Pool} (before : List ℕ) (t : ℕ) (after : List ℕ)
      → p.received ≡ before ++ t ∷ after
      → p ⟶ begin before t after p
  finishes :
      {p : Pool} (before : List ℕ) (t : ℕ) (after : List ℕ)
      → p.running ≡ before ++ t ∷ after
      → p ⟶ finish before after p
  records : {p : Pool} → 0 < p.recording → p.locked ≡ false → p ⟶ record_time p
  waits_again : {p : Pool} → 0 < p.recorded → p ⟶ wait_again p
  times_out : {p : Pool} → 0 < p.waiting → p.min_workers < p.worker_count → p ⟶ leave p
  sees_done : {p : Pool} → 0 < p.waiting → p.cancelled ≡ true → p ⟶ leave p
  exits : {p : Pool} → 0 < p.leaving → p ⟶ exit p
  shuts_down : {p : Pool} → p.accepting ≡ true → p.locked ≡ false → p ⟶ shut_down p
  returns : {p : Pool} → p.locked ≡ true → live p ≡ 0 → p ⟶ unlock p

-- Any number of steps.
infix 4 ◌⟶*◌
pub data ◌⟶*◌ : Pool → Pool → Type 0 where
  stop : {p : Pool} → p ⟶* p
  then_go : {p q r : Pool} → p ⟶ q → q ⟶* r → p ⟶* r
