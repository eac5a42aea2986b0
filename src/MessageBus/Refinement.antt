-- ===== src/MessageBus/Refinement.antt =====
-- core/bus/enhanced_message_bus.go: runs of calls of the queue with priorities.
use muxcore.Common.{
  ℕ, zero, suc, ◌+◌, ◌-◌, ◌%◌, ◌^◌, ◌≤◌, ◌≡◌, refl, ap, ◌∙◌, Option, none, some, List, [], ◌∷◌,
  ◌++◌, arith, length, drop, All,
}
use muxcore.Common.Keys.{string_key, number_key}
use muxcore.MessageBus.{
  Message, PriorityMessageQueue, level, new_queue, queue_at, set_queue, add_size, sub_size, enqueue,
  dequeue_from, dequeue, peek_from, peek, clear_queue,
}
use muxcore.MessageBus.Order.{contents, level-le, Inv, insert_by_level, enqueue_level}

All-append {ℓ κ} : {A : Type ℓ} (P : A → Type κ) (a b : List A) → All P a → All P b → All P (a ++ b)
All-append P [] b p q = q
All-append P (x ∷ a) b (h, p) q = (h, All-append P a b p q)

one_less : (n s : ℕ) → s ≡ suc n % 2 ^ 64 → (s + (2 ^ 64 - 1)) % 2 ^ 64 ≡ n % 2 ^ 64
one_less n s e = omega arith

pub data QueueOp (P : Type 0) : Type 0 where
  enqueue_op : Message P → QueueOp P
  dequeue_op : QueueOp P
  peek_op : QueueOp P
  size_op : QueueOp P
  clear_op : QueueOp P

pub data Answer (P : Type 0) : Type 0 where
  done : Answer P
  message : Option (Message P) → Answer P
  number : ℕ → Answer P

module _ {P : Type 0} where
  unfoldable pub dequeued :
      Option (Message P × PriorityMessageQueue P)
      → PriorityMessageQueue P
      → PriorityMessageQueue P × Answer P
  dequeued none q = (q, message none)
  dequeued (some (m, q')) q = (q', message (some m))

  unfoldable pub step : QueueOp P → PriorityMessageQueue P → PriorityMessageQueue P × Answer P
  unfolding enqueue dequeue peek clear_queue dequeued
  step (enqueue_op m) q = (enqueue m q, done)
  step dequeue_op q = dequeued (dequeue q) q
  step peek_op q = (q, message (peek q))
  step size_op q = (q, number q.size)
  step clear_op q = (clear_queue q, done)

  unfoldable pub run : List (QueueOp P) → PriorityMessageQueue P → List (Answer P)
  unfolding step
  run [] q = []
  run (o ∷ l) q = (step o q).1 ∷ run l (step o q).0

  -- The specification, on one list.
  unfoldable pub first : List (Message P) → Option (Message P)
  first [] = none
  first (m ∷ l) = some m

  unfoldable pub list_step : QueueOp P → List (Message P) → List (Message P) × Answer P
  unfolding insert_by_level first
  list_step (enqueue_op m) l = (insert_by_level m l, done)
  list_step dequeue_op l = (drop 1 l, message (first l))
  list_step peek_op l = (l, message (first l))
  list_step size_op l = (l, number (length l % 2 ^ 64))
  list_step clear_op l = ([], done)

  unfoldable pub list_run : List (QueueOp P) → List (Message P) → List (Answer P)
  unfolding list_step
  list_run [] l = []
  list_run (o ∷ os) l = (list_step o l).1 ∷ list_run os (list_step o l).0

  length-insert_by_level :
      (m : Message P) (l : List (Message P)) → length (insert_by_level m l) ≡ length l + 1
  unfolding insert_by_level
  length-insert_by_level m [] = refl
  length-insert_by_level m (x ∷ l) = ground (arith, length-insert_by_level m l)

  -- A step from a queue whose messages stand in a list l.
  record Simulates (l : List (Message P)) (a : Answer P) (s : PriorityMessageQueue P × Answer P)
      : Type 0 where
    same : contents s.0 ≡ l
    answer : s.1 ≡ a
    inv : Inv s.0

  set_queue-Inv :
      (m : Message P) (q : PriorityMessageQueue P) (k : ℕ)
      → Inv q
      → level m ≡ k
      → k ≤ 3
      → length (contents (set_queue k (queue_at k q ++ m ∷ []) q)) ≡ length (contents q) + 1
      → Inv (add_size (set_queue k (queue_at k q ++ m ∷ []) q))
  unfolding set_queue queue_at add_size contents
  set_queue-Inv m q zero v e le n = record {
    low = All-append (λ (x : Message P). level x ≡ 0) q.low (m ∷ []) v.low (e, tt);
    normal = v.normal;
    high = v.high;
    critical = v.critical;
    sized = omega (arith, v.sized, n);
  }
  set_queue-Inv m q (suc zero) v e le n = record {
    low = v.low;
    normal = All-append (λ (x : Message P). level x ≡ 1) q.normal (m ∷ []) v.normal (e, tt);
    high = v.high;
    critical = v.critical;
    sized = omega (arith, v.sized, n);
  }
  set_queue-Inv m q (suc (suc zero)) v e le n = record {
    low = v.low;
    normal = v.normal;
    high = All-append (λ (x : Message P). level x ≡ 2) q.high (m ∷ []) v.high (e, tt);
    critical = v.critical;
    sized = omega (arith, v.sized, n);
  }
  set_queue-Inv m q (suc (suc (suc k))) v e le n = record {
    low = v.low;
    normal = v.normal;
    high = v.high;
    critical =
        All-append (λ (x : Message P). level x ≡ 3) q.critical (m ∷ []) v.critical
          (omega arith, tt);
    sized = omega (arith, v.sized, n);
  }

  contents-add_size : (q : PriorityMessageQueue P) → contents (add_size q) ≡ contents q
  unfolding contents add_size
  contents-add_size q = refl

  enqueue-Simulates :
      (m : Message P) (q : PriorityMessageQueue P)
      → Inv q
      → Simulates (insert_by_level m (contents q)) done (enqueue m q, done)
  unfolding enqueue
  enqueue-Simulates m q v =
      let put = enqueue_level m q v (level m) refl (level-le m) in
      record {
        same = contents-add_size _ ∙ put;
        answer = refl;
        inv =
            set_queue-Inv m q (level m) v refl (level-le m)
              (ap (λ (l : List (Message P)). length l) put ∙ length-insert_by_level m (contents q));
      }

  dequeue-Simulates :
      (low normal high critical : List (Message P)) (size : ℕ)
      → let q : PriorityMessageQueue P = record {
        low = low;
        normal = normal;
        high = high;
        critical = critical;
        size = size;
      } in
        Inv q
        → Simulates (drop 1 (contents q)) (message (first (contents q))) (dequeued (dequeue q) q)
  unfolding dequeue dequeue_from dequeued contents first queue_at set_queue sub_size
  dequeue-Simulates l n h (m ∷ c) s v = record {
    same = refl;
    answer = refl;
    inv = record {
      low = v.low;
      normal = v.normal;
      high = v.high;
      critical = v.critical.1;
      sized = one_less _ s v.sized;
    };
  }
  dequeue-Simulates l n (m ∷ h) [] s v = record {
    same = refl;
    answer = refl;
    inv = record {
      low = v.low;
      normal = v.normal;
      high = v.high.1;
      critical = tt;
      sized = one_less _ s v.sized;
    };
  }
  dequeue-Simulates l (m ∷ n) [] [] s v = record {
    same = refl;
    answer = refl;
    inv = record {
      low = v.low;
      normal = v.normal.1;
      high = tt;
      critical = tt;
      sized = one_less _ s v.sized;
    };
  }
  dequeue-Simulates (m ∷ l) [] [] [] s v = record {
    same = refl;
    answer = refl;
    inv = record {
      low = v.low.1;
      normal = tt;
      high = tt;
      critical = tt;
      sized = one_less _ s v.sized;
    };
  }
  dequeue-Simulates [] [] [] [] s v = record { same = refl; answer = refl; inv = v }

  peek-first :
      (low normal high critical : List (Message P)) (size : ℕ)
      → let q : PriorityMessageQueue P = record {
        low = low;
        normal = normal;
        high = high;
        critical = critical;
        size = size;
      } in
        peek q ≡ first (contents q)
  unfolding peek peek_from contents first queue_at
  peek-first l n h (m ∷ c) s = refl
  peek-first l n (m ∷ h) [] s = refl
  peek-first l (m ∷ n) [] [] s = refl
  peek-first (m ∷ l) [] [] [] s = refl
  peek-first [] [] [] [] s = refl

  empty-Inv : Inv (new_queue {P = P})
  unfolding new_queue contents
  empty-Inv = record { low = tt; normal = tt; high = tt; critical = tt; sized = refl }

  contents-new_queue : contents (new_queue {P = P}) ≡ []
  unfolding new_queue contents
  contents-new_queue = refl

  step-Simulates :
      (o : QueueOp P) (q : PriorityMessageQueue P)
      → Inv q
      → Simulates (list_step o (contents q)).0 (list_step o (contents q)).1 (step o q)
  unfolding step list_step clear_queue contents
  step-Simulates (enqueue_op m) q v = enqueue-Simulates m q v
  step-Simulates dequeue_op q v = dequeue-Simulates q.low q.normal q.high q.critical q.size v
  step-Simulates peek_op q v = record {
    same = refl;
    answer = ap message (peek-first q.low q.normal q.high q.critical q.size);
    inv = v;
  }
  step-Simulates size_op q v = record { same = refl; answer = ap number v.sized; inv = v }
  step-Simulates clear_op q v = record {
    same = refl;
    answer = refl;
    inv = record { low = tt; normal = tt; high = tt; critical = tt; sized = refl };
  }

  run-list_run :
      (ops : List (QueueOp P)) (q : PriorityMessageQueue P)
      → Inv q
      → run ops q ≡ list_run ops (contents q)
  unfolding run list_run
  run-list_run [] q v = refl
  run-list_run (o ∷ os) q v =
      let s = step-Simulates o q v in
      let rest = run-list_run os (step o q).0 s.inv in rw (s.answer, rest, s.same) refl

  -- From a new queue, any sequence of calls of Enqueue, Dequeue, Peek, Size and Clear answers as one list
  -- does, into which a message goes behind every message that is not of a smaller priority, and of which
  -- Dequeue and Peek give the first; a priority outside 0 to 3 counts as 1.
  pub queue_refines : (ops : List (QueueOp P)) → run ops new_queue ≡ list_run ops []
  queue_refines ops =
      run-list_run ops new_queue empty-Inv
      ∙ ap (λ (l : List (Message P)). list_run ops l) contents-new_queue
