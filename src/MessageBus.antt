-- ===== src/MessageBus.antt =====
-- core/bus/enhanced_message_bus.go: messages, the queue with priorities and the partitions. A payload, an
-- interface{} of the source, is a value of the type P; times are nanoseconds, 0 the zero time. The
-- errors of the queue are `none`; the mutexes make each call one step.
pub mod Order
pub mod Refinement
pub mod Bus
pub mod Delivery
pub mod Runs
pub mod Sends
pub mod Partitions
pub mod Events
pub mod Websocket
mod Tests
use muxcore.Common.{
  ℕ, zero, suc, ◌+◌, ◌-◌, ◌%◌, ◌^◌, String, Bool, Option, none, some, List, [], ◌∷◌, ◌++◌, ltb, leb,
  if◌then◌else◌, length, get_elem?, set, replicate,
}
use muxcore.Common.Dict.{Dict}
use muxcore.Common.Keys.{string_key, number_key}
use muxcore.Common.Int.{ℤ, pos, negsuc}
use muxcore.Common.Text.{utf8, sum32a}

pub record Message (P : Type 0) : Type 0 where
  pub id : String
  pub type : String
  pub topic : String
  pub payload : P
  pub headers : Dict String String
  pub metadata : Dict String P
  pub timestamp : ℕ
  pub source : String
  pub destination : String
  pub correlation_id : String
  pub reply_to : String
  pub ttl : ℤ
  pub priority : ℤ
  pub delivery_mode : ℤ
  pub retry_count : ℤ
  pub max_retries : ℤ
  pub partition_key : String
  pub compressed : Bool
  pub checksum : String

-- The four lists of `queues`, by their index from 0 on.
pub record PriorityMessageQueue (P : Type 0) : Type 0 where
  pub low : List (Message P)
  pub normal : List (Message P)
  pub high : List (Message P)
  pub critical : List (Message P)
  pub size : ℕ

-- The index of the list for a priority.
unfoldable pub level_of : ℤ → ℕ
level_of (pos n) = if leb n 3 then n else 1
level_of (negsuc n) = 1

module _ {P : Type 0} where
  unfoldable pub level : Message P → ℕ
  unfolding level_of
  level m = level_of m.priority

  unfoldable pub new_queue : PriorityMessageQueue P
  new_queue = record { low = []; normal = []; high = []; critical = []; size = 0 }

  -- `q.queues[i]`, for an i up to 3.
  unfoldable pub queue_at : ℕ → PriorityMessageQueue P → List (Message P)
  queue_at zero q = q.low
  queue_at (suc zero) q = q.normal
  queue_at (suc (suc zero)) q = q.high
  queue_at (suc (suc (suc i))) q = q.critical

  -- `q.queues[i] = l`, for an i up to 3.
  unfoldable pub set_queue : ℕ → List (Message P) → PriorityMessageQueue P → PriorityMessageQueue P
  set_queue zero l q = record q { low = l }
  set_queue (suc zero) l q = record q { normal = l }
  set_queue (suc (suc zero)) l q = record q { high = l }
  set_queue (suc (suc (suc i))) l q = record q { critical = l }

  -- `atomic.AddInt64(&q.size, 1)`, and the same with -1.
  unfoldable pub add_size : PriorityMessageQueue P → PriorityMessageQueue P
  add_size q = record q { size = (q.size + 1) % 2 ^ 64 }

  unfoldable pub sub_size : PriorityMessageQueue P → PriorityMessageQueue P
  sub_size q = record q { size = (q.size + (2 ^ 64 - 1)) % 2 ^ 64 }

  unfoldable pub enqueue : Message P → PriorityMessageQueue P → PriorityMessageQueue P
  unfolding level queue_at set_queue add_size
  enqueue m q = add_size (set_queue (level m) (queue_at (level m) q ++ m ∷ []) q)

  -- The rounds of Dequeue from the index below p down to 0.
  unfoldable pub dequeue_from :
      ℕ → PriorityMessageQueue P → Option (Message P × PriorityMessageQueue P)
  unfolding queue_at set_queue sub_size
  dequeue_from zero q = none
  dequeue_from (suc p) q = elim (queue_at p q) [
    | [] ↦ dequeue_from p q
    | m ∷ rest ↦ some (m, sub_size (set_queue p rest q))
  ]

  unfoldable pub dequeue : PriorityMessageQueue P → Option (Message P × PriorityMessageQueue P)
  unfolding dequeue_from
  dequeue q = dequeue_from 4 q

  unfoldable pub peek_from : ℕ → PriorityMessageQueue P → Option (Message P)
  unfolding queue_at
  peek_from zero q = none
  peek_from (suc p) q = elim (queue_at p q) [ [] ↦ peek_from p q | m ∷ rest ↦ some m ]

  unfoldable pub peek : PriorityMessageQueue P → Option (Message P)
  unfolding peek_from
  peek q = peek_from 4 q

  -- Clear.
  unfoldable pub clear_queue : PriorityMessageQueue P → PriorityMessageQueue P
  clear_queue q = record { low = []; normal = []; high = []; critical = []; size = 0 }

  -- What `key` holds when GetPartition hashes it.
  unfoldable pub hashed_key : Message P → String
  hashed_key m = if string_key.test m.partition_key "" then m.topic else m.partition_key

  -- HashPartitioner.GetPartition, where int has 64 bits.
  unfoldable pub get_partition : Message P → ℤ → ℕ
  unfolding hashed_key utf8 sum32a
  get_partition m (negsuc n) = 0
  get_partition m (pos zero) = 0
  get_partition m (pos (suc n)) = sum32a (utf8 (hashed_key m)) % suc n

  -- NewMessageRouter, for a count that `make` takes.
  unfoldable pub new_message_router : ℕ → List (PriorityMessageQueue P)
  unfolding new_queue
  new_message_router partition_count = replicate partition_count new_queue

  -- The rest of Route, with `r.partitions[partitionIndex]`. `none` is the panic at an index out of range.
  unfoldable pub enqueue_at :
      Option (PriorityMessageQueue P)
      → ℕ
      → Message P
      → List (PriorityMessageQueue P)
      → Option (List (PriorityMessageQueue P))
  unfolding enqueue
  enqueue_at none i m r = none
  enqueue_at (some q) i m r = some (set r i (enqueue m q))

  unfoldable pub route :
      Message P → List (PriorityMessageQueue P) → Option (List (PriorityMessageQueue P))
  unfolding get_partition enqueue_at
  route m r = let i = get_partition m (pos (length r)) in enqueue_at (get_elem? r i) i m r

  -- MessageRouter.GetPartition.
  unfoldable pub partition_at : ℤ → List (PriorityMessageQueue P) → Option (PriorityMessageQueue P)
  partition_at (negsuc n) r = none
  partition_at (pos i) r = if ltb i (length r) then get_elem? r i else none
