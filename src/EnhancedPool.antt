-- ===== src/EnhancedPool.antt =====
-- core/pool/enhanced_pool.go: OptimizedConnectionPool. The maps hold pointers: `objects` is what they point to, by id,
-- `connections` the ids of the map of connections, and `protocol_map` the ids of each group. A net.Conn is a number,
-- and `closed` lists what Close was called on. The id that uuid.New gives is an argument.
mod Connections
pub mod Accounts
pub mod Groups
pub mod Steps
pub mod Balancing
mod Tests
unfoldable pub use Connections.*
use muxcore.Common.{
  ℕ, ◌+◌, ◌-◌, String, ◌≡◌, Bool, true, false, not, ◌&&◌, Option, none, some, List, [], ◌∷◌, ◌++◌,
  ltb, if◌then◌else◌, length, take,
}
use muxcore.Common.Dict.{Dict, lookup, insert}
use muxcore.Common.Keys.{string_key, number_key}

-- One round of performHealthCheck; `alive` is whether SetReadDeadline succeeds.
unfoldable pub check_object : Option PooledConnection → Bool → EnhancedPool → EnhancedPool
unfolding pool_remove
check_object none alive p = p
check_object (some c) alive p =
    let marked = record p { objects = insert c.id (record c { healthy = alive }) p.objects } in
    if not c.is_active then p else if alive then marked else pool_remove c.id marked

unfoldable pub check_ids : (ℕ → Bool) → List String → EnhancedPool → EnhancedPool
unfolding check_object
check_ids alive [] p = p
check_ids alive (id ∷ ids) p = check_ids alive ids (check_alive (lookup id p.objects))
  where
    check_alive : Option PooledConnection → EnhancedPool
    check_alive none = p
    check_alive (some c) = check_object (some c) (alive c.conn) p

unfoldable pub pool_health_check : (ℕ → Bool) → EnhancedPool → EnhancedPool
unfolding check_ids
pool_health_check alive p = check_ids alive p.connections p

unfoldable pub is_idle : ℕ → ℕ → PooledConnection → Bool
is_idle max_idle_time now c = ltb max_idle_time (now - c.last_used)

unfoldable pub active_and : (PooledConnection → Bool) → Option PooledConnection → Bool
active_and test none = false
active_and test (some c) = c.is_active && test c

-- The ids of the active connections that pass a test.
unfoldable pub active_ids :
    (PooledConnection → Bool) → List String → Dict String PooledConnection → List String
unfolding active_and
active_ids test [] objects = []
active_ids test (id ∷ ids) objects =
    let rest = active_ids test ids objects in
    if active_and test (lookup id objects) then id ∷ rest else rest

unfoldable pub remove_ids : List String → EnhancedPool → EnhancedPool
unfolding pool_remove
remove_ids [] p = p
remove_ids (id ∷ ids) p = remove_ids ids (pool_remove id p)

unfoldable pub clean_idle_connections : ℕ → EnhancedPool → EnhancedPool
unfolding remove_ids active_ids is_idle
clean_idle_connections now p =
    let active_count = length (active_ids (λ _. true) p.connections p.objects) in
    remove_ids
      (take (active_count - p.config.min_connections)
        (active_ids (is_idle p.config.max_idle_time now) p.connections p.objects))
      p

unfoldable pub pool_update_stats : ℕ → ℕ → ℕ → PooledConnection → PooledConnection
pool_update_stats sent received now c = record c {
  request_count = c.request_count + 1;
  bytes_sent = c.bytes_sent + sent;
  bytes_received = c.bytes_received + received;
  last_used = now;
}

unfoldable pub close_conns : List String → Dict String PooledConnection → List ℕ
close_conns [] objects = []
close_conns (id ∷ ids) objects =
    let rest = close_conns ids objects in closed_one (lookup id objects) rest
  where
    closed_one : Option PooledConnection → List ℕ → List ℕ
    closed_one none l = l
    closed_one (some c) l = c.conn ∷ l

unfoldable pub close_enhanced_pool : EnhancedPool → EnhancedPool
unfolding close_conns
close_enhanced_pool p = if not p.running then p else record p {
  running = false;
  closed = p.closed ++ close_conns p.connections p.objects;
  connections = [];
  protocol_map = [];
}

unfoldable pub sum_of : (PooledConnection → ℕ) → List String → Dict String PooledConnection → ℕ
sum_of f [] objects = 0
sum_of f (id ∷ ids) objects = part (lookup id objects) + sum_of f ids objects
  where
    part : Option PooledConnection → ℕ
    part none = 0
    part (some c) = f c

pub record PoolMetrics : Type 0 where
  pub total_connections : ℕ
  pub active_connections : ℕ
  pub idle_connections : ℕ
  pub connections_created : ℕ
  pub connections_closed : ℕ
  pub connection_errors : ℕ
  pub total_requests : ℕ
  pub total_bytes_sent : ℕ
  pub total_bytes_received : ℕ

unfoldable pub pool_metrics : ℕ → EnhancedPool → PoolMetrics
unfolding active_ids is_idle sum_of
pool_metrics now p = record {
  total_connections = p.total_connections;
  active_connections = length (active_ids (λ _. true) p.connections p.objects);
  idle_connections =
      length (active_ids (is_idle p.config.max_idle_time now) p.connections p.objects);
  connections_created = p.connections_created;
  connections_closed = p.connections_closed;
  connection_errors = p.connection_errors;
  total_requests = sum_of (λ c. c.request_count) p.connections p.objects;
  total_bytes_sent = sum_of (λ c. c.bytes_sent) p.connections p.objects;
  total_bytes_received = sum_of (λ c. c.bytes_received) p.connections p.objects;
}

-- The steps of the pool and of those who hold its connections. A check, a removal of the cleaner and UpdateStats may meet
-- an object that is in the pool no more.
pub data PoolStep : EnhancedPool → EnhancedPool → Type 0 where
  adds :
      {p : EnhancedPool} (id : String) (now conn : ℕ)
      → lookup id p.objects ≡ none
      → PoolStep p (pool_add id now conn p).0
  gets : {p : EnhancedPool} (id : String) (now : ℕ) → PoolStep p (pool_get id now p).0
  gets_by :
      {p : EnhancedPool} (protocol : String) (now : ℕ)
      → PoolStep p (pool_get_by_protocol protocol now p).0
  updates : {p : EnhancedPool} (id protocol : String) → PoolStep p (update_protocol id protocol p).0
  removes : {p : EnhancedPool} (id : String) → PoolStep p (pool_remove id p)
  checks :
      {p : EnhancedPool} (id : String) (alive : Bool)
      → PoolStep p (check_object (lookup id p.objects) alive p)
  counts :
      {p : EnhancedPool} (id : String) (c : PooledConnection) (sent received now : ℕ)
      → lookup id p.objects ≡ some c
      → PoolStep p
          (record p { objects = insert id (pool_update_stats sent received now c) p.objects })
  closes : {p : EnhancedPool} → PoolStep p (close_enhanced_pool p)

-- Any number of steps.
pub data PoolSteps : EnhancedPool → EnhancedPool → Type 0 where
  no_step : {p : EnhancedPool} → PoolSteps p p
  and_step : {p q r : EnhancedPool} → PoolSteps p q → PoolStep q r → PoolSteps p r
