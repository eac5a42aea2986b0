-- ===== src/EnhancedPool/Connections.antt =====
-- core/pool/enhanced_pool.go: the connections of the pool, their groups, and the calls on one of them.
use muxcore.Common.{
  ℕ, ◌+◌, ◌-◌, String, Bool, true, false, not, ◌&&◌, Option, none, some, List, [], ◌∷◌, ◌++◌, ltb,
  leb, if◌then◌else◌, length,
}
use muxcore.Common.Dict.{Dict, lookup, insert, delete}
use muxcore.Common.Keys.{string_key, number_key}
use muxcore.Common.Counts.{times, remove_first}
use muxcore.Buffer.{BytesBuffer, new_bytes_buffer}

pub record PoolConfig : Type 0 where
  pub max_connections : ℕ
  pub min_connections : ℕ
  pub max_idle_time : ℕ
  pub buffer_size : ℕ

pub record PooledConnection : Type 0 where
  pub id : String
  pub conn : ℕ
  pub buffer : BytesBuffer
  pub protocol : String
  pub is_active : Bool
  pub last_used : ℕ
  pub created_at : ℕ
  pub request_count : ℕ
  pub bytes_sent : ℕ
  pub bytes_received : ℕ
  pub healthy : Bool

pub record EnhancedPool : Type 0 where
  pub config : PoolConfig
  pub objects : Dict String PooledConnection
  pub connections : List String
  pub protocol_map : Dict String (List String)
  pub closed : List ℕ
  pub total_connections : ℕ
  pub connections_created : ℕ
  pub connections_closed : ℕ
  pub connection_errors : ℕ
  pub running : Bool

unfoldable pub new_enhanced_pool : PoolConfig → EnhancedPool
new_enhanced_pool config = record {
  config = config;
  objects = [];
  connections = [];
  protocol_map = [];
  closed = [];
  total_connections = 0;
  connections_created = 0;
  connections_closed = 0;
  connection_errors = 0;
  running = true;
}

-- `_, exists := p.connections[id]`
unfoldable pub exists_id : String → EnhancedPool → Bool
unfolding times
exists_id id p = ltb 0 (times id p.connections)

unfoldable pub find_object : String → EnhancedPool → Option PooledConnection
unfolding exists_id
find_object id p = if exists_id id p then lookup id p.objects else none

unfoldable pub fresh_connection : String → ℕ → ℕ → ℕ → PooledConnection
unfolding new_bytes_buffer
fresh_connection id now conn size = record {
  id = id;
  conn = conn;
  buffer = new_bytes_buffer size;
  protocol = "";
  is_active = true;
  last_used = now;
  created_at = now;
  request_count = 0;
  bytes_sent = 0;
  bytes_received = 0;
  healthy = true;
}

unfoldable pub pool_add : String → ℕ → ℕ → EnhancedPool → EnhancedPool × String
unfolding fresh_connection
pool_add id now conn p =
    if leb p.config.max_connections (length p.connections)
    then (
      record p { closed = p.closed ++ conn ∷ []; connection_errors = p.connection_errors + 1 },
      "",
    )
    else (
      record p {
        objects = insert id (fresh_connection id now conn p.config.buffer_size) p.objects;
        connections = p.connections ++ id ∷ [];
        connections_created = p.connections_created + 1;
        total_connections = p.total_connections + 1;
      },
      id,
    )

-- `conn.LastUsed = now`, and the answer.
unfoldable pub use_object :
    ℕ → PooledConnection → EnhancedPool → EnhancedPool × Option PooledConnection
use_object now c p =
    let used = record c { last_used = now } in
    (record p { objects = insert c.id used p.objects }, some used)

unfoldable pub get_usable :
    Option PooledConnection → ℕ → EnhancedPool → EnhancedPool × Option PooledConnection
unfolding use_object
get_usable none now p = (p, none)
get_usable (some c) now p = if c.is_active && c.healthy then use_object now c p else (p, none)

unfoldable pub pool_get : String → ℕ → EnhancedPool → EnhancedPool × Option PooledConnection
unfolding get_usable find_object
pool_get id now p = get_usable (find_object id p) now p

-- One round of the loop of GetConnectionByProtocol; minRequests is -1 until there is a best one.
unfoldable pub better : Option PooledConnection → PooledConnection → Option PooledConnection
better none c = if c.is_active && c.healthy then some c else none
better (some b) c =
    if c.is_active && c.healthy && ltb c.request_count b.request_count then some c else some b

unfoldable pub with_object :
    Option PooledConnection → Option PooledConnection → Option PooledConnection
unfolding better
with_object best none = best
with_object best (some c) = better best c

unfoldable pub best_of :
    List String → Dict String PooledConnection → Option PooledConnection → Option PooledConnection
unfolding with_object
best_of [] objects best = best
best_of (id ∷ ids) objects best = best_of ids objects (with_object best (lookup id objects))

unfoldable pub group : Option (List String) → List String
group none = []
group (some ids) = ids

unfoldable pub use_best :
    Option PooledConnection → ℕ → EnhancedPool → EnhancedPool × Option PooledConnection
unfolding use_object
use_best none now p = (p, none)
use_best (some c) now p = use_object now c p

unfoldable pub pool_get_by_protocol :
    String → ℕ → EnhancedPool → EnhancedPool × Option PooledConnection
unfolding use_best best_of group
pool_get_by_protocol protocol now p =
    use_best (best_of (group (lookup protocol p.protocol_map)) p.objects none) now p

-- A group that is left empty goes.
unfoldable pub put_group :
    String → List String → Dict String (List String) → Dict String (List String)
put_group protocol [] m = delete protocol m
put_group protocol (id ∷ ids) m = insert protocol (id ∷ ids) m

unfoldable pub remove_from_group :
    Option (List String) → String → String → Dict String (List String) → Dict String (List String)
unfolding put_group remove_first
remove_from_group none protocol id m = m
remove_from_group (some ids) protocol id m = put_group protocol (remove_first id ids) m

unfoldable pub remove_from_protocol_map :
    String → String → Dict String (List String) → Dict String (List String)
unfolding remove_from_group
remove_from_protocol_map protocol id m = remove_from_group (lookup protocol m) protocol id m

-- The guard that the callers of removeFromProtocolMap share.
unfoldable pub leave_group : String → String → Dict String (List String) → Dict String (List String)
unfolding remove_from_protocol_map
leave_group protocol id m =
    if not (string_key.test protocol "") then remove_from_protocol_map protocol id m else m

unfoldable pub update_object :
    Option PooledConnection → String → String → EnhancedPool → EnhancedPool × Bool
unfolding leave_group group
update_object none id protocol p = (p, false)
update_object (some c) id protocol p =
    let left = leave_group c.protocol id p.protocol_map in
    (
      record p {
        objects = insert id (record c { protocol = protocol }) p.objects;
        protocol_map = insert protocol (group (lookup protocol left) ++ id ∷ []) left;
      },
      true,
    )

unfoldable pub update_protocol : String → String → EnhancedPool → EnhancedPool × Bool
unfolding update_object find_object
update_protocol id protocol p = update_object (find_object id p) id protocol p

unfoldable pub remove_object : Option PooledConnection → String → EnhancedPool → EnhancedPool
unfolding leave_group remove_first
remove_object none id p = p
remove_object (some c) id p = record p {
  protocol_map = leave_group c.protocol id p.protocol_map;
  closed = p.closed ++ c.conn ∷ [];
  connections = remove_first id p.connections;
  connections_closed = p.connections_closed + 1;
  total_connections = p.total_connections - 1;
}

unfoldable pub pool_remove : String → EnhancedPool → EnhancedPool
unfolding remove_object find_object
pool_remove id p = remove_object (find_object id p) id p
