-- ===== src/ConnectionPool.antt =====
-- core/pool/connection_pool.go: the pool of connections. A net.Conn is a number, and `closed` lists what
-- Close was called on; the id that uuid.New gives is an argument. Logging an error of Close changes nothing.
pub mod Balance
mod Tests
use muxcore.Common.{
  ℕ, ◌+◌, String, Bool, true, false, ◌&&◌, Option, none, some, List, [], ◌∷◌, ◌++◌, if◌then◌else◌,
}
use muxcore.Common.Dict.{Dict, lookup, insert, delete}
use muxcore.Common.Keys.{string_key, number_key}
use muxcore.Buffer.{BytesBuffer, new_bytes_buffer}

pub record Connection : Type 0 where
  pub id : String
  pub conn : ℕ
  pub buffer : BytesBuffer
  pub protocol : String
  pub is_active : Bool

pub record ConnectionPool : Type 0 where
  pub connections : Dict String Connection
  pub closed : List ℕ

pub new_pool : ConnectionPool
new_pool = record { connections = []; closed = [] }

pub add_connection : String → ℕ → ConnectionPool → ConnectionPool
unfolding new_bytes_buffer
add_connection id conn p = record p {
  connections =
      insert id
        (record {
          id = id;
          conn = conn;
          buffer = new_bytes_buffer 1024;
          protocol = "";
          is_active = true;
        })
        p.connections;
}

pub get_connection : String → ConnectionPool → Option Connection
get_connection id p = lookup id p.connections

pub remove_found : Option Connection → String → ConnectionPool → ConnectionPool
remove_found none id p = p
remove_found (some c) id p = record p {
  connections = delete id p.connections;
  closed = p.closed ++ c.conn ∷ [];
}

pub remove_connection : String → ConnectionPool → ConnectionPool
unfolding remove_found
remove_connection id p = remove_found (lookup id p.connections) id p

pub update_found : Option Connection → String → String → ConnectionPool → ConnectionPool × Bool
update_found none id protocol p = (p, false)
update_found (some c) id protocol p =
    (record p { connections = insert id (record c { protocol = protocol }) p.connections }, true)

pub update_connection_protocol : String → String → ConnectionPool → ConnectionPool × Bool
unfolding update_found
update_connection_protocol id protocol p = update_found (lookup id p.connections) id protocol p

pub active_connections : Dict String Connection → List Connection
active_connections [] = []
active_connections ((k, c) ∷ m) =
    let rest = active_connections m in if c.is_active then c ∷ rest else rest

pub get_active_connections : ConnectionPool → List Connection
unfolding active_connections
get_active_connections p = active_connections p.connections

pub count_active : String → Dict String Connection → ℕ
count_active protocol [] = 0
count_active protocol ((k, c) ∷ m) =
    let rest = count_active protocol m in
    if c.is_active && string_key.test c.protocol protocol then rest + 1 else rest

pub get_active_connection_count : String → ConnectionPool → ℕ
unfolding count_active
get_active_connection_count protocol p = count_active protocol p.connections

pub conns_of : Dict String Connection → List ℕ
conns_of [] = []
conns_of ((k, c) ∷ m) = c.conn ∷ conns_of m

-- Close.
pub close_pool : ConnectionPool → ConnectionPool
unfolding conns_of
close_pool p = record { connections = []; closed = p.closed ++ conns_of p.connections }
