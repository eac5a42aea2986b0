-- ===== src/ConnectionPool/Balance.antt =====
-- core/pool/connection_pool.go: the account of every net.Conn that is added.
use muxcore.Common.{
  ℕ, ◌+◌, String, ◌≡◌, refl, ap, Bool, true, false, Option, none, some, List, [], ◌∷◌, ◌++◌, arith,
  ◌==◌,
}
use muxcore.Common.Dict.{
  Dict, lookup, insert, delete, Distinct, delete_absent, delete-Distinct, insert-Distinct,
}
use muxcore.Common.Keys.{string_key, number_key}
use muxcore.Buffer.{new_bytes_buffer}
use muxcore.ConnectionPool.{
  Connection, ConnectionPool, new_pool, add_connection, remove_found, remove_connection,
  update_found, update_connection_protocol, conns_of, close_pool,
}

abbrev one_if : Bool → ℕ
one_if true = 1
one_if false = 0

-- How often x stands in the list.
pub times : ℕ → List ℕ → ℕ
times x [] = 0
times x (y ∷ l) = one_if (x == y) + times x l

times-nil : (x : ℕ) → times x [] ≡ 0
unfolding times
times-nil x = refl

times-append : (x : ℕ) (a b : List ℕ) → times x (a ++ b) ≡ times x a + times x b
unfolding times
times-append x [] b = omega arith
times-append x (y ∷ a) b = omega (arith, times-append x a b)

times-one : (x y : ℕ) → times x (y ∷ []) ≡ one_if (x == y)
unfolding times
times-one x y = omega arith

-- How often x is the net.Conn of a connection of the pool.
pub held : ℕ → Dict String Connection → ℕ
unfolding times conns_of
held x m = times x (conns_of m)

held-all : (x : ℕ) (m : Dict String Connection) → held x m ≡ times x (conns_of m)
unfolding held
held-all x m = refl

held-nil : (x : ℕ) → held x [] ≡ 0
unfolding held times conns_of
held-nil x = refl

held-insert_new :
    (x : ℕ) (id : String) (c : Connection) (m : Dict String Connection)
    → lookup id m ≡ none
    → held x (insert id c m) ≡ held x m + one_if (x == c.conn)
unfolding held times conns_of lookup insert
held-insert_new x id c [] h = omega arith
held-insert_new x id c ((k, d) ∷ m) h = ground (arith, held-insert_new x id c m)

held-insert_old :
    (x : ℕ) (id : String) (c d : Connection) (m : Dict String Connection)
    → lookup id m ≡ some d
    → c.conn ≡ d.conn
    → held x (insert id c m) ≡ held x m
unfolding held times conns_of lookup insert
held-insert_old x id c d [] h e = ground arith
held-insert_old x id c d ((k, y) ∷ m) h e = ground (arith, held-insert_old x id c d m)

held-delete :
    (x : ℕ) (id : String) (c : Connection) (m : Dict String Connection)
    → Distinct m
    → lookup id m ≡ some c
    → held x (delete id m) + one_if (x == c.conn) ≡ held x m
unfolding held times conns_of lookup delete
held-delete x id c [] d h = ground arith
held-delete x id c ((k, y) ∷ m) d h =
    ground (arith, string_key.test_iff k id, delete_absent id m, held-delete x id c m d.1)

pub data Op : Type 0 where
  add_op : String → ℕ → Op
  remove_op : String → Op
  update_op : String → String → Op
  close_op : Op

pub step : Op → ConnectionPool → ConnectionPool
unfolding add_connection remove_connection update_connection_protocol close_pool
step (add_op id conn) p = add_connection id conn p
step (remove_op id) p = remove_connection id p
step (update_op id protocol) p = (update_connection_protocol id protocol p).0
step close_op p = close_pool p

unfoldable pub run : List Op → ConnectionPool → ConnectionPool
unfolding step
run [] p = p
run (o ∷ l) p = run l (step o p)

-- The id of an AddConnection is not that of a connection in the pool, as a UUID is not.
pub IsFresh : Op → ConnectionPool → Type 0
IsFresh (add_op id conn) p = lookup id p.connections ≡ none
IsFresh (remove_op id) p = Unit
IsFresh (update_op id protocol) p = Unit
IsFresh close_op p = Unit

unfoldable pub AreFresh : List Op → ConnectionPool → Type 0
unfolding IsFresh step
AreFresh [] p = Unit
AreFresh (o ∷ l) p = IsFresh o p × AreFresh l (step o p)

-- How often a run adds x.
pub added : ℕ → List Op → ℕ
added x [] = 0
added x (add_op id conn ∷ l) = one_if (x == conn) + added x l
added x (remove_op id ∷ l) = added x l
added x (update_op id protocol ∷ l) = added x l
added x (close_op ∷ l) = added x l

abbrev total : ℕ → ConnectionPool → ℕ
total x p = held x p.connections + times x p.closed

remove_found-total :
    (x : ℕ) (id : String) (p : ConnectionPool) (found : Option Connection)
    → Distinct p.connections
    → lookup id p.connections ≡ found
    → total x (remove_found found id p) ≡ total x p
unfolding remove_found
remove_found-total x id p none d h = refl
remove_found-total x id p (some c) d h = omega (
  arith,
  held-delete x id c p.connections d h,
  times-append x p.closed (c.conn ∷ []),
  times-one x c.conn,
)

remove_found-Distinct :
    (id : String) (p : ConnectionPool) (found : Option Connection)
    → Distinct p.connections
    → Distinct (remove_found found id p).connections
unfolding remove_found
remove_found-Distinct id p none d = d
remove_found-Distinct id p (some c) d = delete-Distinct id p.connections d

update_found-total :
    (x : ℕ) (id protocol : String) (p : ConnectionPool) (found : Option Connection)
    → Distinct p.connections
    → lookup id p.connections ≡ found
    → (total x (update_found found id protocol p).0 ≡ total x p)
      × Distinct (update_found found id protocol p).0.connections
unfolding update_found
update_found-total x id protocol p none d h = (refl, d)
update_found-total x id protocol p (some c) d h =
    let new = record c { protocol = protocol } in
    (
      ap (λ (n : ℕ). n + times x p.closed) (held-insert_old x id new c p.connections h refl),
      insert-Distinct id new p.connections d,
    )

step-Balanced :
    (x : ℕ) (o : Op) (p : ConnectionPool)
    → Distinct p.connections
    → IsFresh o p
    → (total x (step o p) ≡ added x (o ∷ []) + total x p) × Distinct (step o p).connections
unfolding step IsFresh added add_connection remove_connection update_connection_protocol close_pool
step-Balanced x (add_op id conn) p d fresh =
    let new : Connection = record {
      id = id;
      conn = conn;
      buffer = new_bytes_buffer 1024;
      protocol = "";
      is_active = true;
    } in
    (
      omega (arith, held-insert_new x id new p.connections fresh),
      insert-Distinct id new p.connections d,
    )
step-Balanced x (remove_op id) p d fresh = (
  omega (arith, remove_found-total x id p (lookup id p.connections) d refl),
  remove_found-Distinct id p (lookup id p.connections) d,
)
step-Balanced x (update_op id protocol) p d fresh =
    let (same, d') = update_found-total x id protocol p (lookup id p.connections) d refl in
    (omega arith, d')
step-Balanced x close_op p d fresh = (
  omega (
    arith,
    times-append x p.closed (conns_of p.connections),
    held-all x p.connections,
    held-nil x,
  ),
  tt,
)

added-cons : (x : ℕ) (o : Op) (l : List Op) → added x (o ∷ l) ≡ added x (o ∷ []) + added x l
unfolding added
added-cons x (add_op id conn) l = omega arith
added-cons x (remove_op id) l = omega arith
added-cons x (update_op id protocol) l = omega arith
added-cons x close_op l = omega arith

run-total :
    (x : ℕ) (l : List Op) (p : ConnectionPool)
    → Distinct p.connections
    → AreFresh l p
    → total x (run l p) ≡ added x l + total x p
unfolding run AreFresh added
run-total x [] p d fresh = omega arith
run-total x (o ∷ l) p d (fresh, rest) =
    let (same, d') = step-Balanced x o p d fresh in
    omega (arith, added-cons x o l, run-total x l (step o p) d' rest)

-- After any run of calls on a new pool, each AddConnection with an id that is not in use, every net.Conn
-- has been closed as often as it has been added less the times that it is still in the pool: none is lost,
-- and none is closed twice.
pub run-balance :
    (x : ℕ) (l : List Op)
    → AreFresh l new_pool
    → held x (run l new_pool).connections + times x (run l new_pool).closed ≡ added x l
unfolding new_pool
run-balance x l fresh = omega (arith, run-total x l new_pool tt fresh, held-nil x, times-nil x)
