-- ===== src/ResponseWriter.antt =====
-- core/pool/connection_manager.go: the writer of a response and the chain of middlewares. The mutex of the
-- writer is a flag: a Lock while it is held waits for ever, since the holder is the same goroutine. A header is
-- the list of its lines, in the order in which the map is walked; `status_line` is the first line for a status.
pub mod Lock
pub mod Chain
mod Tests
use muxcore.Common.{
  ℕ, zero, suc, ◌+◌, String, Bool, true, false, Option, none, some, List, [], ◌∷◌, ◌++◌,
  if◌then◌else◌, length, get_elem?,
}
use muxcore.Common.Keys.{string_key, number_key}

pub record ResponseWriter : Type 0 where
  pub sent : List String
  pub header : List String
  pub status : ℕ
  pub written : ℕ
  pub header_sent : Bool
  pub locked : Bool

-- A call returns, or it waits for the mutex with the state that it has reached.
pub data Call {ℓ} (A : Type ℓ) : Type ℓ where
  returns : ResponseWriter → A → Call A
  waits : ResponseWriter → Call A

-- Reset, which is called on a writer from the pool.
pub reset : ResponseWriter → ResponseWriter
reset w = record w { sent = []; header = []; status = 0; written = 0; header_sent = false }

-- The part of WriteHeader behind the Lock, and the deferred Unlock.
pub write_header_locked : (ℕ → String) → ℕ → ResponseWriter → ResponseWriter
write_header_locked status_line code w =
    if w.header_sent then record w { locked = false } else record w {
      status = code;
      header_sent = true;
      sent = w.sent ++ status_line code ∷ w.header ++ "\r\n" ∷ [];
      locked = false;
    }

pub write_header : (ℕ → String) → ℕ → ResponseWriter → Call (Unit {0})
unfolding write_header_locked
write_header status_line code w =
    if w.locked
    then waits w
    else returns (write_header_locked status_line code (record w { locked = true })) tt

-- `w.conn.Write(data)`, of a connection that takes all of it, and the deferred Unlock.
pub write_body : String → ℕ → ResponseWriter → Call ℕ
write_body body n w =
    returns (record w { sent = w.sent ++ body ∷ []; written = w.written + n; locked = false }) n

pub write_after : String → ℕ → Call (Unit {0}) → Call ℕ
unfolding write_body
write_after body n (returns w u) = write_body body n w
write_after body n (waits w) = waits w

-- Write of a body of n bytes: under the Lock it calls WriteHeader, if no header has been sent.
pub write : (ℕ → String) → String → ℕ → ResponseWriter → Call ℕ
unfolding write_body write_header write_after
write status_line body n w =
    let held = record w { locked = true } in
    if w.locked
    then waits w
    else if w.header_sent
    then write_body body n held
    else write_after body n (write_header status_line 200 held)

pub record MiddlewareChain {ℓ} (H : Type ℓ) : Type ℓ where
  pub middlewares : List (H → H)

module _ {ℓ} {H : Type ℓ} where
  pub add_middleware : (H → H) → MiddlewareChain H → MiddlewareChain H
  add_middleware m c = record { middlewares = c.middlewares ++ m ∷ [] }

  pub apply_at : Option (H → H) → H → H
  apply_at none h = h
  apply_at (some m) h = m h

  -- The loop of Build, from the index below i down to 0.
  unfoldable pub build_loop : ℕ → List (H → H) → H → H
  unfolding apply_at
  build_loop zero ms result = result
  build_loop (suc i) ms result = build_loop i ms (apply_at (get_elem? ms i) result)

  pub build : MiddlewareChain H → H → H
  unfolding build_loop
  build c handler = build_loop (length c.middlewares) c.middlewares handler
