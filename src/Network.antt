-- ===== src/Network.antt =====
-- core/network/buffered_conn.go: a connection behind a byte buffer. The net.Conn is what its Reads
-- give, one after the other; with nothing left a Read fails, as it does at its deadline. A chunk that
-- does not fit into the slice is cut, and its rest is left for the next Read.
pub mod Padding
pub mod Empty
mod Tests
use muxcore.Common.{
  ℕ, Bool, true, false, Option, none, some, List, [], ◌∷◌, ◌++◌, leb, ◌==◌, if◌then◌else◌, length,
  take, drop,
}
use muxcore.Common.Keys.{string_key, number_key}
use muxcore.Common.Int.{ℤ, ltb_ℤ, pos}
use muxcore.Buffer.{BytesBuffer, Result, ok, err, panic, remain, new_bytes_buffer}
use muxcore.Buffer

pub data Arrival : Type 0 where
  chunk : List ℕ → Arrival
  failure : Arrival

-- The errors of the connection: io.EOF, that of the net.Conn, and ErrCodeNetworkConnectionLost.
pub data ConnError : Type 0 where
  end_of_file conn_failed connection_lost : ConnError

pub data ConnResult {ℓ} (A : Type ℓ) : Type ℓ where
  got : A → ConnResult A
  failed : ConnError → ConnResult A
  panics : ConnResult A

pub record BufferedConn : Type 0 where
  pub incoming : List Arrival
  pub sent : List ℕ
  pub buffer : Option BytesBuffer
  pub closed : Bool

pub new_buffered_conn : List Arrival → ℕ → BufferedConn
unfolding new_bytes_buffer
new_buffered_conn incoming buffer_size = record {
  incoming = incoming;
  sent = [];
  buffer = some (new_bytes_buffer (if buffer_size == 0 then 4096 else buffer_size));
  closed = false;
}

-- Conn.Read into a slice of n bytes, with what is left for later.
pub conn_read : ℕ → List Arrival → Option (List ℕ) × List Arrival
conn_read n [] = (none, [])
conn_read n (failure ∷ rest) = (none, rest)
conn_read n (chunk d ∷ rest) =
    if leb (length d) n then (some d, rest) else (some (take n d), chunk (drop n d) ∷ rest)

-- `bc.Conn.Read(b)`
pub read_direct : ℕ → BufferedConn → BufferedConn × ConnResult (List ℕ)
unfolding conn_read
read_direct n c =
    let (d, rest) = conn_read n c.incoming in
    let c' = record c { incoming = rest } in
    elim d [ none ↦ (c', failed conn_failed) | some d ↦ (c', got d) ]

-- `return bc.buffer.Read(b)`
pub read_result : Result (List ℕ × BytesBuffer) → BufferedConn → BufferedConn × ConnResult (List ℕ)
read_result (ok (d, b)) c = (record c { buffer = some b }, got d)
read_result (err e) c = (c, failed end_of_file)
read_result panic c = (c, panics)

-- What was read from the connection is written into the buffer, and read from there.
pub refill : ℕ → Result BytesBuffer → BufferedConn → BufferedConn × ConnResult (List ℕ)
unfolding read_result Buffer.read
refill n (ok b) c = read_result (Buffer.read n b) (record c { buffer = some b })
refill n (err e) c = (c, panics)
refill n panic c = (c, panics)

pub filled : ℕ → BytesBuffer → BufferedConn → Option (List ℕ) → BufferedConn × ConnResult (List ℕ)
unfolding refill Buffer.write
filled n b c none = (c, failed conn_failed)
filled n b c (some d) = refill n (Buffer.write d b) c

-- Read fills the buffer that it has reset, and reads from it.
pub fill : ℕ → BytesBuffer → BufferedConn → BufferedConn × ConnResult (List ℕ)
unfolding conn_read filled Buffer.reset
fill n b c =
    let (d, rest) = conn_read (length b.buf) c.incoming in
    filled n (Buffer.reset b) (record c { incoming = rest; buffer = some (Buffer.reset b) }) d

-- The part of Read behind the bytes that are buffered.
pub read_on : ℕ → BytesBuffer → BufferedConn → BufferedConn × ConnResult (List ℕ)
unfolding read_direct fill
read_on n b c = if leb (length b.buf) n then read_direct n c else fill n b c

abbrev pub got_some {ℓ} : {A : Type ℓ} → List A → Bool
got_some [] = false
got_some (x ∷ xs) = true

-- Read goes on where the read of the buffer has given no byte.
pub read_tried :
    ℕ
    → BytesBuffer
    → Result (List ℕ × BytesBuffer)
    → BufferedConn
    → BufferedConn × ConnResult (List ℕ)
unfolding read_on
read_tried n b (ok (d, b')) c =
    let c' = record c { buffer = some b' } in if got_some d then (c', got d) else read_on n b' c'
read_tried n b (err e) c = read_on n b c
read_tried n b panic c = (c, panics)

-- Read with the buffer of the connection: its bytes are tried first, if any is unread.
pub read_with : ℕ → BytesBuffer → BufferedConn → BufferedConn × ConnResult (List ℕ)
unfolding read_tried Buffer.read
read_with n b c =
    if ltb_ℤ (pos 0) (remain b) then read_tried n b (Buffer.read n b) c else read_on n b c

-- Read into a slice of n bytes. A closed connection has no buffer.
unfoldable pub read_conn : ℕ → BufferedConn → BufferedConn × ConnResult (List ℕ)
unfolding read_with
read_conn n c =
    if c.closed
    then (c, failed end_of_file)
    else elim c.buffer [ none ↦ (c, panics) | some b ↦ read_with n b c ]

pub write_conn : List ℕ → BufferedConn → BufferedConn × ConnResult ℕ
write_conn d c =
    if c.closed
    then (c, failed connection_lost)
    else (record c { sent = c.sent ++ d }, got (length d))

unfoldable pub close_conn : BufferedConn → BufferedConn
close_conn c = if c.closed then c else record c { closed = true; buffer = none }

-- Available and Reset use the buffer without a test of `closed`.
pub available : BufferedConn → ConnResult ℤ
available c = elim c.buffer [ none ↦ panics | some b ↦ got (remain b) ]

pub reset_conn : BufferedConn → BufferedConn × ConnResult (Unit {0})
unfolding Buffer.reset
reset_conn c = elim c.buffer [
  | none ↦ (c, panics)
  | some b ↦ (record c { buffer = some (Buffer.reset b) }, got tt)
]
