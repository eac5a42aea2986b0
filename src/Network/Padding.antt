-- ===== src/Network/Padding.antt =====
-- core/network/buffered_conn.go: how many bytes Read returns, and what a closed connection does.
use muxcore.Common.{
  ℕ, zero, ◌-◌, ◌≤◌, ◌<◌, ◌≡◌, refl, sym, ap, subst, ◌∙◌, true, false, Option, none, some, List, [],
  ◌∷◌, ◌++◌, arith, leb, ◌==◌, if◌then◌else◌, length, length-replicate, le→leb, if_cases,
}
use muxcore.Common.Keys.{string_key, number_key}
use muxcore.Buffer.{BytesBuffer, Result, zeros, new_bytes_buffer, reset}
use muxcore.Buffer.Fresh.{written, write_new, read-written}
use muxcore.Network.{
  Arrival, chunk, end_of_file, conn_failed, connection_lost, ConnResult, got, failed, panics,
  BufferedConn, new_buffered_conn, conn_read, read_direct, read_result, refill, filled, fill,
  read_on, read_with, read_conn, write_conn, close_conn, available, reset_conn,
}

reset_new : (size : ℕ) → reset (new_bytes_buffer size) ≡ new_bytes_buffer size
unfolding reset new_bytes_buffer
reset_new size = refl

conn_read_fits :
    (n : ℕ) (d : List ℕ) (rest : List Arrival)
    → length d ≤ n
    → conn_read n (chunk d ∷ rest) ≡ (some d, rest)
unfolding conn_read
conn_read_fits n d rest h = rw (le→leb (length d) n h) refl

filled-new :
    (n size : ℕ) (d : List ℕ) (c : BufferedConn)
    → length d ≤ n
    → n ≤ size
    → 0 < size
    → (filled n (new_bytes_buffer size) c (some d)).1 ≡ got (d ++ zeros (n - length d))
unfolding filled refill read_result
filled-new n size d c fits small some_size =
    let (b, same) = read-written n size d fits small some_size in
    ap (λ (r : Result BytesBuffer). (refill n r c).1) (write_new size d (omega arith))
    ∙ ap
        (λ (r : Result (List ℕ × BytesBuffer)).
          (read_result r (record c { buffer = some (written size d) })).1)
        same

fill-new :
    (n size : ℕ) (d : List ℕ) (rest : List Arrival) (c : BufferedConn)
    → c.incoming ≡ chunk d ∷ rest
    → length d ≤ n
    → n ≤ size
    → 0 < size
    → (fill n (new_bytes_buffer size) c).1 ≡ got (d ++ zeros (n - length d))
unfolding fill reset new_bytes_buffer
fill-new n size d rest c h fits small some_size =
    let room : length (zeros size) ≡ size = length-replicate size zero in
    ap
      (λ (r : Option (List ℕ) × List Arrival).
        (filled n (new_bytes_buffer size)
          (record c { incoming = r.1; buffer = some (new_bytes_buffer size) }) r.0).1)
      (ap (conn_read (length (zeros size))) h
        ∙ conn_read_fits (length (zeros size)) d rest (omega arith))
    ∙ filled-new n size d _ fits small some_size

-- A new connection, of a size that is not replaced by the default.
abbrev fresh_conn : List Arrival → ℕ → BufferedConn
fresh_conn incoming size = record {
  incoming = incoming;
  sent = [];
  buffer = some (new_bytes_buffer size);
  closed = false;
}

new_buffered_conn-fresh :
    (incoming : List Arrival) (size : ℕ)
    → 0 < size
    → new_buffered_conn incoming size ≡ fresh_conn incoming size
unfolding new_buffered_conn
new_buffered_conn-fresh incoming size h =
    if_cases (λ (s : ℕ). fresh_conn incoming s ≡ fresh_conn incoming size) (size == 0)
      (λ none_given. absurd (ground arith)) (λ given. refl)

-- Nothing is buffered in it, so Read goes on to the connection.
read_conn-fresh :
    (n size : ℕ) (incoming : List Arrival)
    → 0 < size
    → read_conn n (new_buffered_conn incoming size) ≡ (
        if leb (length (zeros size)) n
        then read_direct n (fresh_conn incoming size)
        else fill n (new_bytes_buffer size) (fresh_conn incoming size))
unfolding read_conn read_with read_on new_bytes_buffer
read_conn-fresh n size incoming h = ap (read_conn n) (new_buffered_conn-fresh incoming size h)

-- The first Read of a new connection, into a slice that is smaller than the connection's buffer, fills
-- the slice: behind the bytes that have arrived it returns zeros, and counts them.
pub read_conn_pads :
    (n size : ℕ) (d : List ℕ) (rest : List Arrival)
    → length d ≤ n
    → n < size
    → (read_conn n (new_buffered_conn (chunk d ∷ rest) size)).1 ≡ got (d ++ zeros (n - length d))
read_conn_pads n size d rest fits small =
    ap (λ (r : BufferedConn × ConnResult (List ℕ)). r.1)
      (read_conn-fresh n size (chunk d ∷ rest) (omega arith))
    ∙ if_cases (λ (r : BufferedConn × ConnResult (List ℕ)). r.1 ≡ got (d ++ zeros (n - length d)))
        (leb (length (zeros size)) n) (λ large. absurd (ground (arith, length-replicate size zero)))
        (λ lower.
          fill-new n size d rest (fresh_conn (chunk d ∷ rest) size) refl fits (omega arith)
            (omega arith))

read_direct-fits :
    (n : ℕ) (d : List ℕ) (rest : List Arrival) (c : BufferedConn)
    → c.incoming ≡ chunk d ∷ rest
    → length d ≤ n
    → (read_direct n c).1 ≡ got d
unfolding read_direct
read_direct-fits n d rest c h fits =
    ap
      (λ (r : Option (List ℕ) × List Arrival).
        (elim r.0 as (λ x. BufferedConn × ConnResult (List ℕ)) [
          | none ↦ (record c { incoming = r.1 }, failed conn_failed)
          | some d ↦ (record c { incoming = r.1 }, got d)
        ]).1)
      (ap (conn_read n) h ∙ conn_read_fits n d rest fits)

-- The first Read of a new connection, into a slice at least as large as the connection's buffer, returns
-- the bytes that have arrived and no others.
pub read_conn_exact :
    (n size : ℕ) (d : List ℕ) (rest : List Arrival)
    → length d ≤ n
    → 0 < size
    → size ≤ n
    → (read_conn n (new_buffered_conn (chunk d ∷ rest) size)).1 ≡ got d
read_conn_exact n size d rest fits some_size large =
    ap (λ (r : BufferedConn × ConnResult (List ℕ)). r.1)
      (read_conn-fresh n size (chunk d ∷ rest) some_size)
    ∙ if_cases (λ (r : BufferedConn × ConnResult (List ℕ)). r.1 ≡ got d)
        (leb (length (zeros size)) n)
        (λ h. read_direct-fits n d rest (fresh_conn (chunk d ∷ rest) size) refl fits)
        (λ lower. absurd (ground (arith, length-replicate size zero)))

close_conn-open :
    (c : BufferedConn) → c.closed ≡ false → close_conn c ≡ record c { closed = true; buffer = none }
unfolding close_conn
close_conn-open c opened =
    if_cases (λ (r : BufferedConn). r ≡ record c { closed = true; buffer = none }) c.closed
      (λ h. absurd (cc)) (λ h. refl)

-- After Close of an open connection, Read gives io.EOF and Write its error, but Available and Reset panic:
-- they use the buffer, which Close has set to nil.
pub close_conn_panics :
    (n : ℕ) (d : List ℕ) (c : BufferedConn)
    → c.closed ≡ false
    → ((read_conn n (close_conn c)).1 ≡ failed end_of_file)
      × ((write_conn d (close_conn c)).1 ≡ failed connection_lost)
      × (available (close_conn c) ≡ panics)
      × ((reset_conn (close_conn c)).1 ≡ panics)
unfolding read_conn write_conn available reset_conn
close_conn_panics n d c opened =
    subst
      (λ (r : BufferedConn).
        ((read_conn n r).1 ≡ failed end_of_file)
        × ((write_conn d r).1 ≡ failed connection_lost)
        × (available r ≡ panics)
        × ((reset_conn r).1 ≡ panics))
      (sym (close_conn-open c opened)) (refl, refl, refl, refl)
