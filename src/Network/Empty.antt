-- ===== src/Network/Empty.antt =====
-- core/network/buffered_conn.go: Read into an empty slice.
use muxcore.Common.{
  ℕ, suc, ◌+◌, ◌≡◌, refl, sym, subst, ◌⊎◌, inl, inr, Option, none, some, List, [], ◌∷◌, arith, leb,
  length, lt→leb, if_either,
}
use muxcore.Common.Keys.{string_key, number_key}
use muxcore.Common.Int.{ltb_ℤ, pos}
use muxcore.Buffer.{BytesBuffer, Result, ok, err, eof, panic, read, write, reset, remain}
use muxcore.Network.{
  Arrival, chunk, failure, ConnResult, got, failed, panics, BufferedConn, conn_read, read_direct,
  read_result, refill, filled, fill, read_on, read_tried, read_with, read_conn,
}

-- No byte is returned.
unfoldable pub IsEmpty : ConnResult (List ℕ) → Type 0
IsEmpty (got d) = d ≡ []
IsEmpty (failed e) = Unit
IsEmpty panics = Unit

conn_read-none : (l : List Arrival) → ((conn_read 0 l).0 ≡ none) ⊎ ((conn_read 0 l).0 ≡ some [])
unfolding conn_read
conn_read-none [] = inl refl
conn_read-none (failure ∷ l) = inl refl
conn_read-none (chunk [] ∷ l) = inr refl
conn_read-none (chunk (x ∷ d) ∷ l) = inr (rw (lt→leb (suc (length d)) 0 (omega arith)) refl)

read_none :
    (b : BytesBuffer) → (read 0 b ≡ err eof) ⊎ (read 0 b ≡ ok ([], record b { rpos = b.rpos + 0 }))
unfolding read
read_none b =
    if_either
      (λ (r : Result (List ℕ × BytesBuffer)).
        (r ≡ err eof) ⊎ (r ≡ ok ([], record b { rpos = b.rpos + 0 })))
      (leb (length b.buf) b.rpos) (inl refl) (inr refl)

read_direct_none : (c : BufferedConn) → IsEmpty (read_direct 0 c).1
unfolding read_direct IsEmpty
read_direct_none c = elim (conn_read-none c.incoming) [
  | inl e ↦ rw (e, read_direct) tt
  | inr e ↦ rw (e, read_direct) refl
]

refill_none : (r : Result BytesBuffer) (c : BufferedConn) → IsEmpty (refill 0 r c).1
unfolding refill read_result IsEmpty
refill_none (ok b) c = elim (read_none b) [
  | inl e ↦ rw (e, refill, read_result) tt
  | inr e ↦ rw (e, refill, read_result) refl
]
refill_none (err e) c = tt
refill_none panic c = tt

filled_none :
    (d : Option (List ℕ)) (b : BytesBuffer) (c : BufferedConn) → IsEmpty (filled 0 b c d).1
unfolding filled IsEmpty
filled_none none b c = tt
filled_none (some d) b c = refill_none (write d b) c

read_on_none : (b : BytesBuffer) (c : BufferedConn) → IsEmpty (read_on 0 b c).1
unfolding read_on fill
read_on_none b c =
    if_either (λ (r : BufferedConn × ConnResult (List ℕ)). IsEmpty r.1) (leb (length b.buf) 0)
      (read_direct_none c) (filled_none (conn_read (length b.buf) c.incoming).0 (reset b) _)

read_with_none : (b : BytesBuffer) (c : BufferedConn) → IsEmpty (read_with 0 b c).1
unfolding read_with read_tried
read_with_none b c =
    if_either (λ (r : BufferedConn × ConnResult (List ℕ)). IsEmpty r.1) (ltb_ℤ (pos 0) (remain b))
      (elim (read_none b) [
        | inl e ↦
            subst (λ (r : Result (List ℕ × BytesBuffer)). IsEmpty (read_tried 0 b r c).1) (sym e)
              (read_on_none b c)
        | inr e ↦
            subst (λ (r : Result (List ℕ × BytesBuffer)). IsEmpty (read_tried 0 b r c).1) (sym e)
              (read_on_none (record b { rpos = b.rpos + 0 })
                (record c { buffer = some (record b { rpos = b.rpos + 0 }) }))
      ])
      (read_on_none b c)

read_open_none :
    (buffer : Option BytesBuffer) (c : BufferedConn)
    → IsEmpty
        (elim buffer as (λ x. BufferedConn × ConnResult (List ℕ)) [
          | none ↦ (c, panics)
          | some b ↦ read_with 0 b c
        ]).1
unfolding IsEmpty
read_open_none none c = tt
read_open_none (some b) c = read_with_none b c

-- Read into an empty slice returns no byte, whatever has arrived or is buffered.
pub read_conn_none : (c : BufferedConn) → IsEmpty (read_conn 0 c).1
unfolding read_conn IsEmpty
read_conn_none c =
    if_either (λ (r : BufferedConn × ConnResult (List ℕ)). IsEmpty r.1) c.closed tt
      (read_open_none c.buffer c)
