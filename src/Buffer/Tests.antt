-- ===== src/Buffer/Tests.antt =====
-- Runs of pkg/buffer's byte buffer.
use muxcore.Common.{◌+◌, ◌-◌, ◌^◌, ◌≤◌, ◌≡◌, refl, [], ◌∷◌, arith}
use muxcore.Buffer.{
  BytesBuffer, little_endian, ok, ◌>>=◌, write, write_varint, zigzag, bytes, read_varint,
}
use muxcore.Buffer.Slices.{Inv, Returns}
use muxcore.Buffer.Reads.{unread, unread-write}
use muxcore.Buffer.VarintRead.{read_varint-write_varint}

-- Two bytes written into a slice of four, one of them read.
abbrev half_read : BytesBuffer
half_read = record { buf = 7 ∷ 8 ∷ 0 ∷ 0 ∷ []; rpos = 1; wpos = 2; order = little_endian }

abbrev drained : BytesBuffer
drained = record half_read { rpos = 2 }

three_hundred :
    (write_varint 300 drained >>= λ w. read_varint w.0)
    ≡ ok (300, record { buf = 7 ∷ 8 ∷ 172 ∷ 2 ∷ []; rpos = 4; wpos = 4; order = little_endian })
unfolding write_varint read_varint
three_hundred = refl

minus_one : zigzag 32 (2 ^ 32 - 1) ≡ 1
unfolding zigzag
minus_one = refl

unread-write_example :
    Returns
      (write (1 ∷ 2 ∷ 3 ∷ []) half_read)
      λ q. (unread q ≡ 8 ∷ 1 ∷ 2 ∷ 3 ∷ []) × Inv q × (q.rpos ≤ q.wpos)
unfolding bytes
unread-write_example = unread-write (1 ∷ 2 ∷ 3 ∷ []) half_read (omega arith) (omega arith)

read_varint-write_varint_example : Returns (write_varint 300 drained) λ w.
    (w.0.wpos ≡ 2 + w.1)
    × (w.1 ≤ 10)
    × Returns (read_varint w.0) λ r. (r.0 ≡ 300) × (r.1.rpos ≡ r.1.wpos)
read_varint-write_varint_example =
    read_varint-write_varint 300 drained (omega arith) refl (omega arith)
