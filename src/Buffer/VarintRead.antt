-- ===== src/Buffer/VarintRead.antt =====
-- pkg/buffer/bytes_buffer.go: what ReadVarint and ReadZigzag give back of what was written.
use muxcore.Common.{
  ℕ, zero, suc, ◌+◌, ◌*◌, ◌/◌, ◌%◌, ◌^◌, ◌≤◌, ◌<◌, ◌≡◌, sym, ap, ◌∙◌, inl, inr, false, List, [],
  ◌∷◌, ◌++◌, arith, leb, Bool-cases, length, lt→leb,
}
use muxcore.Buffer.{BytesBuffer, ok, write_varint, write_varint_loop, read_varint, read_varint_loop}
use Prim.Native.Nat.{bit_and, bit_or}
use native.Mathlib.Nat.{pow-suc, mod-eq_of_lt, mul-le-mul_right}
use mathlib.Core.Path.{ap₂}
use native.Mathlib.Numerals.{towards_suc}
use mathlib.Core.List.{append-nil}
use muxcore.Common.Bits.{bit_or_disjoint, low_seven, top_bit}
use muxcore.Buffer.Slices.{Inv, Returns, Returns-mono}
use muxcore.Buffer.Reads.{unread, Appends-unread_all, read_byte-unread}
use muxcore.Buffer.Varint.{
  length-encode, encode, encode_last, encode_more, Wrote, write_varint_loop-Wrote,
}

abbrev skip : ℕ → BytesBuffer → BytesBuffer
skip n b = record b { rpos = b.rpos + n }

round_last :
    (rounds offset x u : ℕ) (b : BytesBuffer) (rest : List ℕ)
    → Inv b
    → b.rpos ≤ b.wpos
    → unread b ≡ u ∷ rest
    → u < 128
    → read_varint_loop (suc rounds) offset x b ≡ ok (bit_or x (u * 2 ^ offset % 2 ^ 64), skip 1 b)
unfolding read_varint_loop
round_last rounds offset x u b rest v r h small =
    let clear : bit_and u 0x80 ≡ 0 = omega (arith, top_bit u) in
    rw ((read_byte-unread b u rest v r h).0, clear, read_varint_loop)

round_more :
    (rounds offset x u : ℕ) (b : BytesBuffer) (rest : List ℕ)
    → Inv b
    → b.rpos ≤ b.wpos
    → unread b ≡ (u % 128 + 128) ∷ rest
    → read_varint_loop (suc rounds) offset x b
      ≡ read_varint_loop rounds (offset + 7) (bit_or x (u % 128 * 2 ^ offset % 2 ^ 64)) (skip 1 b)
unfolding read_varint_loop
round_more rounds offset x u b rest v r h =
    let marked : bit_and (u % 128 + 128) 0x80 ≡ 0x80 = omega (arith, top_bit (u % 128 + 128)) in
    let low : bit_and (u % 128 + 128) 0x7f ≡ u % 128 = omega (arith, low_seven (u % 128 + 128)) in
    rw ((read_byte-unread b (u % 128 + 128) rest v r h).0, marked, low, read_varint_loop)

-- Seven more bits.
pow_seven : (n : ℕ) → 2 ^ (n + 7) ≡ 2 ^ n * 128
pow_seven n = simp towards_suc (omega (arith, pow-suc 2 n))

gather :
    (x u offset : ℕ)
    → x < 2 ^ offset
    → u * 2 ^ offset < 2 ^ 64
    → bit_or x (u * 2 ^ offset % 2 ^ 64) ≡ x + u * 2 ^ offset
gather x u offset h k = rw (mod-eq_of_lt k) (bit_or_disjoint offset x u h)

low_fits : (u p : ℕ) → u % 128 * p ≤ u * p
low_fits u p = mul-le-mul_right p (omega arith)

split_seven : (u p : ℕ) → u % 128 * p + u / 128 * (p * 128) ≡ u * p
split_seven u p =
    let e : u ≡ u % 128 + u / 128 * 128 = omega arith in omega (arith, ap (λ (t : ℕ). t * p) e)

round_bound : (x u p : ℕ) → x < p → x + u % 128 * p < p * 128
round_bound x u p h = omega (arith, mul-le-mul_right p (small u))
  where
    small : (u : ℕ) → u % 128 ≤ 127
    small u = omega arith

last-encode :
    (fuel rounds offset x u : ℕ) (b : BytesBuffer) (rest : List ℕ)
    → Inv b
    → b.rpos ≤ b.wpos
    → unread b ≡ encode (suc fuel) u ++ rest
    → leb 128 u ≡ false
    → x < 2 ^ offset
    → u * 2 ^ offset < 2 ^ 64
    → read_varint_loop (suc rounds) offset x b
      ≡ ok (x + u * 2 ^ offset, skip (length (encode (suc fuel) u)) b)
last-encode fuel rounds offset x u b rest v r h last m t =
    let front : unread b ≡ u ∷ rest = rw (encode_last fuel u last) at h in
    rw (
      round_last rounds offset x u b rest v r front (ground arith),
      gather x u offset m t,
      encode_last fuel u last,
    )

-- The reading loop, at any offset, adds what the bytes of u stand for and passes over them.
pub read_varint_loop-encode :
    (fuel rounds offset x u : ℕ) (b : BytesBuffer) (rest : List ℕ)
    → Inv b
    → b.rpos ≤ b.wpos
    → unread b ≡ encode (suc fuel) u ++ rest
    → u < 128 ^ suc fuel
    → fuel < rounds
    → x < 2 ^ offset
    → u * 2 ^ offset < 2 ^ 64
    → read_varint_loop rounds offset x b
      ≡ ok (x + u * 2 ^ offset, skip (length (encode (suc fuel) u)) b)
read_varint_loop-encode fuel zero offset x u b rest v r h k n m t = absurd (omega arith)
read_varint_loop-encode zero (suc rounds) offset x u b rest v r h k n m t =
    last-encode zero rounds offset x u b rest v r h (lt→leb 128 u (omega arith)) m t
read_varint_loop-encode (suc fuel) (suc rounds) offset x u b rest v r h k n m t =
    elim (Bool-cases (leb 128 u)) [
      | inr last ↦ last-encode (suc fuel) rounds offset x u b rest v r h last m t
      | inl more ↦
          let bs = encode (suc fuel) (u / 128) in
          let front : unread b ≡ (u % 128 + 128) ∷ (bs ++ rest) =
            rw (encode_more (suc fuel) u more) at h in
          let (_, left, bound) = read_byte-unread b (u % 128 + 128) (bs ++ rest) v r front in
          let low = low_fits u (2 ^ offset) in
          let whole = split_seven u (2 ^ offset) in
          let ih =
            read_varint_loop-encode fuel rounds (offset + 7) (x + u % 128 * 2 ^ offset) (u / 128)
              (skip 1 b) rest v bound left (omega (arith, pow-suc 128 (suc fuel))) (omega arith)
              (rw (pow_seven offset) (round_bound x u (2 ^ offset) m))
              (rw (pow_seven offset) (omega arith)) in
          rw
            (
              round_more rounds offset x u b (bs ++ rest) v r front,
              gather x (u % 128) offset m (omega arith),
              ih,
              encode_more (suc fuel) u more,
            )
            (ap₂ (λ sum at. ok (sum, record b { rpos = at })) (rw (pow_seven offset) (omega arith))
              (omega arith))
    ]

-- Every 64-bit number goes into a well-formed buffer, with nothing unread, in at most ten bytes,
-- of which WriteVarint returns the number; ReadVarint then gives the number back and leaves nothing
-- unread.
pub read_varint-write_varint :
    (u : ℕ) (b : BytesBuffer)
    → Inv b
    → b.rpos ≡ b.wpos
    → u < 2 ^ 64
    → Returns (write_varint u b) λ w.
      (w.0.wpos ≡ b.wpos + w.1)
      × (w.1 ≤ 10)
      × Returns (read_varint w.0) λ r. (r.0 ≡ u) × (r.1.rpos ≡ r.1.wpos)
unfolding write_varint read_varint
read_varint-write_varint u b v e h =
    Returns-mono (Wrote (encode 10 u) 0 b) _ (write_varint_loop 10 u 0 b)
      (write_varint_loop-Wrote 9 u 0 b v (omega arith))
      λ (q, n) (a, count).
        let all : unread q ≡ encode 10 u ++ [] =
          Appends-unread_all v e a ∙ sym (append-nil (encode 10 u)) in
        let got =
          read_varint_loop-encode 9 10 0 0 u q [] a.inv (omega (arith, a.same_rpos, a.advanced)) all
            (omega arith) (omega arith) (omega arith) (omega arith) in
        (
          omega (arith, a.advanced),
          omega (arith, length-encode 10 u),
          rw got (omega arith, omega (arith, a.advanced, a.same_rpos)),
        )
