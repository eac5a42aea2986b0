-- ===== src/Buffer/Words.antt =====
-- pkg/buffer/bytes_buffer.go: words of fixed size in either byte order.
use muxcore.Common.{
  ℕ, zero, suc, ◌+◌, ◌*◌, ◌/◌, ◌%◌, ◌^◌, ◌≤◌, ◌<◌, ◌≡◌, refl, sym, ap, subst, ◌∙◌, List, [], ◌∷◌,
  arith, length, length-append,
}
use muxcore.Buffer.{
  BytesBuffer, ByteOrder, big_endian, little_endian, ok, ◌>>=◌, write, little, big, put_uint,
  get_uint, from_little, from_big, write_uint, read_uint, snoc,
}
use native.Mathlib.Nat.{pow-suc}
use mathlib.Core.List.{append-nil}
use muxcore.Buffer.Slices.{Inv, Returns, Returns->>=, write-Appends}
use muxcore.Buffer.Reads.{unread, next-unread, Appends-unread_all}

length-little : (w u : ℕ) → length (little w u) ≡ w
unfolding little
length-little zero u = refl
length-little (suc w) u = ap suc (length-little w (u / 256))

length-big : (w u : ℕ) → length (big w u) ≡ w
unfolding big
length-big zero u = refl
length-big (suc w) u =
    omega (arith, length-append (big w (u / 256)) ((u % 256) ∷ []), length-big w (u / 256))

from_little-little : (w u : ℕ) → u < 256 ^ w → from_little (little w u) ≡ u
unfolding little from_little
from_little-little zero u h = omega arith
from_little-little (suc w) u h =
    omega (arith, from_little-little w (u / 256) (omega (arith, pow-suc 256 w)))

from_big-snoc :
    (acc : ℕ) (xs : List ℕ) (x : ℕ) → from_big acc (snoc xs x) ≡ from_big acc xs * 256 + x
unfolding from_big
from_big-snoc acc [] x = refl
from_big-snoc acc (y ∷ xs) x = from_big-snoc (acc * 256 + y) xs x

from_big-big : (w u : ℕ) → u < 256 ^ w → from_big 0 (big w u) ≡ u
unfolding big
from_big-big zero u h = unfold from_big in omega arith
from_big-big (suc w) u h = omega (
  arith,
  from_big-snoc 0 (big w (u / 256)) (u % 256),
  from_big-big w (u / 256) (omega (arith, pow-suc 256 w)),
)

length-put_uint : (o : ByteOrder) (w u : ℕ) → length (put_uint o w u) ≡ w
unfolding put_uint
length-put_uint big_endian w u = length-big w u
length-put_uint little_endian w u = length-little w u

-- In either byte order a word of w bytes reads back as the number that was put.
pub get_uint-put_uint : (o : ByteOrder) (w u : ℕ) → u < 256 ^ w → get_uint o (put_uint o w u) ≡ u
unfolding put_uint get_uint
get_uint-put_uint big_endian w u h = from_big-big w u h
get_uint-put_uint little_endian w u h = from_little-little w u h

read_uint_front :
    (b : BytesBuffer) (src : List ℕ)
    → Inv b
    → b.rpos ≤ b.wpos
    → unread b ≡ src
    → read_uint (length src) b ≡ ok (get_uint b.order src, record b { rpos = b.rpos + length src })
unfolding read_uint
read_uint_front b src v r h =
    rw ((next-unread b src [] v r (h ∙ sym (append-nil src))).0, read_uint)

-- A word written into a well-formed buffer with nothing unread is what the next read of that size
-- returns, for every size and either byte order, and nothing is unread after it.
pub read_uint-write_uint :
    (w u : ℕ) (b : BytesBuffer)
    → Inv b
    → b.rpos ≡ b.wpos
    → u < 256 ^ w
    → Returns (write_uint w u b >>= read_uint w) λ r. (r.0 ≡ u) × (r.1.rpos ≡ r.1.wpos)
unfolding write_uint
read_uint-write_uint w u b v e h =
    Returns->>= _ (λ r. (r.0 ≡ u) × (r.1.rpos ≡ r.1.wpos)) (write (put_uint b.order w u) b)
      (read_uint w) (write-Appends (put_uint b.order w u) b v)
      λ q a.
        let len = length-put_uint b.order w u in
        let all = Appends-unread_all v e a in
        let got = read_uint_front q (put_uint b.order w u) a.inv (omega (arith, a.same_rpos)) all in
        let back = get_uint-put_uint b.order w u h in
        subst (λ n. Returns (read_uint n q) (λ r. (r.0 ≡ u) × (r.1.rpos ≡ r.1.wpos))) len
          (rw (got, a.same_order) (back, omega (arith, a.advanced, a.same_rpos)))
