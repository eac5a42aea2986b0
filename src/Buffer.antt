-- ===== src/Buffer.antt =====
-- pkg/buffer/bytes_buffer.go: the growing byte buffer with a read and a write position. Bytes are
-- numbers below 256, positions and sizes are not negative and do not overflow, and the scratch
-- bytes `temp` are left out: each use writes them before it copies them.
pub mod Slices
pub mod Reads
pub mod Words
pub mod Varint
pub mod VarintRead
pub mod Zigzag
pub mod Fresh
mod Tests
use muxcore.Common.{
  ℕ, zero, suc, ◌+◌, ◌-◌, ◌*◌, ◌/◌, ◌%◌, ◌^◌, true, false, none, some, List, [], ◌∷◌, ◌++◌, ltb,
  leb, ◌==◌, if◌then◌else◌, length, get_elem?, take, drop, replicate,
}
use Prim.Native.Nat.{bit_and, bit_or, bit_xor}
use muxcore.Common.Int.{ℤ, pos, sub_ℕ, ltb_ℤ}

-- binary.BigEndian and binary.LittleEndian.
pub data ByteOrder : Type 0 where
  big_endian little_endian : ByteOrder

pub record BytesBuffer : Type 0 where
  pub buf : List ℕ
  pub rpos : ℕ
  pub wpos : ℕ
  pub order : ByteOrder

pub data Error : Type 0 where
  not_enough overflow eof : Error

-- `panic` is a slice expression out of range.
pub data Result {ℓ} (A : Type ℓ) : Type ℓ where
  ok : A → Result A
  err : Error → Result A
  panic : Result A

infixl 5 ◌>>=◌
abbrev pub ◌>>=◌ {ℓ κ} : {A : Type ℓ} {B : Type κ} → Result A → (A → Result B) → Result B
ok a >>= f = f a
err e >>= f = err e
panic >>= f = panic

-- `make([]byte, n)`
abbrev pub zeros : ℕ → List ℕ
zeros n = replicate n 0

-- The bytes of `buf` after `copy(buf[start:], src)`, for a `start` in range.
unfoldable pub copy_at : List ℕ → ℕ → List ℕ → List ℕ
copy_at [] start src = []
copy_at (x ∷ xs) (suc start) src = x ∷ copy_at xs start src
copy_at (x ∷ xs) zero [] = x ∷ xs
copy_at (x ∷ xs) zero (s ∷ src) = s ∷ copy_at xs zero src

pub new_bytes_buffer_with_order : ℕ → ByteOrder → BytesBuffer
new_bytes_buffer_with_order size order = record {
  buf = zeros size;
  rpos = 0;
  wpos = 0;
  order = order;
}

unfoldable pub new_bytes_buffer : ℕ → BytesBuffer
unfolding new_bytes_buffer_with_order
new_bytes_buffer size = new_bytes_buffer_with_order size big_endian

pub create_bytes_buffer_with_order : List ℕ → ByteOrder → BytesBuffer
create_bytes_buffer_with_order bytes order = record {
  buf = bytes;
  rpos = 0;
  wpos = length bytes;
  order = order;
}

-- `copy(buf, b.buf[:b.wpos])`; the capacity of `buf` is taken to be its length.
pub grow : ℕ → BytesBuffer → Result BytesBuffer
unfolding copy_at
grow n b =
    if leb b.wpos (length b.buf)
    then ok (record b { buf = copy_at (zeros (2 * length b.buf + n)) 0 (take b.wpos b.buf) })
    else panic

unfoldable pub set_wpos : ℕ → BytesBuffer → Result BytesBuffer
unfolding grow
set_wpos p b = (if ltb (length b.buf) p then grow (p - length b.buf) b else ok b) >>= λ b'.
    ok (record b' { wpos = p })

pub set_rpos : ℕ → BytesBuffer → BytesBuffer
set_rpos p b = record b { rpos = p }

-- `copy(b.buf[b.wpos:], src); b.wpos += len(src)`
put : List ℕ → BytesBuffer → Result BytesBuffer
unfolding copy_at
put src b =
    if leb b.wpos (length b.buf)
    then ok (record b { buf = copy_at b.buf b.wpos src; wpos = b.wpos + length src })
    else panic

-- Write and WriteString. WriteByte, WriteUint16, WriteUint32 and WriteUint64 are calls of it: they
-- test, grow, copy and advance in the same way by 1, 2, 4 and 8 bytes.
unfoldable pub write : List ℕ → BytesBuffer → Result BytesBuffer
unfolding grow put
write src b =
    (if ltb (length b.buf) (b.wpos + length src) then grow (length src) b else ok b) >>= put src

-- `b.buf[b.wpos] = c` is in range as soon as `b.wpos + 1` is at most the length.
pub write_byte : ℕ → BytesBuffer → Result BytesBuffer
unfolding write
write_byte c = write (c ∷ [])

-- The last `w` bytes of a number, the low one first.
pub little : ℕ → ℕ → List ℕ
little zero u = []
little (suc w) u = u % 256 ∷ little w (u / 256)

abbrev snoc : List ℕ → ℕ → List ℕ
snoc xs x = xs ++ x ∷ []

pub big : ℕ → ℕ → List ℕ
big zero u = []
big (suc w) u = snoc (big w (u / 256)) (u % 256)

-- PutUint16, PutUint32 and PutUint64 of the order, at `w` of 2, 4 and 8.
pub put_uint : ByteOrder → ℕ → ℕ → List ℕ
unfolding little big
put_uint big_endian w u = big w u
put_uint little_endian w u = little w u

from_little : List ℕ → ℕ
from_little [] = 0
from_little (x ∷ xs) = x + 256 * from_little xs

from_big : ℕ → List ℕ → ℕ
from_big acc [] = acc
from_big acc (x ∷ xs) = from_big (acc * 256 + x) xs

-- Uint16, Uint32 and Uint64 of the order.
pub get_uint : ByteOrder → List ℕ → ℕ
unfolding from_little from_big
get_uint big_endian bs = from_big 0 bs
get_uint little_endian bs = from_little bs

-- WriteUint16, WriteUint32 and WriteUint64, at `w` of 2, 4 and 8.
pub write_uint : ℕ → ℕ → BytesBuffer → Result BytesBuffer
unfolding write put_uint
write_uint w u b = write (put_uint b.order w u) b

-- WriteVarint: the loop `for u >= 1<<7` on fuel, with the count that it returns; ten rounds are
-- enough for 64 bits. Out of fuel, which no call meets, is `err overflow`.
pub write_varint_loop : ℕ → ℕ → ℕ → BytesBuffer → Result (BytesBuffer × ℕ)
unfolding write_byte
write_varint_loop zero u l b = err overflow
write_varint_loop (suc fuel) u l b = elim (leb 128 u) [
  | true ↦
      write_byte (bit_or (bit_and u 0x7f) 0x80 % 256) b >>= write_varint_loop fuel (u / 128) (l + 1)
  | false ↦ write_byte (u % 256) b >>= λ b'. ok (b', l + 1)
]

pub write_varint : ℕ → BytesBuffer → Result (BytesBuffer × ℕ)
unfolding write_varint_loop
write_varint u = write_varint_loop 10 u 0

-- `(u << 1) ^ uint32(int32(u)>>31)` for a word of `w` bits, 32 or 64: the arithmetic shift gives
-- w ones for a set sign bit, and 0 for a clear one.
pub zigzag : ℕ → ℕ → ℕ
zigzag w u = bit_xor (u * 2 % 2 ^ w) (if leb (2 ^ (w - 1)) u then 2 ^ w - 1 else 0)

-- `(x >> 1) ^ -(x & 1)`
pub unzigzag : ℕ → ℕ → ℕ
unzigzag w x = bit_xor (x / 2) (if bit_and x 1 == 0 then 0 else 2 ^ w - 1)

-- WriteZigzag32 and WriteZigzag64.
pub write_zigzag : ℕ → ℕ → BytesBuffer → Result (BytesBuffer × ℕ)
unfolding zigzag write_varint
write_zigzag w u = write_varint (zigzag w u)

unfoldable pub bytes : BytesBuffer → List ℕ
bytes b = take b.wpos b.buf

-- Remain: negative where reads have passed the write position.
abbrev pub remain : BytesBuffer → ℤ
remain b = sub_ℕ b.wpos b.rpos

unfoldable pub reset : BytesBuffer → BytesBuffer
reset b = record b { rpos = 0; wpos = 0 }

-- Read: at most `n` bytes, from as many as `buf` has, written or not.
unfoldable pub read : ℕ → BytesBuffer → Result (List ℕ × BytesBuffer)
read n b =
    let got = take n (drop b.rpos b.buf) in
    if leb (length b.buf) b.rpos then err eof else ok (got, record b { rpos = b.rpos + length got })

pub read_full : ℕ → BytesBuffer → Result (List ℕ × BytesBuffer)
read_full n b =
    let got = take n (drop b.rpos b.buf) in
    if ltb_ℤ (remain b) (pos n)
    then err not_enough
    else if ltb (length b.buf) b.rpos
    then panic
    else if ltb (length got) n
    then err not_enough
    else ok (got, record b { rpos = b.rpos + n })

-- `b.buf[b.rpos : b.rpos+n]`, behind the test of Remain: Next, and the reads of words.
pub next : ℕ → BytesBuffer → Result (List ℕ × BytesBuffer)
next n b =
    if ltb_ℤ (remain b) (pos n)
    then err not_enough
    else if ltb (length b.buf) (b.rpos + n)
    then panic
    else ok (take n (drop b.rpos b.buf), record b { rpos = b.rpos + n })

-- ReadUint16, ReadUint32 and ReadUint64, at `w` of 2, 4 and 8.
pub read_uint : ℕ → BytesBuffer → Result (ℕ × BytesBuffer)
unfolding next get_uint
read_uint w b = next w b >>= λ r. ok (get_uint b.order r.0, r.1)

-- ReadByte tests the length of `buf`, not the write position.
pub read_byte : BytesBuffer → Result (ℕ × BytesBuffer)
read_byte b = elim (get_elem? b.buf b.rpos) [
  | none ↦ err eof
  | some c ↦ ok (c, record b { rpos = b.rpos + 1 })
]

-- ReadVarint: `for offset := 0; offset < 64; offset += 7`, with the rounds left.
pub read_varint_loop : ℕ → ℕ → ℕ → BytesBuffer → Result (ℕ × BytesBuffer)
unfolding read_byte
read_varint_loop zero offset x b = err overflow
read_varint_loop (suc rounds) offset x b = elim (read_byte b) [
  | ok (temp, b') ↦ elim (bit_and temp 0x80 == 0x80) [
    | true ↦
        read_varint_loop rounds (offset + 7) (bit_or x (bit_and temp 0x7f * 2 ^ offset % 2 ^ 64)) b'
    | false ↦ ok (bit_or x (temp * 2 ^ offset % 2 ^ 64), b')
  ]
  | err e ↦ err e
  | panic ↦ panic
]

pub read_varint : BytesBuffer → Result (ℕ × BytesBuffer)
unfolding read_varint_loop
read_varint = read_varint_loop 10 0 0

-- ReadZigzag32 truncates what it read to 32 bits.
pub read_zigzag : ℕ → BytesBuffer → Result (ℕ × BytesBuffer)
unfolding read_varint unzigzag
read_zigzag w b = read_varint b >>= λ r. ok (unzigzag w (r.0 % 2 ^ w), r.1)
