-- ===== src/Buffer/Varint.antt =====
-- pkg/buffer/bytes_buffer.go: integers of variable length, seven bits to a byte, and zigzag.
use muxcore.Common.{
  ℕ, zero, suc, ◌+◌, ◌/◌, ◌%◌, ◌^◌, ◌≤◌, ◌<◌, ◌≡◌, refl, ap, ◌∙◌, inl, inr, true, false, List, [],
  ◌∷◌, ◌++◌, arith, leb, if◌then◌else◌, Bool-cases, length, length-append, lt→leb,
}
use muxcore.Buffer.{BytesBuffer, ok, ◌>>=◌, write, write_byte, write_varint_loop}
use Prim.Native.Nat.{bit_and, bit_or}
use native.Mathlib.Nat.{pow-suc}
use mathlib.Core.List.{append_assoc}
use muxcore.Common.Bits.{bit_or_disjoint, low_seven}
use muxcore.Buffer.Slices.{Inv, Returns, Appends, Returns->>=, Returns-mono, write-Appends}

-- The bytes of a number: seven bits each, low bits first, all but the last with the top bit set.
pub encode : ℕ → ℕ → List ℕ
encode zero u = []
encode (suc fuel) u = if leb 128 u then (u % 128 + 128) ∷ encode fuel (u / 128) else u ∷ []

pub length-encode : (fuel u : ℕ) → length (encode fuel u) ≤ fuel
unfolding encode
length-encode zero u = omega arith
length-encode (suc fuel) u = ground (arith, length-encode fuel (u / 128))

Appends-trans :
    (xs ys : List ℕ) {b q r : BytesBuffer}
    → Appends xs b q
    → Appends ys q r
    → Appends (xs ++ ys) b r
Appends-trans xs ys a c = record {
  appended = c.appended ∙ ap (λ l. l ++ ys) a.appended ∙ append_assoc _ xs ys;
  advanced = omega (arith, a.advanced, c.advanced, length-append xs ys);
  same_rpos = c.same_rpos ∙ a.same_rpos;
  same_order = c.same_order ∙ a.same_order;
  inv = c.inv;
}

marked_byte : (u : ℕ) → bit_or (bit_and u 0x7f) 0x80 % 256 ≡ u % 128 + 128
marked_byte u = omega (arith, low_seven u, bit_or_disjoint 7 (bit_and u 0x7f) 1)

-- What a run of the writing loop returns: the buffer with the bytes behind it, and their number.
abbrev pub Wrote : List ℕ → ℕ → BytesBuffer → BytesBuffer × ℕ → Type 0
Wrote bs l b (q, n) = Appends bs b q × (n ≡ l + length bs)

loop_last :
    (fuel u l : ℕ) (b : BytesBuffer)
    → leb 128 u ≡ false
    → write_varint_loop (suc fuel) u l b ≡ (write (u ∷ []) b >>= λ q. ok (q, l + 1))
unfolding write_varint_loop write_byte
loop_last fuel u l b h = let e : u % 256 ≡ u = omega (arith, leb-false u h) in ground arith
  where
    leb-false : (u : ℕ) → leb 128 u ≡ false → u < 128
    leb-false u h = ground arith

loop_more :
    (fuel u l : ℕ) (b : BytesBuffer)
    → leb 128 u ≡ true
    → write_varint_loop (suc fuel) u l b
      ≡ (write ((u % 128 + 128) ∷ []) b >>= write_varint_loop fuel (u / 128) (l + 1))
unfolding write_varint_loop write_byte
loop_more fuel u l b h = ground (arith, marked_byte u)

pub encode_last : (fuel u : ℕ) → leb 128 u ≡ false → encode (suc fuel) u ≡ u ∷ []
unfolding encode
encode_last fuel u h = rw h

pub encode_more :
    (fuel u : ℕ) → leb 128 u ≡ true → encode (suc fuel) u ≡ (u % 128 + 128) ∷ encode fuel (u / 128)
unfolding encode
encode_more fuel u h = rw h

last-Wrote :
    (fuel u l : ℕ) (b : BytesBuffer)
    → Inv b
    → leb 128 u ≡ false
    → Returns (write_varint_loop (suc fuel) u l b) (Wrote (encode (suc fuel) u) l b)
last-Wrote fuel u l b v h =
    rw (loop_last fuel u l b h, encode_last fuel u h)
      (Returns->>= (Appends (u ∷ []) b) _ (write (u ∷ []) b) (λ q. ok (q, l + 1))
        (write-Appends (u ∷ []) b v) (λ q a. (a, refl)))

pub write_varint_loop-Wrote :
    (fuel u l : ℕ) (b : BytesBuffer)
    → Inv b
    → u < 128 ^ suc fuel
    → Returns (write_varint_loop (suc fuel) u l b) (Wrote (encode (suc fuel) u) l b)
write_varint_loop-Wrote zero u l b v h = last-Wrote zero u l b v (lt→leb 128 u (omega arith))
write_varint_loop-Wrote (suc fuel) u l b v h = elim (Bool-cases (leb 128 u)) [
  | inr last ↦ last-Wrote (suc fuel) u l b v last
  | inl more ↦
      rw (loop_more (suc fuel) u l b more, encode_more (suc fuel) u more)
        (Returns->>= (Appends ((u % 128 + 128) ∷ []) b) _ (write ((u % 128 + 128) ∷ []) b)
          (write_varint_loop (suc fuel) (u / 128) (l + 1))
          (write-Appends ((u % 128 + 128) ∷ []) b v)
          λ q a.
            Returns-mono _ _ (write_varint_loop (suc fuel) (u / 128) (l + 1) q)
              (write_varint_loop-Wrote fuel (u / 128) (l + 1) q a.inv
                (omega (arith, pow-suc 128 (suc fuel))))
              (λ (r, n) (c, e). (Appends-trans _ _ a c, omega arith)))
]
