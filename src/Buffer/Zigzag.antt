-- ===== src/Buffer/Zigzag.antt =====
-- pkg/buffer/bytes_buffer.go: the zigzag form of a signed word.
use muxcore.Common.{
  ℕ, suc, ◌+◌, ◌-◌, ◌*◌, ◌/◌, ◌%◌, ◌^◌, ◌≤◌, ◌<◌, ◌≡◌, ◌∙◌, inl, inr, arith, leb, Bool-cases,
  le→leb, lt→leb, leb→le,
}
use muxcore.Buffer.{
  BytesBuffer, ok, write_varint, zigzag, unzigzag, write_zigzag, read_varint, read_zigzag,
}
use Prim.Native.Nat.{bit_and}
use native.Mathlib.Nat.{pow-suc, mod-eq_of_lt, mod-eq-sub-mod, pow-le-pow_right}
use muxcore.Buffer.Slices.{Inv, Returns, Returns->>=, Returns-mono}
use muxcore.Buffer.VarintRead.{read_varint-write_varint}
use muxcore.Common.Bits.{bit_xor_ones, bit_xor-zero, bit_and-one}

-- In numbers: the words of non-negative integers go to the even numbers, the others to the odd.
zigzag_low : (k u : ℕ) → u < 2 ^ k → zigzag (suc k) u ≡ u * 2
unfolding zigzag
zigzag_low k u h =
    let pre : suc k - 1 ≡ k = omega arith in
    let fits : u * 2 < 2 ^ suc k = omega (arith, pow-suc 2 k) in
    rw (pre, lt→leb (2 ^ k) u h, bit_xor-zero (u * 2 % 2 ^ suc k), mod-eq_of_lt fits)

mod_once : (a m : ℕ) → m ≤ a → a < m + m → a % m ≡ a - m
mod_once a m h k = mod-eq-sub-mod h ∙ mod-eq_of_lt (omega arith)

zigzag_high : (k u : ℕ) → 2 ^ k ≤ u → u < 2 ^ suc k → zigzag (suc k) u ≡ (2 ^ suc k - 1 - u) * 2 + 1
unfolding zigzag
zigzag_high k u h b =
    let p = pow-suc 2 k in
    let pre : suc k - 1 ≡ k = omega arith in
    let m : u * 2 % 2 ^ suc k ≡ u * 2 - 2 ^ suc k =
      mod_once (u * 2) (2 ^ suc k) (omega arith) (omega arith) in
    rw (pre, le→leb (2 ^ k) u h, m, bit_xor_ones (suc k) (u * 2 - 2 ^ suc k) (omega arith))
      (omega arith)

unzigzag_even : (w x : ℕ) → unzigzag w (x * 2) ≡ x
unfolding unzigzag
unzigzag_even w x =
    let even : bit_and (x * 2) 1 ≡ 0 = omega (arith, bit_and-one (x * 2)) in
    let half : x * 2 / 2 ≡ x = omega arith in rw (even, half) (bit_xor-zero x)

unzigzag_odd : (w x : ℕ) → x < 2 ^ w → unzigzag w (x * 2 + 1) ≡ 2 ^ w - 1 - x
unfolding unzigzag
unzigzag_odd w x h =
    let odd : bit_and (x * 2 + 1) 1 ≡ 1 = omega (arith, bit_and-one (x * 2 + 1)) in
    let half : (x * 2 + 1) / 2 ≡ x = omega arith in rw (odd, half) (bit_xor_ones w x h)

-- Zigzag loses nothing: any word, of any width but 0, is got back from its zigzag form.
pub unzigzag-zigzag : (k u : ℕ) → u < 2 ^ suc k → unzigzag (suc k) (zigzag (suc k) u) ≡ u
unzigzag-zigzag k u h = elim (Bool-cases (leb (2 ^ k) u)) [
  | inl high ↦
      rw
        (
          zigzag_high k u (leb→le _ _ high) h,
          unzigzag_odd (suc k) (2 ^ suc k - 1 - u) (omega arith),
        )
        (omega arith)
  | inr low ↦ rw (zigzag_low k u (ground arith)) (unzigzag_even (suc k) u)
]

zigzag_bound : (k u : ℕ) → u < 2 ^ suc k → zigzag (suc k) u < 2 ^ suc k
zigzag_bound k u h = elim (Bool-cases (leb (2 ^ k) u)) [
  | inl high ↦
      rw (zigzag_high k u (leb→le _ _ high) h) (omega (arith, leb→le _ _ high, pow-suc 2 k))
  | inr low ↦ rw (zigzag_low k u (ground arith)) (ground (arith, pow-suc 2 k))
]

-- A word of k + 1 bits, at most 64, written in zigzag form into a well-formed buffer with nothing
-- unread is what the zigzag read of its width returns, and nothing is unread after it.
pub read_zigzag-write_zigzag :
    (k u : ℕ) (b : BytesBuffer)
    → Inv b
    → b.rpos ≡ b.wpos
    → k < 64
    → u < 2 ^ suc k
    → Returns
        (write_zigzag (suc k) u b)
        λ w. Returns (read_zigzag (suc k) w.0) λ r. (r.0 ≡ u) × (r.1.rpos ≡ r.1.wpos)
unfolding write_zigzag read_zigzag
read_zigzag-write_zigzag k u b v e n h =
    let z = zigzag (suc k) u in
    let fits : z < 2 ^ 64 =
      omega (
        arith,
        zigzag_bound k u h,
        pow-le-pow_right {n = 2} (omega arith) {i = suc k} {j = 64} n,
      ) in
    Returns-mono _ _ (write_varint z b) (read_varint-write_varint z b v e fits) λ w (_, _, got).
      Returns->>= _ (λ r. (r.0 ≡ u) × (r.1.rpos ≡ r.1.wpos)) (read_varint w.0)
        (λ r. ok (unzigzag (suc k) (r.0 % 2 ^ suc k), r.1)) got
        λ r (same, done).
          (rw (same, mod-eq_of_lt (zigzag_bound k u h)) (unzigzag-zigzag k u h), done)
