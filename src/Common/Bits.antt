-- ===== src/Common/Bits.antt =====
-- Bit operations at variables. All three are one recursion over binary digits, so the law for the
-- lowest digit is proved once; from it come the masks that the program uses.
use Prim.Native.Nat.{
  max, bit_and, bit_or, bit_xor, digits, differ, bit_and-bitwise, bit_or-bitwise, bit_xor-bitwise,
}
use native.Mathlib.Nat.{pow-suc}
use native.Mathlib.Decide.{dec_le}
use muxcore.Common.{
  ℕ, zero, suc, ◌+◌, ◌-◌, ◌*◌, ◌/◌, ◌%◌, ◌^◌, ◌≤◌, ◌<◌, min, ◌≡◌, refl, ap, ◌∙◌, arith,
}

module _ (alone : ℕ → ℕ) (pair : ℕ → ℕ → ℕ) where
  -- The recursion with more rounds than it needs.
  spare_round :
      (rounds x y : ℕ)
      → x ≤ rounds
      → digits alone pair (suc rounds) x y ≡ digits alone pair rounds x y
  spare_round zero zero y fits = refl
  spare_round zero (suc x) y fits = absurd (omega arith)
  spare_round (suc rounds) zero y fits = refl
  spare_round (suc rounds) (suc x) y fits =
      let halves : suc x / 2 ≤ rounds = omega arith in
      omega (arith, spare_round rounds (suc x / 2) (y / 2) halves)

  spare_rounds :
      (rounds x y : ℕ) → x ≤ rounds → digits alone pair rounds x y ≡ digits alone pair x x y
  spare_rounds zero zero y fits = refl
  spare_rounds zero (suc x) y fits = absurd (omega arith)
  spare_rounds (suc rounds) x y fits = elim (dec_le x rounds) [
    | yes less ↦ spare_round rounds x y less ∙ spare_rounds rounds x y less
    | no full ↦ let e : suc rounds ≡ x = omega arith in ap (λ n. digits alone pair n x y) e
  ]

  -- An operation that this recursion defines splits off its lowest digit.
  lowest_digit :
      (op : ℕ → ℕ → ℕ)
      → ((x y : ℕ) → op x y ≡ digits alone pair x x y)
      → ((y : ℕ) → alone y ≡ alone (y / 2) * 2 + pair 0 (y % 2))
      → (x y : ℕ) → op x y ≡ op (x / 2) (y / 2) * 2 + pair (x % 2) (y % 2)
  lowest_digit op defined at_zero zero y = omega (arith, defined 0 y, defined 0 (y / 2), at_zero y)
  lowest_digit op defined at_zero (suc x) y = omega (
    arith,
    defined (suc x) y,
    defined (suc x / 2) (y / 2),
    spare_rounds x (suc x / 2) (y / 2) (omega arith),
  )

bit_and_step : (a b : ℕ) → bit_and a b ≡ bit_and (a / 2) (b / 2) * 2 + min (a % 2) (b % 2)
bit_and_step = lowest_digit (λ b. zero) min bit_and (λ a b. bit_and-bitwise a b) (λ b. omega arith)

bit_or_step : (a b : ℕ) → bit_or a b ≡ bit_or (a / 2) (b / 2) * 2 + max (a % 2) (b % 2)
bit_or_step = lowest_digit (λ b. b) max bit_or (λ a b. bit_or-bitwise a b) (λ b. omega arith)

bit_xor_step : (a b : ℕ) → bit_xor a b ≡ bit_xor (a / 2) (b / 2) * 2 + differ (a % 2) (b % 2)
bit_xor_step = lowest_digit (λ b. b) differ bit_xor (λ a b. bit_xor-bitwise a b) (λ b. omega arith)

zero-bit_or : (b : ℕ) → bit_or 0 b ≡ b
zero-bit_or b = bit_or-bitwise 0 b

bit_or_double : (x p : ℕ) → bit_or x (p * 2) ≡ bit_or (x / 2) p * 2 + x % 2
bit_or_double x p =
    let half : p * 2 / 2 ≡ p = omega arith in
    omega (arith, bit_or_step x (p * 2), ap (bit_or (x / 2)) half)

differ-one : (r : ℕ) → r < 2 → differ r 1 ≡ 1 - r
differ-one zero h = refl
differ-one (suc zero) h = refl
differ-one (suc (suc r)) h = absurd (omega arith)

bit_xor_odd : (x p : ℕ) → bit_xor x (p * 2 + 1) ≡ bit_xor (x / 2) p * 2 + (1 - x % 2)
bit_xor_odd x p =
    let half : (p * 2 + 1) / 2 ≡ p = omega arith in
    let odd : (p * 2 + 1) % 2 ≡ 1 = omega arith in
    omega (
      arith,
      bit_xor_step x (p * 2 + 1),
      ap (bit_xor (x / 2)) half,
      ap (differ (x % 2)) odd,
      differ-one (x % 2),
    )

two-pow_pos : (k : ℕ) → 0 < 2 ^ k
two-pow_pos zero = omega arith
two-pow_pos (suc k) = omega (arith, two-pow_pos k, pow-suc 2 k)

-- A number below 2 ^ k joined with a multiple of 2 ^ k.
pub bit_or_disjoint : (k x t : ℕ) → x < 2 ^ k → bit_or x (t * 2 ^ k) ≡ x + t * 2 ^ k
bit_or_disjoint zero zero t h = omega (arith, zero-bit_or (t * 2 ^ 0))
bit_or_disjoint zero (suc x) t h = absurd (omega arith)
bit_or_disjoint (suc k) x t h =
    let e : t * 2 ^ suc k ≡ t * 2 ^ k * 2 = rw pow-suc (omega arith) in
    rw e (omega (arith, bit_or_double x (t * 2 ^ k), bit_or_disjoint k (x / 2) t (omega arith)))

-- The complement of a word of k bits.
pub bit_xor_ones : (k x : ℕ) → x < 2 ^ k → bit_xor x (2 ^ k - 1) ≡ 2 ^ k - 1 - x
bit_xor_ones zero zero h = refl
bit_xor_ones zero (suc x) h = absurd (omega arith)
bit_xor_ones (suc k) x h =
    let e : 2 ^ suc k - 1 ≡ (2 ^ k - 1) * 2 + 1 = omega (arith, two-pow_pos k, pow-suc 2 k) in
    rw e (omega (arith, bit_xor_odd x (2 ^ k - 1), bit_xor_ones k (x / 2) (omega arith)))

differ-zero : (r : ℕ) → differ r 0 ≡ r
differ-zero zero = refl
differ-zero (suc r) = refl

same_bits : (bound u : ℕ) → u ≤ bound → bit_xor u 0 ≡ u
same_bits zero zero fits = refl
same_bits zero (suc u) fits = absurd (omega arith)
same_bits (suc bound) u fits =
    omega (arith, bit_xor_step u 0, same_bits bound (u / 2) (omega arith), differ-zero (u % 2))

pub bit_xor-zero : (x : ℕ) → bit_xor x 0 ≡ x
bit_xor-zero x = same_bits x x (omega arith)

no_mask : (bound u : ℕ) → u ≤ bound → bit_and u 0 ≡ 0
no_mask zero zero fits = refl
no_mask zero (suc u) fits = absurd (omega arith)
no_mask (suc bound) u fits = omega (arith, bit_and_step u 0, no_mask bound (u / 2) (omega arith))

bit_and-zero : (u : ℕ) → bit_and u 0 ≡ 0
bit_and-zero u = no_mask u u (omega arith)

bit_and_odd : (x p : ℕ) → bit_and x (p * 2 + 1) ≡ bit_and (x / 2) p * 2 + x % 2
bit_and_odd x p =
    let half : (p * 2 + 1) / 2 ≡ p = omega arith in
    omega (arith, bit_and_step x (p * 2 + 1), ap (bit_and (x / 2)) half)

bit_and_even : (x p : ℕ) → bit_and x (p * 2) ≡ bit_and (x / 2) p * 2
bit_and_even x p =
    let half : p * 2 / 2 ≡ p = omega arith in
    omega (arith, bit_and_step x (p * 2), ap (bit_and (x / 2)) half)

-- The low seven bits.
pub low_seven : (u : ℕ) → bit_and u 0x7f ≡ u % 128
low_seven u = omega (
  arith,
  bit_and_odd u 63,
  bit_and_odd (u / 2) 31,
  bit_and_odd (u / 2 / 2) 15,
  bit_and_odd (u / 2 / 2 / 2) 7,
  bit_and_odd (u / 2 / 2 / 2 / 2) 3,
  bit_and_odd (u / 2 / 2 / 2 / 2 / 2) 1,
  bit_and_odd (u / 2 / 2 / 2 / 2 / 2 / 2) 0,
  bit_and-zero (u / 2 / 2 / 2 / 2 / 2 / 2 / 2),
)

-- The top bit of a byte.
pub top_bit : (b : ℕ) → bit_and b 0x80 ≡ b / 128 % 2 * 128
top_bit b = omega (
  arith,
  bit_and_even b 64,
  bit_and_even (b / 2) 32,
  bit_and_even (b / 2 / 2) 16,
  bit_and_even (b / 2 / 2 / 2) 8,
  bit_and_even (b / 2 / 2 / 2 / 2) 4,
  bit_and_even (b / 2 / 2 / 2 / 2 / 2) 2,
  bit_and_even (b / 2 / 2 / 2 / 2 / 2 / 2) 1,
  bit_and_odd (b / 2 / 2 / 2 / 2 / 2 / 2 / 2) 0,
  bit_and-zero (b / 2 / 2 / 2 / 2 / 2 / 2 / 2 / 2),
)

pub bit_and-one : (x : ℕ) → bit_and x 1 ≡ x % 2
bit_and-one x = omega (arith, bit_and_odd x 0, bit_and-zero (x / 2))
