-- ===== src/Buffer/Fresh.antt =====
-- pkg/buffer/bytes_buffer.go: the first write into a new buffer, and the read after it.
use muxcore.Common.{
  ℕ, zero, suc, ◌+◌, ◌-◌, ◌≤◌, ◌<◌, ◌≡◌, refl, ap, ◌∙◌, List, [], ◌∷◌, ◌++◌, arith, ltb, length,
  take, length-replicate, le→leb, lt→leb, if_cases,
}
use muxcore.Common.Keys.{string_key, number_key}
use muxcore.Buffer.{
  BytesBuffer, Result, ok, ◌>>=◌, zeros, copy_at, put, write, read, new_bytes_buffer, big_endian,
}
use muxcore.Buffer.Slices.{length-copy_at}

-- The buffer after its first write.
abbrev pub written : ℕ → List ℕ → BytesBuffer
written size d = record {
  buf = copy_at (zeros size) 0 d;
  rpos = 0;
  wpos = 0 + length d;
  order = big_endian;
}

pub write_new :
    (size : ℕ) (d : List ℕ)
    → length d ≤ size
    → write d (new_bytes_buffer size) ≡ ok (written size d)
unfolding write put new_bytes_buffer
write_new size d fits =
    if_cases (λ (r : Result BytesBuffer). (r >>= put d) ≡ ok (written size d))
      (ltb (length (zeros size)) (0 + length d))
      (λ long. absurd (ground (arith, length-replicate size zero)))
      (λ short. rw (le→leb 0 (length (zeros size)) (omega arith)) refl)

copy_at_none : (xs : List ℕ) → copy_at xs 0 [] ≡ xs
unfolding copy_at
copy_at_none [] = refl
copy_at_none (x ∷ xs) = refl

take-zeros : (n size : ℕ) → n ≤ size → take n (zeros size) ≡ zeros n
take-zeros zero size h = refl
take-zeros (suc n) zero h = absurd (omega arith)
take-zeros (suc n) (suc size) h = ap (◌∷◌ 0) (take-zeros n size (omega arith))

take-copy_zeros :
    (n size : ℕ) (d : List ℕ)
    → length d ≤ n
    → n ≤ size
    → take n (copy_at (zeros size) 0 d) ≡ d ++ zeros (n - length d)
unfolding copy_at
take-copy_zeros n size [] h k =
    let less : n - 0 ≡ n = omega arith in
    rw less (ap (take n) (copy_at_none (zeros size)) ∙ take-zeros n size k)
take-copy_zeros zero size (x ∷ d) h k = absurd (omega arith)
take-copy_zeros (suc n) zero (x ∷ d) h k = absurd (omega arith)
take-copy_zeros (suc n) (suc size) (x ∷ d) h k =
    let less : suc n - suc (length d) ≡ n - length d = omega arith in
    rw less (ap (◌∷◌ x) (take-copy_zeros n size d (omega arith) (omega arith)))

-- A read that asks for more than was written gets the zeros behind it, and Remain is negative.
pub read-written :
    (n size : ℕ) (d : List ℕ)
    → length d ≤ n
    → n ≤ size
    → 0 < size
    → (b : BytesBuffer) × (read n (written size d) ≡ ok (d ++ zeros (n - length d), b))
unfolding read
read-written n size d h k some_size = (
  record (written size d) { rpos = 0 + length (take n (copy_at (zeros size) 0 d)) },
  rw
      (
        length-copy_at (zeros size) 0 d,
        length-replicate size zero,
        lt→leb size 0 some_size,
        take-copy_zeros n size d h k,
      )
      refl,
)
