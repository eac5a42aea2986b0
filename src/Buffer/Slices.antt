-- ===== src/Buffer/Slices.antt =====
-- pkg/buffer/bytes_buffer.go: the slice behind the buffer, grown and copied into.
use muxcore.Common.{
  ℕ, zero, suc, ◌+◌, ◌*◌, ◌≤◌, ◌≡◌, refl, ap, ◌∙◌, inl, inr, List, [], ◌∷◌, ◌++◌, arith, ltb,
  Bool-cases, length, take, length-take, length-replicate, le→leb,
}
use muxcore.Buffer.{
  BytesBuffer, Result, ok, err, panic, ◌>>=◌, zeros, copy_at, grow, put, write, bytes,
}

-- The write position lies in the buffer. It holds of every buffer that the constructors make.
abbrev pub Inv : BytesBuffer → Type 0
Inv b = b.wpos ≤ length b.buf

-- The result is a value, and the value has the property: no error, no panic.
abbrev pub Returns {ℓ} : {A : Type ℓ} → Result A → (A → Type 0) → Type 0
Returns (ok a) P = P a
Returns (err e) P = ⊥
Returns panic P = ⊥

pub Returns->>= {ℓ κ} :
    {A : Type ℓ} {B : Type κ} (P : A → Type 0) (Q : B → Type 0) (m : Result A) (f : A → Result B)
    → Returns m P
    → ((a : A) → P a → Returns (f a) Q)
    → Returns (m >>= f) Q
Returns->>= P Q (ok a) f h k = k a h
Returns->>= P Q (err e) f h k = absurd h
Returns->>= P Q panic f h k = absurd h

pub Returns-mono {ℓ} :
    {A : Type ℓ} (P Q : A → Type 0) (m : Result A)
    → Returns m P
    → ((a : A) → P a → Q a)
    → Returns m Q
Returns-mono P Q (ok a) h k = k a h
Returns-mono P Q (err e) h k = h
Returns-mono P Q panic h k = h

-- `q` is `b` with `src` written behind it.
pub record Appends (src : List ℕ) (b q : BytesBuffer) : Type 0 where
  pub appended : bytes q ≡ bytes b ++ src
  pub advanced : q.wpos ≡ b.wpos + length src
  pub same_rpos : q.rpos ≡ b.rpos
  pub same_order : q.order ≡ b.order
  pub inv : Inv q

pub length-copy_at : (xs : List ℕ) (n : ℕ) (src : List ℕ) → length (copy_at xs n src) ≡ length xs
unfolding copy_at
length-copy_at [] n src = refl
length-copy_at (x ∷ xs) zero [] = refl
length-copy_at (x ∷ xs) zero (s ∷ src) = ap suc (length-copy_at xs zero src)
length-copy_at (x ∷ xs) (suc n) src = ap suc (length-copy_at xs n src)

take-copy_at :
    (xs : List ℕ) (n : ℕ) (src : List ℕ)
    → n + length src ≤ length xs
    → take (n + length src) (copy_at xs n src) ≡ take n xs ++ src
unfolding copy_at
take-copy_at [] zero [] h = refl
take-copy_at [] zero (s ∷ src) h = absurd (omega arith)
take-copy_at [] (suc n) src h = absurd (omega arith)
take-copy_at (x ∷ xs) zero [] h = refl
take-copy_at (x ∷ xs) zero (s ∷ src) h =
    let e : 0 + suc (length src) ≡ suc (0 + length src) = omega arith in
    rw e (ap (◌∷◌ s) (take-copy_at xs zero src (omega arith)))
take-copy_at (x ∷ xs) (suc n) src h =
    let e : suc n + length src ≡ suc (n + length src) = omega arith in
    rw e (ap (◌∷◌ x) (take-copy_at xs n src (omega arith)))

length-take_of_le : (n : ℕ) (xs : List ℕ) → n ≤ length xs → length (take n xs) ≡ n
length-take_of_le n xs h = omega (arith, length-take n xs)

-- Growing keeps what was written.
take-grow :
    (m w : ℕ) (xs : List ℕ)
    → w ≤ length xs
    → w ≤ m
    → take w (copy_at (zeros m) 0 (take w xs)) ≡ take w xs
take-grow m w xs h k =
    let e : 0 + length (take w xs) ≡ w = omega (arith, length-take_of_le w xs h) in
    rw e at (take-copy_at (zeros m) 0 (take w xs) (omega (arith, e, length-replicate m zero)))

-- `q` is `b` in a longer slice.
abbrev Grown : BytesBuffer → ℕ → BytesBuffer → Type 0
Grown b n q =
    (bytes q ≡ bytes b)
    × (q.wpos ≡ b.wpos)
    × (q.rpos ≡ b.rpos)
    × (q.order ≡ b.order)
    × (length q.buf ≡ 2 * length b.buf + n)

grow-Returns : (n : ℕ) (b : BytesBuffer) → Inv b → Returns (grow n b) (Grown b n)
unfolding grow bytes
grow-Returns n b v = rw (le→leb _ _ v) (
  take-grow (2 * length b.buf + n) b.wpos b.buf v (omega arith),
  refl,
  refl,
  refl,
  length-copy_at (zeros (2 * length b.buf + n)) 0 (take b.wpos b.buf)
      ∙ length-replicate (2 * length b.buf + n) zero,
)

put-Appends :
    (src : List ℕ) (b : BytesBuffer)
    → b.wpos + length src ≤ length b.buf
    → Returns (put src b) (Appends src b)
unfolding put bytes
put-Appends src b h = rw (le→leb b.wpos (length b.buf) (omega arith)) (record {
  appended = take-copy_at b.buf b.wpos src h;
  advanced = refl;
  same_rpos = refl;
  same_order = refl;
  inv = omega (arith, length-copy_at b.buf b.wpos src);
})

put-Grown :
    (src : List ℕ) (b : BytesBuffer)
    → Inv b
    → (q : BytesBuffer) → Grown b (length src) q
    → Returns (put src q) (Appends src b)
put-Grown src b v q g =
    Returns-mono (Appends src q) (Appends src b) (put src q) (put-Appends src q (omega arith))
      λ r a. record {
        appended = rw (← g.0) a.appended;
        advanced = omega arith;
        same_rpos = a.same_rpos ∙ g.2;
        same_order = a.same_order ∙ g.3;
        inv = a.inv;
      }

-- A write into a well-formed buffer succeeds, of any length, and appends its bytes.
pub write-Appends : (src : List ℕ) (b : BytesBuffer) → Inv b → Returns (write src b) (Appends src b)
unfolding write
write-Appends src b v = elim (Bool-cases (ltb (length b.buf) (b.wpos + length src))) [
  | inl short ↦
      rw (short, write)
        (Returns->>= (Grown b (length src)) (Appends src b) (grow (length src) b) (put src)
          (grow-Returns (length src) b v) (put-Grown src b v))
  | inr fits ↦ rw (fits, write) (put-Appends src b (ground arith))
]
