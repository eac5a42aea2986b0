-- ===== src/Buffer/Reads.antt =====
-- pkg/buffer/bytes_buffer.go: reads, and what is written and not yet read.
use muxcore.Common.{
  ℕ, zero, suc, ◌+◌, ◌≤◌, ◌<◌, ◌≡◌, refl, sym, ap, ◌∙◌, ◌≢◌, inl, inr, true, none, some, List, [],
  ◌∷◌, ◌++◌, arith, Option-cases, length, get_elem?, take, drop, length-append, length-take,
  length-drop, drop-append,
}
use muxcore.Buffer.{BytesBuffer, ok, write, bytes, remain, read_full, next, read_byte}
use muxcore.Common.Int.{pos, ltb_ℤ}
use muxcore.Buffer.Slices.{Inv, Returns, Appends, Returns-mono, write-Appends}

-- What is written and not yet read.
abbrev pub unread : BytesBuffer → List ℕ
unread b = drop b.rpos (bytes b)

take-drop_front :
    (r w : ℕ) (l xs rest : List ℕ)
    → drop r (take w l) ≡ xs ++ rest
    → take (length xs) (drop r l) ≡ xs
take-drop_front r w l [] rest h = refl
take-drop_front zero zero l (x ∷ xs) rest h = cc
take-drop_front zero (suc w) [] (x ∷ xs) rest h = cc
take-drop_front zero (suc w) (y ∷ l) (x ∷ xs) rest h =
    cc (take-drop_front zero w l xs rest (ground arith))
take-drop_front (suc r) zero l (x ∷ xs) rest h = cc
take-drop_front (suc r) (suc w) [] (x ∷ xs) rest h = cc
take-drop_front (suc r) (suc w) (y ∷ l) (x ∷ xs) rest h = take-drop_front r w l (x ∷ xs) rest h

drop-nil {ℓ} : {A : Type ℓ} (n : ℕ) → drop {A = A} n [] ≡ []
drop-nil zero = refl
drop-nil (suc n) = refl

drop-add {ℓ} : {A : Type ℓ} (r n : ℕ) (l : List A) → drop (r + n) l ≡ drop n (drop r l)
drop-add zero n l = let e : 0 + n ≡ n = omega arith in rw e
drop-add (suc r) n [] = drop-nil (suc r + n) ∙ sym (drop-nil n)
drop-add (suc r) n (x ∷ l) = let e : suc r + n ≡ suc (r + n) = omega arith in rw e (drop-add r n l)

front_fits :
    (b : BytesBuffer) (xs rest : List ℕ)
    → Inv b
    → b.rpos ≤ b.wpos
    → unread b ≡ xs ++ rest
    → b.rpos + length xs ≤ b.wpos
unfolding bytes
front_fits b xs rest v r h = omega (
  arith,
  ap length h,
  length-append xs rest,
  length-drop b.rpos (take b.wpos b.buf),
  length-take b.wpos b.buf,
)

-- A read of n bytes from a well-formed buffer gives its first n unread bytes and leaves the rest,
-- for Next and for ReadFull.
pub next-unread :
    (b : BytesBuffer) (xs rest : List ℕ)
    → Inv b
    → b.rpos ≤ b.wpos
    → unread b ≡ xs ++ rest
    → let q = record b { rpos = b.rpos + length xs } in
      (next (length xs) b ≡ ok (xs, q))
      × (read_full (length xs) b ≡ ok (xs, q))
      × (unread q ≡ rest)
      × (q.rpos ≤ q.wpos)
unfolding next bytes read_full
next-unread b xs rest v r h =
    let fits : b.rpos + length xs ≤ b.wpos = front_fits b xs rest v r h in
    let got : take (length xs) (drop b.rpos b.buf) ≡ xs =
      take-drop_front b.rpos b.wpos b.buf xs rest h in
    (
      ground (arith, fits, got),
      ground (arith, fits, got),
      drop-add b.rpos (length xs) (take b.wpos b.buf)
          ∙ ap (drop (length xs)) h
          ∙ drop-append xs rest,
      fits,
    )

drop-append_left {ℓ} :
    {A : Type ℓ} (n : ℕ) (xs ys : List A) → n ≤ length xs → drop n (xs ++ ys) ≡ drop n xs ++ ys
drop-append_left zero xs ys h = refl
drop-append_left (suc n) [] ys h = elim h [ ]
drop-append_left (suc n) (x ∷ xs) ys h = drop-append_left n xs ys (omega arith)

pub Appends-unread :
    {src : List ℕ} {b q : BytesBuffer}
    → Inv b
    → b.rpos ≤ b.wpos
    → Appends src b q
    → unread q ≡ unread b ++ src
unfolding bytes
Appends-unread {src} {b} v r a =
    rw (a.same_rpos, a.appended)
      (drop-append_left b.rpos (bytes b) src (omega (arith, length-take b.wpos b.buf)))

-- A write of any bytes into a well-formed buffer whose read position is not behind its write position succeeds: the
-- unread bytes are those that were unread before, followed by the bytes written, and the buffer stays so.
pub unread-write :
    (src : List ℕ) (b : BytesBuffer)
    → Inv b
    → b.rpos ≤ b.wpos
    → Returns (write src b) λ q. (unread q ≡ unread b ++ src) × Inv q × (q.rpos ≤ q.wpos)
unread-write src b v r =
    Returns-mono (Appends src b) _ (write src b) (write-Appends src b v)
      λ q a. (Appends-unread v r a, a.inv, omega (arith, a.advanced, a.same_rpos))

drop-take_self {ℓ} : {A : Type ℓ} (n : ℕ) (xs : List A) → drop n (take n xs) ≡ []
drop-take_self zero xs = refl
drop-take_self (suc n) [] = refl
drop-take_self (suc n) (x ∷ xs) = drop-take_self n xs

unread_none : (b : BytesBuffer) → b.rpos ≡ b.wpos → unread b ≡ []
unfolding bytes
unread_none b e = rw e (drop-take_self b.wpos b.buf)

pub Appends-unread_all :
    {src : List ℕ} {b q : BytesBuffer} → Inv b → b.rpos ≡ b.wpos → Appends src b q → unread q ≡ src
Appends-unread_all {src} {b} v e a =
    Appends-unread v (omega arith) a ∙ ap (λ l. l ++ src) (unread_none b e)

get_elem?-take : (r : ℕ) (l : List ℕ) (c : ℕ) → take 1 (drop r l) ≡ c ∷ [] → get_elem? l r ≡ some c
get_elem?-take zero [] c h = cc
get_elem?-take zero (x ∷ l) c h = ground arith
get_elem?-take (suc r) [] c h = cc
get_elem?-take (suc r) (x ∷ l) c h = get_elem?-take r l c h

pub read_byte-unread :
    (b : BytesBuffer) (c : ℕ) (rest : List ℕ)
    → Inv b
    → b.rpos ≤ b.wpos
    → unread b ≡ c ∷ rest
    → let q = record b { rpos = b.rpos + 1 } in
      (read_byte b ≡ ok (c, q)) × (unread q ≡ rest) × (q.rpos ≤ q.wpos)
unfolding read_byte bytes
read_byte-unread b c rest v r h =
    let n = next-unread b (c ∷ []) rest v r h in
    let got = take-drop_front b.rpos b.wpos b.buf (c ∷ []) rest h in
    (rw (get_elem?-take b.rpos b.buf c got, read_byte), n.2, n.3)

get_elem?-ne-none : (l : List ℕ) (i : ℕ) → i < length l → get_elem? l i ≢ none
get_elem?-ne-none [] i h = elim h [ ]
get_elem?-ne-none (x ∷ l) zero h = cc
get_elem?-ne-none (x ∷ l) (suc i) h = get_elem?-ne-none l i (omega arith)

-- ReadByte does not stop at the write position: where everything written has been read but the
-- slice is longer, it returns a byte that nobody wrote, and Remain is negative afterwards.
pub read_byte_overrun :
    (b : BytesBuffer)
    → b.wpos ≤ b.rpos
    → b.rpos < length b.buf
    → Returns (read_byte b) λ r. ltb_ℤ (remain r.1) (pos 0) ≡ true
unfolding read_byte
read_byte_overrun b past inside = elim (Option-cases (get_elem? b.buf b.rpos)) [
  | inl e ↦ absurd (get_elem?-ne-none b.buf b.rpos inside e)
  | inr (c, e) ↦ rw (e, read_byte) (ground arith)
]
