-- ===== src/Detector/Layers.antt =====
-- core/detector/protocol_detector.go: what the first layer answers.
use muxcore.Common.{
  ℕ, suc, min, String, ◌≡◌, refl, ap, ◌∙◌, ◌⊎◌, inl, inr, Bool, true, false, ◌&&◌, List, [], ◌∷◌,
  ◌++◌, arith, leb, Bool-cases, length, take, length-take, if_either, if_cases,
}
use muxcore.Common.Keys.{string_key, number_key}
use muxcore.Detector.{
  BloomFilter, new_bloom_filter, contains, get_bytes, upgrade_bytes, preload_protocol_signatures,
  is_same_bytes, is_one_of, has_bytes, methods, classify, first_layer_detection, starts_with_zero,
}

same_bytes-length : (xs ys : List ℕ) → is_same_bytes xs ys ≡ true → length xs ≡ length ys
unfolding is_same_bytes
same_bytes-length [] [] h = refl
same_bytes-length [] (y ∷ ys) h = absurd (cc)
same_bytes-length (x ∷ xs) [] h = absurd (cc)
same_bytes-length (x ∷ xs) (y ∷ ys) h = ap suc (same_bytes-length xs ys (ground arith))

three_of_four : (d : List ℕ) → is_same_bytes (take 3 d) get_bytes ≡ false
three_of_four d = elim (Bool-cases (is_same_bytes (take 3 d) get_bytes)) [
  | inl e ↦ absurd (omega (arith, same_bytes-length (take 3 d) get_bytes e, length-take 3 d))
  | inr e ↦ e
]

middle_false : (a b c : Bool) → b ≡ false → (a && (b && c)) ≡ false
middle_false true true c h = absurd (cc)
middle_false true false c h = refl
middle_false false b c h = refl

-- An answer that the first layer can give.
abbrev pub Answer : String → Type 0
Answer s = (s ≡ "http") ⊎ ((s ≡ "grpc") ⊎ (s ≡ "unknown"))

classify-Answer : (d : List ℕ) → Answer (classify d)
unfolding classify
classify-Answer d = if_either Answer (leb 4 (length d) && is_one_of (take 4 d) methods) (inl refl) (
    if_cases Answer
      (leb 16 (length d) && (is_same_bytes (take 3 d) get_bytes && has_bytes d upgrade_bytes))
      (λ h.
        let never =
          middle_false (leb 16 (length d)) _ (has_bytes d upgrade_bytes) (three_of_four d) in
        absurd (cc))
      (λ h.
        if_either Answer (leb 24 (length d) && starts_with_zero d) (inr (inl refl))
          (inr (inr refl))))

-- The first layer never answers "websocket", for any filter and any data: it compares the first three
-- bytes with the four bytes of "GET ".
pub first_layer_detection-Answer :
    (bf : BloomFilter) (d : List ℕ) → Answer (first_layer_detection bf d)
unfolding first_layer_detection
first_layer_detection-Answer bf d =
    if_either Answer (contains (take (min (length d) 16) d) bf) (classify-Answer d) (inr (inr refl))

-- "GET / HTTP/1.1", and the end of the line.
abbrev pub get_line : List ℕ
get_line = 71 ∷ 69 ∷ 84 ∷ 32 ∷ 47 ∷ 32 ∷ 72 ∷ 84 ∷ 84 ∷ 80 ∷ 47 ∷ 49 ∷ 46 ∷ 49 ∷ 13 ∷ 10 ∷ []

abbrev pub preloaded : BloomFilter
preloaded = preload_protocol_signatures (new_bloom_filter 1024 3)

get_line-absent : contains get_line preloaded ≡ false
unfolding contains preload_protocol_signatures new_bloom_filter
get_line-absent = refl

-- With the signatures that New loads, the first layer answers "unknown" to every request that starts with
-- the line "GET / HTTP/1.1": it asks the Bloom filter for the first 16 bytes, of which it was given four.
pub get_line_unknown :
    (rest : List ℕ) → first_layer_detection preloaded (get_line ++ rest) ≡ "unknown"
unfolding first_layer_detection
get_line_unknown rest =
    let sixteen : min (length (get_line ++ rest)) 16 ≡ 16 = omega arith in
    if_cases (λ (s : String). s ≡ "unknown")
      (contains (take (min (length (get_line ++ rest)) 16) (get_line ++ rest)) preloaded)
      (λ h.
        let absent =
          ap (λ (n : ℕ). contains (take n (get_line ++ rest)) preloaded) sixteen
          ∙ get_line-absent in
        absurd (cc))
      (λ h. refl)
