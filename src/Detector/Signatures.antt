-- ===== src/Detector/Signatures.antt =====
-- core/detector/protocol_detector.go: the layers, which look at the first bytes.
use muxcore.Common.{
  ℕ, min, String, Bool, true, false, ◌&&◌, ◌||◌, List, [], ◌∷◌, ltb, leb, ◌==◌, if◌then◌else◌,
  length, take,
}
use muxcore.Detector.Filter.{
  BloomFilter, contains, get_bytes, post_bytes, put_bytes, head_bytes, upgrade_bytes,
}
use muxcore.Common.Keys.{string_key, number_key}

unfoldable pub is_same_bytes : List ℕ → List ℕ → Bool
is_same_bytes [] [] = true
is_same_bytes [] (y ∷ ys) = false
is_same_bytes (x ∷ xs) [] = false
is_same_bytes (x ∷ xs) (y ∷ ys) = x == y && is_same_bytes xs ys

unfoldable pub is_one_of : List ℕ → List (List ℕ) → Bool
unfolding is_same_bytes
is_one_of d [] = false
is_one_of d (m ∷ ms) = is_same_bytes d m || is_one_of d ms

unfoldable pub starts_with : List ℕ → List ℕ → Bool
starts_with d [] = true
starts_with [] (y ∷ ys) = false
starts_with (x ∷ xs) (y ∷ ys) = x == y && starts_with xs ys

-- `bytes.Contains(data, d)`
unfoldable pub has_bytes : List ℕ → List ℕ → Bool
unfolding starts_with
has_bytes [] d = starts_with [] d
has_bytes (x ∷ xs) d = starts_with (x ∷ xs) d || has_bytes xs d

-- The four first bytes of a request: "DELE", "OPTI", "PATC", "TRAC" and "CONN" with those above.
abbrev pub methods : List (List ℕ)
methods =
    get_bytes
    ∷ post_bytes
    ∷ put_bytes
    ∷ (68 ∷ 69 ∷ 76 ∷ 69 ∷ [])
    ∷ head_bytes
    ∷ (79 ∷ 80 ∷ 84 ∷ 73 ∷ [])
    ∷ (80 ∷ 65 ∷ 84 ∷ 67 ∷ [])
    ∷ (84 ∷ 82 ∷ 65 ∷ 67 ∷ [])
    ∷ (67 ∷ 79 ∷ 78 ∷ 78 ∷ [])
    ∷ []

-- `data[0] == 0`, of data that is not empty.
unfoldable pub starts_with_zero : List ℕ → Bool
starts_with_zero [] = false
starts_with_zero (x ∷ xs) = x == 0

-- The tests behind the Bloom filter.
unfoldable pub classify : List ℕ → String
unfolding is_one_of is_same_bytes has_bytes starts_with_zero
classify d =
    if leb 4 (length d) && is_one_of (take 4 d) methods
    then "http"
    else if leb 16 (length d) && (is_same_bytes (take 3 d) get_bytes && has_bytes d upgrade_bytes)
    then "websocket"
    else if leb 24 (length d) && starts_with_zero d
    then "grpc"
    else "unknown"

unfoldable pub first_layer_detection : BloomFilter → List ℕ → String
unfolding contains classify
first_layer_detection bf d =
    if contains (take (min (length d) 16) d) bf then classify d else "unknown"

-- isValidHTTPHeader, isValidWebSocketHandshake and isValidGRPCFrame.
unfoldable pub is_valid : List ℕ → Bool
is_valid d = ltb 0 (length d)

unfoldable pub second_layer_detection : String → List ℕ → String
unfolding is_valid
second_layer_detection protocol d =
    if string_key.test protocol "http" && is_valid d
    then "http"
    else if string_key.test protocol "websocket" && is_valid d
    then "websocket"
    else if string_key.test protocol "grpc" && is_valid d
    then "grpc"
    else "unknown"

unfoldable pub third_layer_detection : String → List ℕ → Bool
third_layer_detection protocol d = true
