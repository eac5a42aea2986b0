-- ===== src/Common/Text.antt =====
-- Texts as bytes, and the sums of hash/fnv over them.
use Prim.Native.Nat.{ℕ, zero, suc, ◌+◌, ◌*◌, ◌/◌, ◌%◌, ◌^◌, bit_xor}
use Prim.Native.String.{String, ◌++◌ as text_append}
use Prim.Native.Char.{code}
use mathlib.Core.List.{List, [], ◌∷◌, ◌++◌}
use mathlib.Core.Option.{none, some}
use muxcore.Common.Tests.{ltb, if◌then◌else◌}
use muxcore.Common.Lists.{get_elem?}

-- A code point in UTF-8.
unfoldable pub utf8_code : ℕ → List ℕ
utf8_code c =
    if ltb c 0x80
    then c ∷ []
    else if ltb c 0x800
    then (0xC0 + c / 64) ∷ (0x80 + c % 64) ∷ []
    else if ltb c 0x10000
    then (0xE0 + c / 4096) ∷ (0x80 + c / 64 % 64) ∷ (0x80 + c % 64) ∷ []
    else (0xF0 + c / 262144) ∷ (0x80 + c / 4096 % 64) ∷ (0x80 + c / 64 % 64) ∷ (0x80 + c % 64) ∷ []

-- `[]byte(text)`
unfoldable pub utf8 : String → List ℕ
unfolding utf8_code
utf8 String.[] = []
utf8 (String.◌∷◌ c s) = utf8_code (code c) ++ utf8 s

-- hash/fnv's New32a: the sum after some bytes, from the sum before them.
unfoldable pub fnv32a : ℕ → List ℕ → ℕ
fnv32a h [] = h
fnv32a h (x ∷ xs) = fnv32a (bit_xor h x * 16777619 % 2 ^ 32) xs

-- `h := fnv.New32a(); h.Write(d); h.Sum32()`
unfoldable pub sum32a : List ℕ → ℕ
unfolding fnv32a
sum32a d = fnv32a 2166136261 d

-- The last digit of a number in hexadecimal.
unfoldable pub hex_digit : ℕ → String
hex_digit n =
    elim (get_elem? {A = String}
      ("0" ∷ "1" ∷ "2" ∷ "3" ∷ "4" ∷ "5" ∷ "6" ∷ "7" ∷ "8" ∷ "9" ∷ "a" ∷ "b" ∷ "c" ∷ "d" ∷ "e" ∷ "f"
        ∷ [])
      (n % 16)) [ none ↦ "" | some d ↦ d ]

-- `fmt.Sprintf("%x", n)`, for an n of at most one digit more than the first argument says.
unfoldable pub hex : ℕ → ℕ → String
unfolding hex_digit
hex zero n = hex_digit n
hex (suc more) n =
    let front = hex more (n / 16) in
    if ltb n 16 then hex_digit n else text_append front (hex_digit n)

-- `fmt.Sprintf("%d", n)`, for an n of at most one digit more than the first argument says.
unfoldable pub decimal : ℕ → ℕ → String
unfolding hex_digit
decimal zero n = hex_digit (n % 10)
decimal (suc more) n =
    let front = decimal more (n / 10) in
    if ltb n 10 then hex_digit n else text_append front (hex_digit (n % 10))

-- `a + ":" + b`
unfoldable pub with_colon : String → String → String
with_colon a b = text_append a (text_append ":" b)

-- `a + "_" + b`
unfoldable pub joined : String → String → String
joined a b = text_append a (text_append "_" b)

-- hash/fnv's New64a: the sum after some bytes, from the sum before them.
unfoldable pub sum64a_from : ℕ → List ℕ → ℕ
sum64a_from h [] = h
sum64a_from h (x ∷ xs) = sum64a_from (bit_xor h x * 1099511628211 % 2 ^ 64) xs
