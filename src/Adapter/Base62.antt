-- ===== src/Adapter/Base62.antt =====
-- services/provider-adapter/internal/opaque/base62.go: the encoding of bytes as base62. A Go string is
-- the list of its bytes, a big.Int a number.
pub mod Numbers
pub mod RoundTrip
use dabet.Prelude.{
  map, ltb, ◌++◌, ◌+◌, replicate, ◌*◌, zero, some, none, ◌==◌, suc, if◌then◌else◌, drop, Option, ℕ,
  List, [], ◌∷◌,
}
use dabet.Adapter.Base62.Numbers.{value, digits}

-- '0' to '9', 'A' to 'Z', 'a' to 'z'.
abbrev pub alphabet : List ℕ
alphabet =
    48 ∷ 49 ∷ 50 ∷ 51 ∷ 52 ∷ 53 ∷ 54 ∷ 55 ∷ 56 ∷ 57 ∷ 65 ∷ 66 ∷ 67 ∷ 68 ∷ 69 ∷ 70 ∷ 71 ∷ 72 ∷ 73
    ∷ 74 ∷ 75 ∷ 76 ∷ 77 ∷ 78 ∷ 79 ∷ 80 ∷ 81 ∷ 82 ∷ 83 ∷ 84 ∷ 85 ∷ 86 ∷ 87 ∷ 88 ∷ 89 ∷ 90 ∷ 97 ∷ 98
    ∷ 99 ∷ 100 ∷ 101 ∷ 102 ∷ 103 ∷ 104 ∷ 105 ∷ 106 ∷ 107 ∷ 108 ∷ 109 ∷ 110 ∷ 111 ∷ 112 ∷ 113 ∷ 114
    ∷ 115 ∷ 116 ∷ 117 ∷ 118 ∷ 119 ∷ 120 ∷ 121 ∷ 122 ∷ []

-- alphabet[d]; a digit is below 62, so the other case is none.
abbrev pub char_at : List ℕ → ℕ → ℕ
char_at [] d = 0
char_at (c ∷ cs) zero = c
char_at (c ∷ cs) (suc d) = char_at cs d

-- strings.IndexByte: none is -1.
abbrev pub index_byte : List ℕ → ℕ → Option ℕ
index_byte [] c = none
index_byte (x ∷ xs) c =
    if x == c then some 0 else elim (index_byte xs c) [ none ↦ none | some i ↦ some (suc i) ]

unfoldable pub char_of : ℕ → ℕ
char_of d = char_at alphabet d

unfoldable pub digit_of : ℕ → Option ℕ
digit_of c = index_byte alphabet c

-- How many bytes at the front are x.
abbrev pub leading : ℕ → List ℕ → ℕ
leading x [] = 0
leading x (b ∷ bs) = if b == x then suc (leading x bs) else 0

unfoldable pub encode_base62 : List ℕ → List ℕ
encode_base62 b =
    let zeros = leading 0 b in
    let n = value 256 0 (drop zeros b) in
    if n == 0
    then replicate zeros (char_of 0)
    else replicate zeros (char_of 0) ++ map char_of (digits 62 n)

-- The loop over the characters.
unfoldable pub decode_loop : ℕ → List ℕ → Option ℕ
decode_loop n [] = some n
decode_loop n (c ∷ cs) = elim (digit_of c) [ none ↦ none | some v ↦ decode_loop (n * 62 + v) cs ]

unfoldable pub decode_base62 : List ℕ → Option (List ℕ)
decode_base62 s =
    let zeros = leading (char_of 0) s in
    elim (decode_loop 0 (drop zeros s)) [
      | none ↦ none
      | some n ↦ some (replicate zeros 0 ++ (if ltb 0 n then digits 256 n else []))
    ]
