-- ===== src/Adapter/Base62/RoundTrip.antt =====
-- Decoding what encodeBase62 of services/provider-adapter/internal/opaque/base62.go wrote.
use mathlib.Core.List.{append-nil}
use mathlib.Core.Path.{subst}
use dabet.Prelude.{
  lt→ltb, sym, ◌∙◌, ltb, ==_iff, if◌then◌else◌, ap, inr, zero, none, inl, ◌+◌, drop, Bool-cases,
  ◌==◌, ◌*◌, ◌&&◌, suc, some, map, false, arith, ◌++◌, true, replicate, Option, Bool, All, ◌<◌, ◌≡◌,
  ℕ, List, refl, [], ◌∷◌,
}
use dabet.Adapter.Base62.{encode_base62, decode_base62, decode_loop, digit_of, char_of, leading}
use dabet.Adapter.Base62.Numbers.{
  value, digits, value-digits, digits-value_of, digits-below, digits-first,
}

all_below : ℕ → (ℕ → Bool) → Bool
all_below zero p = true
all_below (suc n) p = p n && all_below n p

all_below-holds : (n : ℕ) (p : ℕ → Bool) (d : ℕ) → all_below n p ≡ true → d < n → p d ≡ true
unfolding all_below
all_below-holds zero p d h k = absurd (omega arith)
all_below-holds (suc n) p d h k = elim (Bool-cases (d == n)) [
  | inl last ↦ ground (arith, last, h)
  | inr other ↦ all_below-holds n p d (ground (arith, h)) (ground (arith, other))
]

finds : ℕ → Option ℕ → Bool
finds d none = false
finds d (some e) = e == d

found_digits : all_below 62 (λ d. finds d (digit_of (char_of d))) ≡ true
unfolding all_below finds digit_of char_of
found_digits = refl

-- Each digit is found at the place of its character.
pub digit_of-char_of : (d : ℕ) → d < 62 → digit_of (char_of d) ≡ some d
unfolding finds
digit_of-char_of d h =
    ground (arith, all_below-holds 62 (λ e. finds e (digit_of (char_of e))) d found_digits h)

decode_loop-map :
    (ds : List ℕ) (acc : ℕ)
    → All (λ d. d < 62) ds
    → decode_loop acc (map char_of ds) ≡ some (value 62 acc ds)
unfolding decode_loop
decode_loop-map [] acc a = refl
decode_loop-map (d ∷ ds) acc (h, a) =
    ap
      (λ o. elim o as (λ _. Option ℕ) [
        | none ↦ none
        | some v ↦ decode_loop (acc * 62 + v) (map char_of ds)
      ])
      (digit_of-char_of d h)
    ∙ decode_loop-map ds (acc * 62 + d) a

leading-replicate :
    (x z : ℕ) (l : List ℕ)
    → leading x l ≡ 0
    → (leading x (replicate z x ++ l) ≡ z) × (drop z (replicate z x ++ l) ≡ l)
leading-replicate x zero l h = (h, refl)
leading-replicate x (suc z) l h = ground (arith, leading-replicate x z l h)

leading-split :
    (x : ℕ) (l : List ℕ)
    → (l ≡ replicate (leading x l) x ++ drop (leading x l) l)
      × (leading x (drop (leading x l) l) ≡ 0)
leading-split x [] = (refl, refl)
leading-split x (y ∷ l) = elim (Bool-cases (y == x)) [
  | inl same ↦ ground (arith, same, leading-split x l)
  | inr other ↦ ground (arith, other)
]

leading_char :
    (d : ℕ) (ds : List ℕ) → d < 62 → 0 < d → leading (char_of 0) (map char_of (d ∷ ds)) ≡ 0
leading_char d ds h k = elim (Bool-cases (char_of d == char_of 0)) [
  | inl same ↦ absurd (
      ground (
        arith,
        digit_of-char_of d h,
        digit_of-char_of 0 (omega arith),
        ap digit_of ((==_iff (char_of d) (char_of 0)).0 same),
      ))
  | inr other ↦ ground (arith, other)
]

encode-replicate :
    (z : ℕ) (l : List ℕ)
    → leading 0 l ≡ 0
    → encode_base62 (replicate z 0 ++ l) ≡ (
        if value 256 0 l == 0
        then replicate z (char_of 0)
        else replicate z (char_of 0) ++ map char_of (digits 62 (value 256 0 l)))
unfolding encode_base62
encode-replicate z l h = let (zeros, rest) = leading-replicate 0 z l h in rw (zeros, rest) refl

-- What is written out after the zeros.
abbrev decoded : ℕ → Option ℕ → Option (List ℕ)
decoded k none = none
decoded k (some n) = some (replicate k 0 ++ (if ltb 0 n then digits 256 n else []))

decode-replicate :
    (z n : ℕ) (cs : List ℕ)
    → leading (char_of 0) cs ≡ 0
    → decode_loop 0 cs ≡ some n
    → decode_base62 (replicate z (char_of 0) ++ cs)
      ≡ some (replicate z 0 ++ (if ltb 0 n then digits 256 n else []))
unfolding decode_base62
decode-replicate z n cs h e =
    let (zeros, rest) = leading-replicate (char_of 0) z cs h in
    ap (λ k. decoded k (decode_loop 0 (drop k (replicate z (char_of 0) ++ cs)))) zeros
    ∙ ap (λ l. decoded z (decode_loop 0 l)) rest
    ∙ ap (decoded z) e

drop-All {κ} : (P : ℕ → Type κ) (n : ℕ) (l : List ℕ) → All P l → All P (drop n l)
drop-All P zero l a = a
drop-All P (suc n) [] a = tt
drop-All P (suc n) (x ∷ l) (h, a) = drop-All P n l a

not_zero : (n : ℕ) → 0 < n → (n == 0) ≡ false
not_zero n h = ground arith

no_digits : decode_loop 0 [] ≡ some 0
unfolding decode_loop
no_digits = refl

round_trip :
    (z : ℕ) (l : List ℕ)
    → All (λ x. x < 256) l
    → leading 0 l ≡ 0
    → decode_base62 (encode_base62 (replicate z 0 ++ l)) ≡ some (replicate z 0 ++ l)
round_trip z [] a h =
    ap decode_base62 (encode-replicate z [] h ∙ sym (append-nil (replicate z (char_of 0))))
    ∙ decode-replicate z 0 [] refl no_digits
round_trip z (d ∷ ds) a h =
    let n = value 256 0 (d ∷ ds) in
    let (positive, back) = digits-value_of 256 d ds (omega arith) (ground (arith, h)) a in
    let (e, es, first, e_positive) = digits-first 62 n (omega arith) positive in
    let below = digits-below 62 n (omega arith) in
    let (e_below, _) = subst (All (λ x. x < 62)) first below in
    ap decode_base62 (
      encode-replicate z (d ∷ ds) h
      ∙ ap
          (λ t.
            if t
            then replicate z (char_of 0)
            else replicate z (char_of 0) ++ map char_of (digits 62 n))
          (not_zero n positive))
    ∙ decode-replicate z n (map char_of (digits 62 n))
        (ap (λ l. leading (char_of 0) (map char_of l)) first ∙ leading_char e es e_below e_positive)
        (decode_loop-map (digits 62 n) 0 below ∙ ap some (value-digits 62 n (omega arith)))
    ∙ ap (λ t. some (replicate z 0 ++ (if t then digits 256 n else []))) (lt→ltb 0 n positive)
    ∙ ap (λ l. some (replicate z 0 ++ l)) back

-- Bytes are what is decoded from their encoding, leading zeros included.
pub decode_base62-encode_base62 :
    (b : List ℕ) → All (λ x. x < 256) b → decode_base62 (encode_base62 b) ≡ some b
decode_base62-encode_base62 b a =
    let z = leading 0 b in
    let (split, rest) = leading-split 0 b in
    ap (λ c. decode_base62 (encode_base62 c)) split
    ∙ round_trip z (drop z b) (drop-All (λ x. x < 256) z b a) rest
    ∙ ap some (sym split)
