-- ===== src/Adapter/Opaque/Lengths.antt =====
-- The length of the ids of services/provider-adapter/internal/opaque/opaque.go.
use native.Mathlib.Nat.{
  pow-zero, pow-suc, pow-succ', div-lt_iff_lt-mul, mul-le-mul_right, mul_assoc, add-mul, one-mul,
  pow-le-pow_right,
}
use mathlib.Core.Path.{subst}
use dabet.Prelude.{
  Bool, ◌⊎◌, take, String, ◌%◌, ◌/◌, length-append, inr, ==_iff, inl, ◌==◌, Bool-cases, sym, arith,
  zero, ap, ◌≡◌, suc, ◌*◌, ◌≤◌, map, ◌^◌, ◌+◌, length, All, ◌<◌, ℕ, List, refl, [], ◌∷◌,
}
use dabet.Adapter.Base62.{encode_base62, char_of}
use dabet.Adapter.Base62.Numbers.{digits_on, value, digits, digits-step}
use dabet.Adapter.Opaque.{
  tag, mint_content_id, mint_author_id, mint_message_id, hashed_payload, max_id_len,
}
use dabet.Adapter.Opaque.Routing.{tag-cases, tag-lookup, take-All}

digits-short : (k base n : ℕ) → 1 < base → n < base ^ k → length (digits base n) ≤ k
unfolding digits digits_on
digits-short zero base n b h =
    subst (λ m. length (digits base m) ≤ 0) {x = 0} {y = n} (omega (arith, pow-zero base))
      (omega arith)
digits-short (suc k) base n b h = elim (Bool-cases (n == 0)) [
  | inl nought ↦
      subst (λ m. length (digits base m) ≤ suc k) (sym ((==_iff n 0).0 nought)) (omega arith)
  | inr some_n ↦ omega (
    arith,
    ap length (digits-step base n b (ground (arith, some_n))),
    length-append (digits base (n / base)) (n % base ∷ []),
    digits-short k base (n / base) b (
        (div-lt_iff_lt-mul {k = base} {x = n} {y = base ^ k} (omega arith)).1
          (omega (arith, pow-suc base k))),
  )
]

value-below :
    (base acc : ℕ) (ds : List ℕ)
    → All (λ d. d < base) ds
    → value base acc ds < (acc + 1) * base ^ length ds
value-below base acc [] a = subst (λ p. acc < (acc + 1) * p) (sym (pow-zero base)) (omega arith)
value-below base acc (d ∷ ds) (h, a) =
    let more : acc * base + d + 1 ≤ (acc + 1) * base = omega (arith, add-mul acc 1 base) in
    omega (
      arith,
      value-below base (acc * base + d) ds a,
      mul-le-mul_right {m = acc * base + d + 1} {n = (acc + 1) * base} (base ^ length ds) more,
      mul_assoc (acc + 1) base (base ^ length ds),
      ap (λ p. (acc + 1) * p) (pow-succ' base (length ds)),
    )

length-map {ℓ κ} :
    {A : Type ℓ} {B : Type κ} (f : A → B) (xs : List A) → length (map f xs) ≡ length xs
length-map f [] = refl
length-map f (x ∷ xs) = ap suc (length-map f xs)

-- A tag and twelve bytes.
encode-short :
    (t : ℕ) (l : List ℕ)
    → 0 < t
    → All (λ x. x < 256) (t ∷ l)
    → length l ≤ 12
    → length (encode_base62 (t ∷ l)) ≤ 18
unfolding encode_base62
encode-short t l positive a h =
    let n = value 256 0 (t ∷ l) in
    let below : n < 62 ^ 18 = omega (
      arith,
      value-below 256 0 (t ∷ l) a,
      one-mul (256 ^ length (t ∷ l)),
      pow-le-pow_right {n = 256} (omega arith) {i = length (t ∷ l)} {j = 13} (omega arith),
    ) in
    ground (arith, length-map char_of (digits 62 n), digits-short 18 62 n (omega arith) below)

length-take {ℓ} : {A : Type ℓ} (n : ℕ) (xs : List A) → length (take n xs) ≤ n
length-take zero xs = omega arith
length-take (suc n) [] = omega arith
length-take (suc n) (x ∷ xs) = omega (arith, length-take n xs)

hashed-short :
    (sum256 : List ℕ → List ℕ) (p : String) (t : ℕ) (native : List ℕ)
    → ((b : List ℕ) → All (λ x. x < 256) (sum256 b))
    → tag p ≡ inr t
    → length (encode_base62 (hashed_payload sum256 t native)) ≤ 18
unfolding hashed_payload
hashed-short sum256 p t native bytes known =
    let (_, positive, byte) = tag-lookup p t known in
    encode-short t (take 12 (sum256 native)) positive
      (byte, take-All _ 12 (sum256 native) (bytes native)) (length-take 12 (sum256 native))

-- Every id that is minted has at most 64 bytes, as the contract of ids asks: whatever the native id,
-- where SHA-256 gives bytes.
pub mint-IsShort :
    (sum256 : List ℕ → List ℕ) (p : String) (native id : List ℕ)
    → ((b : List ℕ) → All (λ x. x < 256) (sum256 b))
    → (mint_content_id sum256 p native ≡ inr id)
      ⊎ ((mint_author_id sum256 p native ≡ inr id)
          ⊎ ((reversible : Bool) × (mint_message_id sum256 p native ≡ inr (id, reversible))))
    → length id ≤ max_id_len
unfolding mint_content_id mint_author_id mint_message_id
mint-IsShort sum256 p native id bytes h = elim (tag-cases p) [
  | inr (err, unknown) ↦ absurd (ground (arith, unknown, h))
  | inl (t, known) ↦
      let short = hashed-short sum256 p t native bytes known in
      elim h [
        | inl content ↦ ground (arith, known, content, short)
        | inr (inl author) ↦ ground (arith, known, author, short)
        | inr (inr (reversible, message)) ↦ ground (arith, known, message, short)
      ]
]
