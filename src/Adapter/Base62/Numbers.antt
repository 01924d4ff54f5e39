-- ===== src/Adapter/Base62/Numbers.antt =====
-- Positional numbers, as math/big of base62.go reads and writes them: SetBytes and Bytes are base 256.
use mathlib.Core.List.{append-nil, append_assoc}
use native.Mathlib.Nat.{
  mul-pos, mod-lt, zero-mul, div-lt_self, mod-eq_of_lt, mul-add-mod_self_right, mul-add-div_right,
  div-add-mod', div-eq_of_lt,
}
use dabet.Prelude.{
  All-append, ==_iff, false, ◌∙◌, true, ap, inr, inl, Bool-cases, arith, zero, ◌%◌, ◌==◌,
  if◌then◌else◌, sym, ◌/◌, ◌+◌, ◌≤◌, ◌≡◌, suc, All, ◌++◌, ◌*◌, List, ◌<◌, ℕ, refl, [], ◌∷◌,
}

-- The digits, most significant first.
abbrev pub value : ℕ → ℕ → List ℕ → ℕ
value base acc [] = acc
value base acc (d ∷ ds) = value base (acc * base + d) ds

-- The DivMod loop, on fuel.
unfoldable pub digits_on : ℕ → ℕ → ℕ → List ℕ
digits_on zero base n = []
digits_on (suc fuel) base n =
    let rest = digits_on fuel base (n / base) in if n == 0 then [] else rest ++ (n % base) ∷ []

unfoldable pub digits : ℕ → ℕ → List ℕ
digits base n = digits_on n base n

-- Enough fuel gives the digits.
pub digits_on-enough :
    (f g base n : ℕ) → 1 < base → n ≤ f → n ≤ g → digits_on f base n ≡ digits_on g base n
unfolding digits_on
digits_on-enough zero zero base n b h k = refl
digits_on-enough zero (suc g) base n b h k = ground arith
digits_on-enough (suc f) zero base n b h k = ground arith
digits_on-enough (suc f) (suc g) base n b h k = elim (Bool-cases (n == 0)) [
  | inl nought ↦ rw nought refl
  | inr some_n ↦
      ap (λ rest. if n == 0 then [] else rest ++ (n % base) ∷ [])
        (digits_on-enough f g base (n / base) b (smaller f some_n h) (smaller g some_n k))
]
  where
    smaller : (m : ℕ) → (n == 0) ≡ false → n ≤ suc m → n / base ≤ m
    smaller m e l = omega (arith, div-lt_self {n = n} {k = base} (ground arith) b)

pub digits-step :
    (base n : ℕ) → 1 < base → 0 < n → digits base n ≡ digits base (n / base) ++ (n % base) ∷ []
unfolding digits digits_on
digits-step base zero b h = absurd (omega arith)
digits-step base (suc k) b h =
    digits_on-suc
    ∙ ap (λ rest. rest ++ (suc k % base) ∷ [])
        (digits_on-enough k (suc k / base) base (suc k / base) b
          (omega (arith, div-lt_self {n = suc k} {k = base} h b)) (omega arith))
  where
    digits_on-suc :
        digits_on (suc k) base (suc k) ≡ digits_on k base (suc k / base) ++ (suc k % base) ∷ []
    digits_on-suc = ground arith

value-append :
    (base acc d : ℕ) (ds : List ℕ) → value base acc (ds ++ d ∷ []) ≡ value base acc ds * base + d
value-append base acc d [] = refl
value-append base acc d (e ∷ ds) = value-append base (acc * base + e) d ds

value-digits_on : (fuel base n : ℕ) → 1 < base → n ≤ fuel → value base 0 (digits_on fuel base n) ≡ n
unfolding digits_on
value-digits_on zero base n b h = omega arith
value-digits_on (suc fuel) base n b h =
    elim (n == 0)
        as (λ t.
          (n == 0) ≡ t
          → value base 0 (if t then [] else digits_on fuel base (n / base) ++ (n % base) ∷ [])
            ≡ n) [
              | true ↦ λ e. ground arith
              | false ↦ λ e.
                  value-append base 0 (n % base) (digits_on fuel base (n / base))
                  ∙ ap (λ q. q * base + n % base)
                      (value-digits_on fuel base (n / base) b
                        (omega (arith, div-lt_self {n = n} {k = base} (ground arith) b)))
                  ∙ div-add-mod' n base
            ]
      refl

-- The digits have the value they were taken from.
pub value-digits : (base n : ℕ) → 1 < base → value base 0 (digits base n) ≡ n
unfolding digits
value-digits base n b = value-digits_on n base n b (omega arith)

digits-digit :
    (base acc d : ℕ)
    → 1 < base
    → d < base
    → 0 < acc * base + d
    → digits base (acc * base + d) ≡ digits base acc ++ d ∷ []
digits-digit base acc d b h k =
    digits-step base (acc * base + d) b k
    ∙ ap (λ q. digits base q ++ ((acc * base + d) % base) ∷ []) quotient
    ∙ ap (λ r. digits base acc ++ r ∷ []) (mul-add-mod_self_right acc base d ∙ mod-eq_of_lt h)
  where
    quotient : (acc * base + d) / base ≡ acc
    quotient =
        omega (
          arith,
          mul-add-div_right {m = base} (omega arith) acc d,
          div-eq_of_lt {n = d} {m = base} h,
        )

-- Digits after those of a number that is not zero.
digits-value :
    (base acc : ℕ) (ds : List ℕ)
    → 1 < base
    → All (λ d. d < base) ds
    → 0 < acc
    → digits base (value base acc ds) ≡ digits base acc ++ ds
digits-value base acc [] b a k = sym (append-nil (digits base acc))
digits-value base acc (d ∷ ds) b (h, a) k =
    digits-value base (acc * base + d) ds b a positive
    ∙ ap (λ l. l ++ ds) (digits-digit base acc d b h positive)
    ∙ append_assoc (digits base acc) (d ∷ []) ds
  where
    positive : 0 < acc * base + d
    positive = omega (arith, mul-pos {m = acc} {n = base} k (omega arith))

value-positive : (base acc : ℕ) (ds : List ℕ) → 1 < base → 0 < acc → 0 < value base acc ds
value-positive base acc [] b h = h
value-positive base acc (d ∷ ds) b h =
    value-positive base (acc * base + d) ds b
      (omega (arith, mul-pos {m = acc} {n = base} h (omega arith)))

-- Digits of which the first is not zero are those of their value.
pub digits-value_of :
    (base d : ℕ) (ds : List ℕ)
    → 1 < base
    → 0 < d
    → All (λ e. e < base) (d ∷ ds)
    → (0 < value base 0 (d ∷ ds)) × (digits base (value base 0 (d ∷ ds)) ≡ d ∷ ds)
unfolding digits digits_on
digits-value_of base d ds b k (h, a) = (
  value-positive base (0 * base + d) ds b positive,
  digits-value base (0 * base + d) ds b a positive
      ∙ ap (λ l. l ++ ds) (digits-digit base 0 d b h positive),
)
  where
    positive : 0 < 0 * base + d
    positive = omega (arith, zero-mul base)

digits_on-below : (fuel base n : ℕ) → 1 < base → All (λ d. d < base) (digits_on fuel base n)
unfolding digits_on
digits_on-below zero base n b = tt
digits_on-below (suc fuel) base n b = elim (Bool-cases (n == 0)) [
  | inl nought ↦ rw nought tt
  | inr some_n ↦ rw some_n (
      All-append _ (digits_on fuel base (n / base)) (n % base ∷ [])
        (digits_on-below fuel base (n / base) b) (mod-lt n (omega arith), tt))
]

pub digits-below : (base n : ℕ) → 1 < base → All (λ d. d < base) (digits base n)
unfolding digits
digits-below base n b = digits_on-below n base n b

first-on :
    (fuel base n : ℕ)
    → 1 < base
    → 0 < n
    → n ≤ fuel
    → (d : ℕ) × (ds : List ℕ) × (digits base n ≡ d ∷ ds) × (0 < d)
unfolding digits digits_on
first-on zero base n b h k = absurd (omega arith)
first-on (suc fuel) base n b h k = elim (Bool-cases (n / base == 0)) [
  | inl nought ↦
      let q : n / base ≡ 0 = (==_iff (n / base) 0).0 nought in
      (
        n % base,
        [],
        digits-step base n b h ∙ ap (λ m. digits base m ++ (n % base) ∷ []) q,
        omega (arith, ap (λ m. m * base + n % base) q, div-add-mod' n base, zero-mul base),
      )
  | inr more ↦
      let (d, ds, e, positive) =
        first-on fuel base (n / base) b (ground (arith, more))
          (omega (arith, div-lt_self {n = n} {k = base} h b)) in
      (
        d,
        ds ++ (n % base) ∷ [],
        digits-step base n b h ∙ ap (λ l. l ++ (n % base) ∷ []) e,
        positive,
      )
]

-- The first digit is not zero.
pub digits-first :
    (base n : ℕ) → 1 < base → 0 < n → (d : ℕ) × (ds : List ℕ) × (digits base n ≡ d ∷ ds) × (0 < d)
digits-first base n b h = first-on n base n b h (omega arith)
