-- ===== src/Adapter/Ring/Bytes.antt =====
-- Byte strings as services/provider-adapter/internal/shard/ring.go uses them: Go's order of strings,
-- and strconv.AppendInt in base ten.
use mathlib.Core.Path.{subst}
use dabet.Prelude.Dict.{Eq}
use dabet.Prelude.Sort.{same, same→≡}
use dabet.Prelude.{
  ◌↔◌, zero, ◌&&◌, ◌==◌, ◌%◌, ◌||◌, ltb, if◌then◌else◌, arith, true, false, ◌/◌, ◌+◌, ◌≡◌, suc,
  Bool, ◌++◌, ℕ, List, refl, ◌∷◌, [],
}
use dabet.Prelude.Sort.{Order}

abbrev pub bytes_lt : List ℕ → List ℕ → Bool
bytes_lt a [] = false
bytes_lt [] (y ∷ b) = true
bytes_lt (x ∷ a) (y ∷ b) = ltb x y || (x == y && bytes_lt a b)

pub bytes_lt-asym : (a b : List ℕ) → bytes_lt a b ≡ true → bytes_lt b a ≡ false
bytes_lt-asym [] [] h = refl
bytes_lt-asym [] (y ∷ b) h = refl
bytes_lt-asym (x ∷ a) [] h = absurd (cc)
bytes_lt-asym (x ∷ a) (y ∷ b) h = ground (arith, bytes_lt-asym a b)

pub bytes_lt-cotrans :
    (a b c : List ℕ) → bytes_lt a c ≡ true → (bytes_lt a b || bytes_lt b c) ≡ true
bytes_lt-cotrans a b [] h = ground arith
bytes_lt-cotrans [] [] (z ∷ c) h = refl
bytes_lt-cotrans [] (y ∷ b) (z ∷ c) h = refl
bytes_lt-cotrans (x ∷ a) [] (z ∷ c) h = refl
bytes_lt-cotrans (x ∷ a) (y ∷ b) (z ∷ c) h = ground (arith, bytes_lt-cotrans a b c)

pub bytes_lt-total : (a b : List ℕ) → bytes_lt a b ≡ false → bytes_lt b a ≡ false → a ≡ b
bytes_lt-total [] [] h k = refl
bytes_lt-total [] (y ∷ b) h k = absurd (cc)
bytes_lt-total (x ∷ a) [] h k = absurd (cc)
bytes_lt-total (x ∷ a) (y ∷ b) h k = ground (arith, bytes_lt-total a b)

instance abbrev pub bytes_order : Order (List ℕ)
bytes_order = record {
  lt = bytes_lt;
  lt_asym = bytes_lt-asym;
  lt_cotrans = bytes_lt-cotrans;
  lt_total = bytes_lt-total;
}

pub same_bytes_iff : (a b : List ℕ) → (same a b ≡ true) ↔ (a ≡ b)
same_bytes_iff a b =
    (same→≡ a b, λ e. subst (λ c. same a c ≡ true) e (ground (arith, bytes_lt-asym a a)))

instance abbrev pub bytes_eq : Eq (List ℕ)
bytes_eq = record { beq = same; beq_iff = same_bytes_iff }

-- A number has fewer decimal digits than its successor counts.
unfoldable pub digits_on : ℕ → ℕ → List ℕ
digits_on zero n = []
digits_on (suc fuel) n =
    let higher = digits_on fuel (n / 10) in
    if ltb n 10 then (48 + n) ∷ [] else higher ++ (48 + n % 10) ∷ []

unfoldable pub append_int : List ℕ → ℕ → List ℕ
append_int b i = b ++ digits_on (i + 1) i
