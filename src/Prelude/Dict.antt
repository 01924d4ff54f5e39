-- ===== src/Prelude/Dict.antt =====
-- A Go map as an association list: one entry for each key, found by the key's equality test. A map
-- is iterated in an order of its own; the list fixes one.
use mathlib.Core.Path.{subst, subst₂}
use mathlib.Core.Option.{some-injective}
use dabet.Prelude.{
  false, ℕ, ◌+◌, ◌≡◌, refl, ◌↔◌, inl, inr, Bool, true, Option, none, some, List, [], ◌∷◌, arith,
  String, str_eq, str_eq_iff, if◌then◌else◌, Bool-cases, ◌==◌, ==_iff,
}

pub record Eq {ℓ} (A : Type ℓ) : Type ℓ where
  pub beq : A → A → Bool
  pub beq_iff : (a b : A) → (beq a b ≡ true) ↔ (a ≡ b)

instance abbrev pub string_eq : Eq String
string_eq = record { beq = str_eq; beq_iff = str_eq_iff }

instance abbrev pub nat_eq : Eq ℕ
nat_eq = record { beq = ◌==◌; beq_iff = ==_iff }

module _ {ℓ κ} {K : Type ℓ} {V : Type κ} ⦃e : Eq K⦄ where
  abbrev pub lookup : K → List (K × V) → Option V
  lookup k [] = none
  lookup k ((j, v) ∷ m) = if e.beq j k then some v else lookup k m

  abbrev pub insert : K → V → List (K × V) → List (K × V)
  insert k v [] = (k, v) ∷ []
  insert k v ((j, w) ∷ m) = if e.beq j k then (k, v) ∷ m else (j, w) ∷ insert k v m

  abbrev pub delete : K → List (K × V) → List (K × V)
  delete k [] = []
  delete k ((j, w) ∷ m) = if e.beq j k then m else (j, w) ∷ delete k m

  -- The sum of a measure of the entries.
  abbrev pub total : (K → V → ℕ) → List (K × V) → ℕ
  total f [] = 0
  total f ((k, v) ∷ m) = f k v + total f m

  abbrev pub measure_at : (K → V → ℕ) → K → Option V → ℕ
  measure_at f k none = 0
  measure_at f k (some v) = f k v

  -- What holds of every entry.
  abbrev pub AllEntries {μ} : (K → V → Type μ) → List (K × V) → Type μ
  AllEntries P [] = Unit
  AllEntries P ((k, v) ∷ m) = P k v × AllEntries P m

  abbrev pub DistinctKeys : List (K × V) → Type 0
  DistinctKeys [] = Unit
  DistinctKeys ((k, v) ∷ m) = AllEntries (λ j w. e.beq k j ≡ false) m × DistinctKeys m

module _ {ℓ κ} {K : Type ℓ} {V : Type κ} ⦃e : Eq K⦄ where
  pub total-insert :
      (f : K → V → ℕ) (k : K) (v : V) (m : List (K × V))
      → total f (insert k v m) + measure_at f k (lookup k m) ≡ total f m + f k v
  total-insert f k v [] = omega arith
  total-insert f k v ((j, w) ∷ m) = ground (arith, e.beq_iff j k, total-insert f k v m)

  pub total-delete :
      (f : K → V → ℕ) (k : K) (m : List (K × V))
      → total f (delete k m) + measure_at f k (lookup k m) ≡ total f m
  total-delete f k [] = omega arith
  total-delete f k ((j, w) ∷ m) = ground (arith, e.beq_iff j k, total-delete f k m)

  pub lookup-insert :
      (k j : K) (v : V) (m : List (K × V))
      → lookup j (insert k v m) ≡ (if e.beq k j then some v else lookup j m)
  lookup-insert k j v [] = refl
  lookup-insert k j v ((i, w) ∷ m) =
      ground (arith, e.beq_iff k j, e.beq_iff i k, e.beq_iff i j, lookup-insert k j v m)

  pub insert-AllEntries {μ} :
      (P : K → V → Type μ) (k : K) (v : V) (m : List (K × V))
      → P k v
      → AllEntries P m
      → AllEntries P (insert k v m)
  insert-AllEntries P k v [] h a = (h, tt)
  insert-AllEntries P k v ((j, w) ∷ m) h (b, a) = elim (Bool-cases (e.beq j k)) [
    | inl same ↦ rw same (h, a)
    | inr other ↦ rw other (b, insert-AllEntries P k v m h a)
  ]

  pub delete-AllEntries {μ} :
      (P : K → V → Type μ) (k : K) (m : List (K × V)) → AllEntries P m → AllEntries P (delete k m)
  delete-AllEntries P k [] a = tt
  delete-AllEntries P k ((j, w) ∷ m) (b, a) = elim (Bool-cases (e.beq j k)) [
    | inl same ↦ rw same a
    | inr other ↦ rw other (b, delete-AllEntries P k m a)
  ]

  pub lookup-AllEntries {μ} :
      (P : K → V → Type μ) (k : K) (v : V) (m : List (K × V))
      → AllEntries P m
      → lookup k m ≡ some v
      → P k v
  lookup-AllEntries P k v [] a h = absurd (cc)
  lookup-AllEntries P k v ((j, w) ∷ m) (b, a) h = elim (Bool-cases (e.beq j k)) [
    | inl same ↦ subst₂ P ((e.beq_iff j k).0 same) (some-injective w v (rw same at h)) b
    | inr other ↦ lookup-AllEntries P k v m a (rw other at h)
  ]

  pub insert-DistinctKeys :
      (k : K) (v : V) (m : List (K × V)) → DistinctKeys m → DistinctKeys (insert k v m)
  insert-DistinctKeys k v [] d = (tt, tt)
  insert-DistinctKeys k v ((j, w) ∷ m) (a, d) = elim (Bool-cases (e.beq j k)) [
    | inl same ↦
        rw same (subst (λ i. AllEntries (λ l _. e.beq i l ≡ false) m) ((e.beq_iff j k).0 same) a, d)
    | inr other ↦
        rw other
          (insert-AllEntries (λ i _. e.beq j i ≡ false) k v m other a, insert-DistinctKeys k v m d)
  ]

  pub AllEntries-mono {μ ν} :
      (P : K → V → Type μ) (Q : K → V → Type ν) (m : List (K × V))
      → ((k : K) (v : V) → P k v → Q k v)
      → AllEntries P m
      → AllEntries Q m
  AllEntries-mono P Q [] f a = tt
  AllEntries-mono P Q ((k, v) ∷ m) f (h, a) = (f k v h, AllEntries-mono P Q m f a)

  pub lookup-absent :
      (k : K) (m : List (K × V)) → AllEntries (λ j w. e.beq k j ≡ false) m → lookup k m ≡ none
  lookup-absent k [] a = refl
  lookup-absent k ((j, v) ∷ m) (h, a) =
      ground (arith, e.beq_iff k j, e.beq_iff j k, lookup-absent k m a)

  pub lookup-delete :
      (k j : K) (m : List (K × V))
      → DistinctKeys m
      → lookup j (delete k m) ≡ (if e.beq k j then none else lookup j m)
  lookup-delete k j [] d = ground arith
  lookup-delete k j ((i, v) ∷ m) (a, d) = elim (Bool-cases (e.beq i k)) [
    | inl gone ↦
        ground (arith, gone, e.beq_iff i k, e.beq_iff k j, e.beq_iff i j, lookup-absent i m a)
    | inr stays ↦
        ground (arith, stays, e.beq_iff i k, e.beq_iff k j, e.beq_iff i j, lookup-delete k j m d)
  ]

  pub delete-DistinctKeys : (k : K) (m : List (K × V)) → DistinctKeys m → DistinctKeys (delete k m)
  delete-DistinctKeys k [] d = tt
  delete-DistinctKeys k ((j, w) ∷ m) (a, d) = elim (Bool-cases (e.beq j k)) [
    | inl gone ↦ rw gone d
    | inr stays ↦
        rw stays (delete-AllEntries (λ i _. e.beq j i ≡ false) k m a, delete-DistinctKeys k m d)
  ]
