-- ===== src/Prelude/Sort.antt =====
-- Sorting as Go's `sort` and `slices` promise it, for an order that tells any two values apart, and
-- what does not depend on the algorithm.
pub mod Unique
use mathlib.Core.Path.{subst}
use dabet.Prelude.{
  ◌∙◌, All-mono, Bool, true, false, not, ◌&&◌, ◌||◌, List, [], ◌∷◌, ◌≡◌, ◌↔◌, refl, arith,
  if◌then◌else◌, any, All, keep, Bool-cases, inl, inr, sym,
}

pub record Order {ℓ} (A : Type ℓ) : Type ℓ where
  pub lt : A → A → Bool
  pub lt_asym : (a b : A) → lt a b ≡ true → lt b a ≡ false
  pub lt_cotrans : (a b c : A) → lt a c ≡ true → (lt a b || lt b c) ≡ true
  pub lt_total : (a b : A) → lt a b ≡ false → lt b a ≡ false → a ≡ b

module _ {ℓ} {A : Type ℓ} ⦃o : Order A⦄ where
  abbrev pub same : A → A → Bool
  same a b = not (o.lt a b) && not (o.lt b a)

  abbrev pub sort_in : A → List A → List A
  sort_in a [] = a ∷ []
  sort_in a (b ∷ bs) = if o.lt b a then b ∷ sort_in a bs else a ∷ b ∷ bs

  abbrev pub sort : List A → List A
  sort [] = []
  sort (a ∷ l) = sort_in a (sort l)

  abbrev pub Sorted : List A → Type 0
  Sorted [] = Unit
  Sorted (a ∷ l) = All (λ b. o.lt b a ≡ false) l × Sorted l

  abbrev pub Increasing : List A → Type 0
  Increasing [] = Unit
  Increasing (a ∷ l) = All (λ b. o.lt a b ≡ true) l × Increasing l

  abbrev pub mem : A → List A → Bool
  mem a l = any (same a) l

  -- The later of two values beside each other that are the same is dropped.
  abbrev pub compact_after : A → List A → List A
  compact_after a [] = []
  compact_after a (b ∷ l) = if same a b then compact_after a l else b ∷ compact_after b l

  abbrev pub compact : List A → List A
  compact [] = []
  compact (a ∷ l) = a ∷ compact_after a l

module _ {ℓ} {A : Type ℓ} ⦃o : Order A⦄ where
  pub same→≡ : (a b : A) → same a b ≡ true → a ≡ b
  same→≡ a b h = ground (arith, o.lt_total a b)

  pub le_trans : (a b c : A) → o.lt b a ≡ false → o.lt c b ≡ false → o.lt c a ≡ false
  le_trans a b c h k = ground (arith, o.lt_cotrans c b a)

  pub lt_trans : (a b c : A) → o.lt a b ≡ true → o.lt b c ≡ true → o.lt a c ≡ true
  lt_trans a b c h k = ground (arith, o.lt_cotrans a c b, o.lt_asym b c)

  pub sort_in-All {κ} : (P : A → Type κ) (a : A) (l : List A) → P a → All P l → All P (sort_in a l)
  sort_in-All P a [] h k = (h, tt)
  sort_in-All P a (b ∷ bs) h (k, ks) = elim (Bool-cases (o.lt b a)) [
    | inl below ↦ rw below (k, sort_in-All P a bs h ks)
    | inr above ↦ rw above (h, (k, ks))
  ]

  sort_in-Sorted : (a : A) (l : List A) → Sorted l → Sorted (sort_in a l)
  sort_in-Sorted a [] s = (tt, tt)
  sort_in-Sorted a (b ∷ bs) (h, s) = elim (Bool-cases (o.lt b a)) [
    | inl below ↦
        rw below
          (sort_in-All (λ x. o.lt x b ≡ false) a bs (o.lt_asym b a below) h, sort_in-Sorted a bs s)
    | inr above ↦ rw above ((above, All-mono _ _ bs (λ x k. le_trans a b x above k) h), (h, s))
  ]

  pub sort-All {κ} : (P : A → Type κ) (l : List A) → All P l → All P (sort l)
  sort-All P [] h = tt
  sort-All P (a ∷ l) (h, k) = sort_in-All P a (sort l) h (sort-All P l k)

  pub sort-Sorted : (l : List A) → Sorted (sort l)
  sort-Sorted [] = tt
  sort-Sorted (a ∷ l) = sort_in-Sorted a (sort l) (sort-Sorted l)

  sort_in-first : (a : A) (l : List A) → All (λ x. o.lt x a ≡ false) l → sort_in a l ≡ a ∷ l
  sort_in-first a [] h = refl
  sort_in-first a (b ∷ bs) (h, k) = rw h refl

  pub keep-All {κ} : (P : A → Type κ) (p : A → Bool) (l : List A) → All P l → All P (keep p l)
  keep-All P p [] h = tt
  keep-All P p (a ∷ l) (h, k) = elim (Bool-cases (p a)) [
    | inl kept ↦ rw kept (h, keep-All P p l k)
    | inr dropped ↦ rw dropped (keep-All P p l k)
  ]

  sort_in-keep :
      (p : A → Bool) (a : A) (l : List A)
      → Sorted l
      → keep p (sort_in a l) ≡ (if p a then sort_in a (keep p l) else keep p l)
  sort_in-keep p a [] s = ground arith
  sort_in-keep p a (b ∷ bs) (h, s) = elim (Bool-cases (o.lt b a)) [
    | inl below ↦ ground (arith, below, sort_in-keep p a bs s)
    | inr above ↦ rw above (
        ground (
          arith,
          sort_in-first a (keep p (b ∷ bs))
              (keep-All _ p (b ∷ bs) (above, All-mono _ _ bs (λ x k. le_trans a b x above k) h)),
        ))
  ]

  -- Sorting commutes with a filter.
  pub keep-sort : (p : A → Bool) (l : List A) → keep p (sort l) ≡ sort (keep p l)
  keep-sort p [] = refl
  keep-sort p (a ∷ l) = ground (arith, sort_in-keep p a (sort l) (sort-Sorted l), keep-sort p l)
