-- ===== src/Prelude/Sort/Unique.antt =====
-- Increasing lists stand for sets: a list that is sorted and compacted is determined by its members.
use mathlib.Core.Path.{subst}
use dabet.Prelude.Sort.{
  sort_in, sort, Order, same, mem, Increasing, Sorted, compact, compact_after, same→≡, lt_trans,
  keep-All,
}
use dabet.Prelude.{
  ◌&&◌, keep, ◌||◌, ap, Bool, refl, inr, ◌∙◌, sym, inl, All-mono, arith, All, List, [], ◌∷◌, ◌≡◌,
  true, false, Bool-cases,
}

module _ {ℓ} {A : Type ℓ} ⦃o : Order A⦄ where
  below-mem : (a : A) (l : List A) → All (λ x. o.lt a x ≡ true) l → mem a l ≡ false
  below-mem a [] h = refl
  below-mem a (b ∷ bs) (h, k) = ground (arith, below-mem a bs k)

  same_refl : (a : A) → same a a ≡ true
  same_refl a = ground (arith, o.lt_asym a a)

  mem-rest :
      (a : A) (l m : List A) (x : A)
      → All (λ y. o.lt a y ≡ true) l
      → All (λ y. o.lt a y ≡ true) m
      → mem x (a ∷ l) ≡ mem x (a ∷ m)
      → mem x l ≡ mem x m
  mem-rest a l m x h k e = elim (Bool-cases (same x a)) [
    | inl at ↦
        subst (λ y. mem y l ≡ mem y m) (sym (same→≡ x a at))
          (below-mem a l h ∙ sym (below-mem a m k))
    | inr other ↦ rw other at e
  ]

  mem-below :
      (a b : A) (m : List A)
      → All (λ y. o.lt b y ≡ true) m
      → o.lt a b ≡ true
      → mem a (b ∷ m) ≡ false
  mem-below a b m k lt =
      below-mem a (b ∷ m) (lt, All-mono (λ y. o.lt b y ≡ true) _ m (λ y l. lt_trans a b y lt l) k)

  -- An increasing list is determined by its members.
  pub Increasing-unique :
      (l m : List A) → Increasing l → Increasing m → ((x : A) → mem x l ≡ mem x m) → l ≡ m
  Increasing-unique [] [] i j e = refl
  Increasing-unique [] (b ∷ m) i j e = absurd (ground (arith, e b, same_refl b))
  Increasing-unique (a ∷ l) [] i j e = absurd (ground (arith, e a, same_refl a))
  Increasing-unique (a ∷ l) (b ∷ m) (h, i) (k, j) e =
      let a≡b : a ≡ b =
        o.lt_total a b (ground (arith, mem-below a b m k, e a, same_refl a))
          (ground (arith, mem-below b a l h, e b, same_refl b)) in
      ap (λ y. y ∷ l) a≡b
      ∙ ap (λ t. b ∷ t)
          (Increasing-unique l m i j (λ x.
            mem-rest a l m x h (subst (λ y. All (λ z. o.lt y z ≡ true) m) (sym a≡b) k)
              (subst (λ y. mem x (a ∷ l) ≡ mem x (y ∷ m)) (sym a≡b) (e x))))

  mem-sort_in : (x a : A) (l : List A) → mem x (sort_in a l) ≡ (same x a || mem x l)
  mem-sort_in x a [] = refl
  mem-sort_in x a (b ∷ bs) = ground (arith, mem-sort_in x a bs)

  pub mem-sort : (x : A) (l : List A) → mem x (sort l) ≡ mem x l
  mem-sort x [] = refl
  mem-sort x (a ∷ l) = ground (arith, mem-sort_in x a (sort l), mem-sort x l)

  mem-compact_after :
      (x a : A) (l : List A) → (same x a || mem x (compact_after a l)) ≡ (same x a || mem x l)
  mem-compact_after x a [] = refl
  mem-compact_after x a (b ∷ bs) = elim (Bool-cases (same a b)) [
    | inl at ↦ ground (arith, at, ap (same x) (same→≡ a b at), mem-compact_after x a bs)
    | inr other ↦ ground (arith, other, mem-compact_after x b bs)
  ]

  pub mem-compact : (x : A) (l : List A) → mem x (compact l) ≡ mem x l
  mem-compact x [] = refl
  mem-compact x (a ∷ l) = mem-compact_after x a l

  compact_after-Increasing :
      (a : A) (l : List A)
      → All (λ b. o.lt b a ≡ false) l
      → Sorted l
      → Increasing (a ∷ compact_after a l)
  compact_after-Increasing a [] h s = (tt, tt)
  compact_after-Increasing a (b ∷ bs) (h, hs) (k, s) =
      let rest = compact_after-Increasing b bs k s in
      elim (Bool-cases (same a b)) [
        | inl at ↦ rw at (compact_after-Increasing a bs hs s)
        | inr other ↦
            let above : o.lt a b ≡ true = ground (arith, other, h) in
            rw other (
              (
                above,
                All-mono (λ y. o.lt b y ≡ true) _ (compact_after b bs)
                    (λ y l. lt_trans a b y above l) rest.0,
              ),
              rest,
            )
      ]

  pub compact-Increasing : (l : List A) → Sorted l → Increasing (compact l)
  compact-Increasing [] s = tt
  compact-Increasing (a ∷ l) (h, s) = compact_after-Increasing a l h s

  pub mem-keep : (p : A → Bool) (x : A) (l : List A) → mem x (keep p l) ≡ (p x && mem x l)
  mem-keep p x [] = ground arith
  mem-keep p x (a ∷ l) = elim (Bool-cases (same x a)) [
    | inl at ↦ ground (arith, at, ap p (same→≡ x a at), mem-keep p x l)
    | inr other ↦ ground (arith, other, mem-keep p x l)
  ]

  pub keep-Increasing : (p : A → Bool) (l : List A) → Increasing l → Increasing (keep p l)
  keep-Increasing p [] i = tt
  keep-Increasing p (a ∷ l) (h, i) = elim (Bool-cases (p a)) [
    | inl kept ↦ rw kept (keep-All _ p l h, keep-Increasing p l i)
    | inr dropped ↦ rw dropped (keep-Increasing p l i)
  ]
