-- ===== src/Adapter/Dedup/Window.antt =====
-- The ring of services/provider-adapter/internal/dedup/dedup.go, against a window on the ids that were
-- recorded.
use mathlib.Core.List.{append_assoc, append-nil}
use native.Mathlib.Nat.{mod_self, mod-eq_of_lt}
use dabet.Prelude.{
  ltb→lt, drop-append, ◌≤◌, drop_all, ◌∙◌, length-append, sym, inr, inl, ltb, Bool-cases, ◌%◌, zero,
  str_eq, some, false, arith, ap, ◌+◌, ◌≡◌, suc, set, replicate, get_elem?, any, ◌++◌, ◌≢◌, take,
  length, drop, Bool, ◌<◌, ℕ, String, List, refl, [], ◌∷◌,
}
use dabet.Prelude.Dict.{string_eq, lookup, DistinctKeys}
use dabet.Adapter.Dedup.{Set, is_known}

-- The last ids recorded, as many as the set has slots: blank ones first, while it is not full.
abbrev pub recent : ℕ → List String → List String
recent capacity recorded = drop (length recorded) (replicate capacity "" ++ recorded)

-- The slots from the oldest on.
abbrev pub slots_of : Set → List String
slots_of s = drop s.next s.order ++ take s.next s.order

abbrev pub occurs : String → List String → Bool
occurs id ids = any (λ x. str_eq x id) ids

-- No id but the blank one occurs twice.
abbrev pub DistinctIds : List String → Type 0
DistinctIds [] = Unit
DistinctIds (x ∷ xs) = (x ≢ "" → occurs x xs ≡ false) × DistinctIds xs

pub record IsWindow (s : Set) (recorded : List String) : Type 0 where
  pub slots : length s.order ≡ s.capacity
  pub in_range : s.next < s.capacity
  pub window : slots_of s ≡ recent s.capacity recorded
  pub known : (id : String) → id ≢ "" → is_known (lookup id s.seen) ≡ occurs id (slots_of s)
  pub distinct : DistinctIds (slots_of s)
  pub distinct_keys : DistinctKeys s.seen

module _ {ℓ} {A : Type ℓ} where
  drop-set : (n : ℕ) (xs : List A) (v : A) → drop (suc n) (set xs n v) ≡ drop (suc n) xs
  drop-set n [] v = refl
  drop-set zero (x ∷ xs) v = refl
  drop-set (suc n) (x ∷ xs) v = drop-set n xs v

  take-set :
      (n : ℕ) (xs : List A) (v : A)
      → n < length xs
      → take (suc n) (set xs n v) ≡ take n xs ++ v ∷ []
  take-set n [] v h = absurd (omega arith)
  take-set zero (x ∷ xs) v h = refl
  take-set (suc n) (x ∷ xs) v h = ap (λ l. x ∷ l) (take-set n xs v (omega arith))

  pub length-set : (n : ℕ) (xs : List A) (v : A) → length (set xs n v) ≡ length xs
  length-set n [] v = refl
  length-set zero (x ∷ xs) v = refl
  length-set (suc n) (x ∷ xs) v = ap suc (length-set n xs v)

  take_all : (xs : List A) → take (length xs) xs ≡ xs
  take_all [] = refl
  take_all (x ∷ xs) = ap (λ l. x ∷ l) (take_all xs)

  drop-get_elem? :
      (n : ℕ) (xs : List A)
      → n < length xs
      → (x : A) × (get_elem? xs n ≡ some x) × (drop n xs ≡ x ∷ drop (suc n) xs)
  drop-get_elem? n [] h = absurd (omega arith)
  drop-get_elem? zero (x ∷ xs) h = (x, refl, refl)
  drop-get_elem? (suc n) (x ∷ xs) h = drop-get_elem? n xs (omega arith)

  drop-tail :
      (n : ℕ) (xs : List A) (y : A) (ys : List A) → drop n xs ≡ y ∷ ys → drop (suc n) xs ≡ ys
  drop-tail zero [] y ys h = absurd (cc)
  drop-tail zero (x ∷ xs) y ys h = cc
  drop-tail (suc n) [] y ys h = absurd (cc)
  drop-tail (suc n) (x ∷ xs) y ys h = drop-tail n xs y ys h

-- A write at `next`, which then moves on: the oldest slot goes, the new one comes last.
module _ (s : Set) (id : String) (fits : length s.order ≡ s.capacity)
    (h : s.next < s.capacity) where
  unfoldable pub later : List String
  later = drop (suc s.next) s.order ++ take s.next s.order

  pub oldest : (old : String) × (get_elem? s.order s.next ≡ some old) × (slots_of s ≡ old ∷ later)
  unfolding later
  oldest =
      let (old, at, first) = drop-get_elem? s.next s.order (omega arith) in
      (old, at, ap (λ l. l ++ take s.next s.order) first)

  pub written :
      drop ((s.next + 1) % s.capacity) (set s.order s.next id)
        ++ take ((s.next + 1) % s.capacity) (set s.order s.next id)
      ≡ later ++ id ∷ []
  unfolding later
  written = elim (Bool-cases (ltb (suc s.next) s.capacity)) [
    | inl inside ↦
        let at : (s.next + 1) % s.capacity ≡ suc s.next =
          mod-eq_of_lt {n = s.next + 1} (omega (arith, ltb→lt (suc s.next) s.capacity inside))
          ∙ omega arith in
        rw (at, drop-set s.next s.order id, take-set s.next s.order id (omega arith))
          (sym (append_assoc (drop (suc s.next) s.order) (take s.next s.order) (id ∷ [])))
    | inr wraps ↦
        let full : suc s.next ≡ length s.order = ground arith in
        let at : (s.next + 1) % s.capacity ≡ 0 =
          ap (λ n. n % s.capacity) (omega arith) ∙ mod_self s.capacity in
        let none_later : drop (suc s.next) s.order ≡ [] =
          ap (λ n. drop n s.order) full ∙ drop_all s.order in
        rw (at, none_later)
          (append-nil (set s.order s.next id)
            ∙ sym (take_all (set s.order s.next id))
            ∙ ap (λ n. take n (set s.order s.next id)) (length-set s.next s.order id ∙ sym full)
            ∙ take-set s.next s.order id (omega arith))
  ]

-- The same of the window: it forgets its oldest place.
pub length-replicate {ℓ} : {A : Type ℓ} (n : ℕ) (x : A) → length (replicate n x) ≡ n
length-replicate zero x = refl
length-replicate (suc n) x = ap suc (length-replicate n x)

pub recent-append :
    (capacity : ℕ) (h : List String) (id old : String) (rest : List String)
    → 0 < capacity
    → recent capacity h ≡ old ∷ rest
    → recent capacity (h ++ id ∷ []) ≡ rest ++ id ∷ []
recent-append capacity h id old rest some_slot e =
    ap (λ n. drop n (replicate capacity "" ++ (h ++ id ∷ []))) (counted)
    ∙ ap (drop (suc (length h))) (sym (append_assoc (replicate capacity "") h (id ∷ [])))
    ∙ drop-append (suc (length h)) (replicate capacity "" ++ h) (id ∷ []) fits
    ∙ ap (λ l. l ++ id ∷ []) (drop-tail (length h) (replicate capacity "" ++ h) old rest e)
  where
    counted : length (h ++ id ∷ []) ≡ suc (length h)
    counted = omega (arith, length-append h (id ∷ []))

    fits : suc (length h) ≤ length (replicate capacity "" ++ h)
    fits =
        omega (
          arith,
          length-append (replicate capacity "") h,
          length-replicate {A = String} capacity "",
        )
