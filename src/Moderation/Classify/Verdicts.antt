-- ===== src/Moderation/Classify/Verdicts.antt =====
-- An answer that is taken has a verdict for each message, and for nothing else.
use dabet.Prelude.Int.{pos, ltb_ℤ, ℤ, pos_part}
use dabet.Moderation.Classify.{Verdict, place, assemble}
use dabet.Prelude.{
  refl, inr, inl, Option-cases, any, ==_iff, ◌||◌, zero, arith, [], ◌==◌, ◌<◌, ◌∷◌, true, suc, some,
  ◌-◌, ◌≡◌, set, not, false, all, replicate, length, Bool, ℕ, List,
}

abbrev pub is_in_range : ℕ → Verdict → Bool
is_in_range n r = not (ltb_ℤ r.i (pos 1) || ltb_ℤ (pos n) r.i)

-- Some verdict is about position `k`, counted from 0.
abbrev pub is_for : ℕ → Verdict → Bool
is_for k r = (pos_part r.i - 1) == k

abbrev is_set : List Bool → ℕ → Bool
is_set [] k = false
is_set (x ∷ xs) zero = x
is_set (x ∷ xs) (suc k) = is_set xs k

length-set {ℓ} : {A : Type ℓ} (xs : List A) (k : ℕ) (v : A) → length (set xs k v) ≡ length xs
length-set [] k v = refl
length-set (x ∷ xs) zero v = refl
length-set (x ∷ xs) (suc k) v = omega (arith, length-set xs k v)

length-replicate {ℓ} : {A : Type ℓ} (n : ℕ) (a : A) → length (replicate n a) ≡ n
length-replicate zero a = refl
length-replicate (suc n) a = omega (arith, length-replicate n a)

is_set-set :
    (xs : List Bool) (j k : ℕ) → is_set (set xs j true) k ≡ true → (is_set xs k || j == k) ≡ true
is_set-set [] j k h = absurd (ground arith)
is_set-set (x ∷ xs) zero zero h = ground arith
is_set-set (x ∷ xs) zero (suc k) h = ground arith
is_set-set (x ∷ xs) (suc j) zero h = ground arith
is_set-set (x ∷ xs) (suc j) (suc k) h = ground (arith, is_set-set xs j k, ==_iff j k)

is_set-replicate : (n k : ℕ) → is_set (replicate n false) k ≡ false
is_set-replicate zero k = refl
is_set-replicate (suc n) zero = refl
is_set-replicate (suc n) (suc k) = is_set-replicate n k

all-is_set : (xs : List Bool) (k : ℕ) → all (λ s. s) xs ≡ true → k < length xs → is_set xs k ≡ true
all-is_set [] k a h = absurd (omega arith)
all-is_set (x ∷ xs) zero a h = ground arith
all-is_set (x ∷ xs) (suc k) a h = ground (arith, all-is_set xs k)

-- What the loop has done to the two slices when it ends.
record Placed (n : ℕ) (rs : List Verdict) (out o : List ℤ) (seen s : List Bool) : Type 0 where
  in_range : all (is_in_range n) rs ≡ true
  same_out : length o ≡ length out
  same_seen : length s ≡ length seen
  marked : (k : ℕ) → is_set s k ≡ true → (is_set seen k || any (is_for k) rs) ≡ true

place-Placed :
    (n : ℕ) (rs : List Verdict) (out o : List ℤ) (seen s : List Bool)
    → place n rs out seen ≡ some (o, s)
    → Placed n rs out o seen s
unfolding place
place-Placed n [] out o seen s e = record {
  in_range = refl;
  same_out = ground arith;
  same_seen = ground arith;
  marked = λ k h. ground arith;
}
place-Placed n (r ∷ rs) out o seen s e =
    let at : ℕ = pos_part r.i - 1 in
    let rest : is_in_range n r ≡ true → Placed n rs (set out at r.violates) o (set seen at true) s =
      λ ok. place-Placed n rs (set out at r.violates) o (set seen at true) s (ground arith) in
    let ok : is_in_range n r ≡ true = ground arith in
    let p = rest ok in
    record {
      in_range = ground (arith, p.in_range);
      same_out = ground (arith, p.same_out, length-set out at r.violates);
      same_seen = ground (arith, p.same_seen, length-set seen at true);
      marked = λ k h. ground (arith, p.marked k h, is_set-set seen at k);
    }

-- A batch of `n` messages gets `n` verdicts; the answer gave one for every message, and none for a
-- message that is not in the batch.
pub assemble_complete :
    (n : ℕ) (rs : List Verdict) (out : List ℤ)
    → assemble n rs ≡ some out
    → (length out ≡ n)
      × ((all (is_in_range n) rs ≡ true) × ((k : ℕ) → k < n → any (is_for k) rs ≡ true))
unfolding assemble
assemble_complete n rs out e =
    elim (Option-cases (place n rs (replicate n (pos 0)) (replicate n false))) [
      | inl failed ↦ absurd (ground (arith, failed))
      | inr ((o, s), placed) ↦
          let p = place-Placed n rs (replicate n (pos 0)) o (replicate n false) s placed in
          let all_set : all (λ b. b) s ≡ true = ground (arith, placed) in
          (
            ground (arith, placed, p.same_out, length-replicate n (pos 0)),
            (
              p.in_range,
              λ k h. ground (
                arith,
                p.marked k
                    (all-is_set s k all_set (omega (arith, p.same_seen, length-replicate n false))),
                is_set-replicate n k,
              ),
            ),
          )
    ]
