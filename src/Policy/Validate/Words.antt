-- ===== src/Policy/Validate/Words.antt =====
-- The loop over the restricted words, and its normal form.
use dabet.Policy.Validate.{ok, runes_eq, check_words}
use dabet.Prelude.{
  ◌∙◌, inr, inl, any, suc, not, Bool-cases, ==_iff, sym, arith, ◌&&◌, ◌≤◌, ◌↔◌, leb, ap, ◌∷◌, true,
  length, [], ◌≡◌, ℕ, Bool, ◌++◌, Runes, List, refl,
}

pub runes_eq_iff : (a b : Runes) → (runes_eq a b ≡ true) ↔ (a ≡ b)
runes_eq_iff [] [] = (λ h. refl, λ e. refl)
runes_eq_iff [] (b ∷ bs) = (λ h. absurd (ground arith), λ e. absurd (ground arith))
runes_eq_iff (a ∷ s) [] = (λ h. absurd (ground arith), λ e. absurd (ground arith))
runes_eq_iff (a ∷ s) (b ∷ bs) = (
  λ h. ground (arith, ==_iff a b, runes_eq_iff s bs),
  λ e. ground (arith, ==_iff a b, runes_eq_iff s bs),
)

-- Words that follow `words` in a normalised document: of the right size, in lower case, and new.
abbrev pub is_normal : (Runes → Runes) → List Runes → List Runes → Bool
is_normal to_lower words [] = true
is_normal to_lower words (w ∷ ws) =
    (leb 1 (length w) && leb (length w) 64)
    && ((runes_eq (to_lower w) w && not (any (runes_eq w) words))
        && is_normal to_lower (words ++ w ∷ []) ws)

append_assoc : (xs ys zs : List Runes) → (xs ++ ys) ++ zs ≡ xs ++ (ys ++ zs)
append_assoc [] ys zs = refl
append_assoc (x ∷ xs) ys zs = ap (λ l. x ∷ l) (append_assoc xs ys zs)

append_nil : (xs : List Runes) → xs ++ [] ≡ xs
append_nil [] = refl
append_nil (x ∷ xs) = ap (λ l. x ∷ l) (append_nil xs)

-- Normal words are kept as they are.
pub check_words_normal :
    (to_lower : Runes → Runes) (i : ℕ) (words ws : List Runes)
    → is_normal to_lower words ws ≡ true
    → check_words to_lower i words ws ≡ ok (words ++ ws)
unfolding check_words
check_words_normal to_lower i words [] h = ap ok (sym (append_nil words))
check_words_normal to_lower i words (w ∷ ws) h = ground (
  arith,
  (runes_eq_iff (to_lower w) w).0,
  check_words_normal to_lower (suc i) (words ++ w ∷ []) ws,
  append_assoc words (w ∷ []) ws,
)

-- What ToLower does to a text: a second time it changes nothing, and it keeps the number of runes.
pub record IsLowering (to_lower : Runes → Runes) : Type 0 where
  pub idempotent : (s : Runes) → to_lower (to_lower s) ≡ to_lower s
  pub length-to_lower : (s : Runes) → length (to_lower s) ≡ length s

-- What the loop returns is normal, and has no more words than it was given.
pub check_words-normal :
    (to_lower : Runes → Runes) (i : ℕ) (words ws out : List Runes)
    → IsLowering to_lower
    → check_words to_lower i words ws ≡ ok out
    → (new : List Runes) × ((out ≡ words ++ new)
        × ((is_normal to_lower words new ≡ true) × (length new ≤ length ws)))
unfolding check_words
check_words-normal to_lower i words [] out l e =
    ([], (ground (arith, append_nil words), (refl, omega arith)))
check_words-normal to_lower i words (w ∷ ws) out l e =
    let lw : Runes = to_lower w in
    let lower = (runes_eq_iff (to_lower lw) lw).1 (l.idempotent w) in
    elim (Bool-cases (any (runes_eq lw) words)) [
      | inl old ↦
          let (new, (eq, (normal, few))) =
            check_words-normal to_lower (suc i) words ws out l (ground arith) in
          (new, (eq, (normal, omega (arith, few))))
      | inr new_word ↦
          let (new, (eq, (normal, few))) =
            check_words-normal to_lower (suc i) (words ++ lw ∷ []) ws out l (ground arith) in
          (
            lw ∷ new,
            (
              eq ∙ append_assoc words (lw ∷ []) new,
              (ground (arith, normal, lower, l.length-to_lower w), omega (arith, few)),
            ),
          )
    ]
