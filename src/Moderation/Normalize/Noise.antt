-- ===== src/Moderation/Normalize/Noise.antt =====
-- What a spammer may add to a text without changing its normalised form.
use mathlib.Core.List.{map-append}
use dabet.Prelude.{
  ℕ, Runes, ◌≡◌, ◌∙◌, Bool, true, false, [], ◌∷◌, ◌++◌, arith, map, Bool-cases, inl, inr,
}
use dabet.Moderation.Normalize.Steps.{loop_hidden, loop_space, loop_ink}
use dabet.Moderation.Normalize.Shape.{IsRunewise}
use dabet.Moderation.Normalize.{Unicode, is_zero_width, normalize_loop, normalize}

-- Two rests on which the loop agrees in every state may follow any text.
loop_congr :
    (u : Unicode) (xs ys zs : Runes)
    → ((p w : Bool) → normalize_loop u p w ys ≡ normalize_loop u p w zs)
    → (p w : Bool) → normalize_loop u p w (xs ++ ys) ≡ normalize_loop u p w (xs ++ zs)
loop_congr u [] ys zs h p w = h p w
loop_congr u (x ∷ xs) ys zs h p w = elim (Bool-cases (is_zero_width x)) [
  | inl z ↦
      rw (loop_hidden u p w x (xs ++ ys) z, loop_hidden u p w x (xs ++ zs) z)
        (loop_congr u xs ys zs h p w)
  | inr n ↦ elim (Bool-cases (u.is_space x)) [
    | inl b ↦
        rw (loop_space u p w x (xs ++ ys) n b, loop_space u p w x (xs ++ zs) n b)
          (loop_congr u xs ys zs h true w)
    | inr k ↦ rw (
      loop_ink u p w x (xs ++ ys) (ground arith),
      loop_ink u p w x (xs ++ zs) (ground arith),
      loop_congr u xs ys zs h false true,
    )
  ]
]

space_run :
    (u : Unicode) (r s : ℕ) (ys : Runes) (p w : Bool)
    → is_zero_width r ≡ false
    → u.is_space r ≡ true
    → u.is_space s ≡ true
    → normalize_loop u p w (r ∷ s ∷ ys) ≡ normalize_loop u p w (r ∷ ys)
unfolding normalize_loop
space_run u r s ys p w v h k = ground arith

module _ (u : Unicode) (xs : Runes) (r : ℕ) (ys : Runes) (law : IsRunewise u) where
  -- Where ToLower goes rune by rune, an invisible rune anywhere in the text is not seen.
  pub normalize_zero_width :
      is_zero_width r ≡ true → normalize u (xs ++ r ∷ ys) ≡ normalize u (xs ++ ys)
  unfolding normalize
  normalize_zero_width h =
      rw
        (
          law.to_lower-map (xs ++ r ∷ ys),
          law.to_lower-map (xs ++ ys),
          map-append law.lower xs (r ∷ ys),
          map-append law.lower xs ys,
        )
        (loop_congr u (map law.lower xs) (map law.lower (r ∷ ys)) (map law.lower ys)
          (λ p w. loop_hidden u p w (law.lower r) (map law.lower ys) (law.zero_width-lower r ∙ h))
          false false)

  -- Where ToLower goes rune by rune, a second space, of whatever kind, right after a visible space is
  -- not seen.
  pub normalize_space_run :
      (s : ℕ)
      → is_zero_width r ≡ false
      → u.is_space r ≡ true
      → u.is_space s ≡ true
      → normalize u (xs ++ r ∷ s ∷ ys) ≡ normalize u (xs ++ r ∷ ys)
  unfolding normalize
  normalize_space_run s v h k =
      rw
        (
          law.to_lower-map (xs ++ r ∷ s ∷ ys),
          law.to_lower-map (xs ++ r ∷ ys),
          map-append law.lower xs (r ∷ s ∷ ys),
          map-append law.lower xs (r ∷ ys),
        )
        (loop_congr u (map law.lower xs) (map law.lower (r ∷ s ∷ ys)) (map law.lower (r ∷ ys))
          (λ p w.
            space_run u (law.lower r) (law.lower s) (map law.lower ys) p w
              (law.zero_width-lower r ∙ v) (law.lower-space r h) (law.lower-space s k))
          false false)
