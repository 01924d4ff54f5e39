-- ===== src/Moderation/Normalize/Steps.antt =====
-- The loop of Normalize, one rune at a time; the other proofs keep it shut.
use dabet.Prelude.{ℕ, Runes, ◌≡◌, Bool, true, false, ◌&&◌, not, ◌∷◌, arith, if◌then◌else◌}
use dabet.Moderation.Normalize.{Unicode, is_zero_width, blank, normalize_loop}

-- A rune that the loop copies.
abbrev pub is_ink : Unicode → ℕ → Bool
is_ink u r = not (is_zero_width r) && not (u.is_space r)

module _ (u : Unicode) (p w : Bool) (r : ℕ) (rs : Runes) where
  pub loop_hidden : is_zero_width r ≡ true → normalize_loop u p w (r ∷ rs) ≡ normalize_loop u p w rs
  unfolding normalize_loop
  loop_hidden h = ground arith

  pub loop_space :
      is_zero_width r ≡ false
      → u.is_space r ≡ true
      → normalize_loop u p w (r ∷ rs) ≡ normalize_loop u true w rs
  unfolding normalize_loop
  loop_space h k = ground arith

  pub loop_ink :
      is_ink u r ≡ true
      → normalize_loop u p w (r ∷ rs) ≡ (
          if p && w
          then blank ∷ r ∷ normalize_loop u false true rs
          else r ∷ normalize_loop u false true rs)
  unfolding normalize_loop
  loop_ink h = ground arith
