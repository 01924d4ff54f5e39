-- ===== src/Moderation/Match/Examples.antt =====
-- Runs of the automaton.
use dabet.Prelude.{◌≡◌, refl, Runes, List, [], ◌∷◌, leb, ◌==◌, true, false}
use dabet.Moderation.Normalize.{is_zero_width, Unicode}
use dabet.Moderation.Match.{new_matcher, match_runes}

-- "ass" and "bad egg" as restricted phrases; letters are runes from 'a' on.
abbrev ascii : Unicode
ascii = record {
  to_lower = λ s. s;
  is_space = λ r. r == b' ';
  is_letter = λ r. leb b'a' r;
  is_digit = λ r. false;
}

abbrev phrases : List Runes
phrases = (b'a' ∷ b's' ∷ b's' ∷ []) ∷ (b'b' ∷ b'a' ∷ b'd' ∷ b' ' ∷ b'e' ∷ b'g' ∷ b'g' ∷ []) ∷ []

whole_word :
    match_runes ascii (new_matcher ascii phrases) (b'a' ∷ b'n' ∷ b' ' ∷ b'a' ∷ b's' ∷ b's' ∷ [])
    ≡ true
unfolding match_runes new_matcher is_zero_width
whole_word = refl

inner_word :
    match_runes ascii (new_matcher ascii phrases) (b'c' ∷ b'l' ∷ b'a' ∷ b's' ∷ b's' ∷ []) ≡ false
unfolding match_runes new_matcher is_zero_width
inner_word = refl

fallen_back :
    match_runes ascii
      (new_matcher ascii phrases)
      (b'b' ∷ b'a' ∷ b'd' ∷ b' ' ∷ b'a' ∷ b's' ∷ b's' ∷ b' ' ∷ b'b' ∷ [])
    ≡ true
unfolding match_runes new_matcher is_zero_width
fallen_back = refl
