-- ===== src/Examples/Texts.antt =====
-- Texts in ASCII, where lowering is left out.
use dabet.Examples.Fixtures.{ascii}
use dabet.Moderation.Normalize.{blank, is_zero_width}
use dabet.Moderation.Normalize.Shape.{IsRunewise}
use dabet.Prelude.{ap, [], ◌∷◌, true, map, false, ◌≡◌, Runes, refl}

map_same : (s : Runes) → s ≡ map (λ r. r) s
map_same [] = refl
map_same (r ∷ rs) = ap (λ l. r ∷ l) (map_same rs)

ascii-IsRunewise : IsRunewise ascii
ascii-IsRunewise = record {
  lower = λ r. r;
  to_lower-map = map_same;
  lower-lower = λ r. refl;
  lower-space = λ r h. h;
  zero_width-lower = λ r. refl;
  lower-blank = refl;
  blank-space = refl;
}

abbrev spaced : Runes
spaced = blank ∷ b'a' ∷ blank ∷ blank ∷ b'b' ∷ []

hidden : is_zero_width 0x200b ≡ true
unfolding is_zero_width
hidden = refl

visible : is_zero_width blank ≡ false
unfolding is_zero_width
visible = refl
