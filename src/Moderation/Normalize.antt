-- ===== src/Moderation/Normalize.antt =====
-- services/moderation-service/internal/mod/normalize.go: the form of a text that the duplicate hash
-- and the word matcher read. Unicode's tables are Go's: a parameter.
pub mod Steps
pub mod Shape
pub mod Noise
use dabet.Prelude.{ℕ, Runes, Bool, true, false, ◌&&◌, ◌||◌, List, [], ◌∷◌, ◌==◌, if◌then◌else◌}

pub record Unicode : Type 0 where
  pub to_lower : Runes → Runes
  pub is_space : ℕ → Bool
  pub is_letter : ℕ → Bool
  pub is_digit : ℕ → Bool

unfoldable pub is_zero_width : ℕ → Bool
is_zero_width r =
    r == 0x200b || (r == 0x200c || (r == 0x200d || (r == 0x2060 || (r == 0xfeff || r == 0xad))))

abbrev pub blank : ℕ
blank = b' '

-- The loop over the lowercased runes, with the two flags it carries; the result is what the builder
-- receives from here on.
unfoldable pub normalize_loop : Unicode → Bool → Bool → Runes → Runes
normalize_loop u pending wrote [] = []
normalize_loop u pending wrote (r ∷ rs) = elim (is_zero_width r) [
  | true ↦ normalize_loop u pending wrote rs
  | false ↦ elim (u.is_space r) [
    | true ↦ normalize_loop u true wrote rs
    | false ↦ elim (pending && wrote) [
      | true ↦ blank ∷ r ∷ normalize_loop u false true rs
      | false ↦ r ∷ normalize_loop u false true rs
    ]
  ]
]

unfoldable pub normalize : Unicode → Runes → Runes
unfolding normalize_loop
normalize u s = normalize_loop u false false (u.to_lower s)
