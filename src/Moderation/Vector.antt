-- ===== src/Moderation/Vector.antt =====
-- services/moderation-service/internal/mod/vector.go and the comparison of redisstate.go: the cosine
-- of two embeddings, and the largest over the window of an author. Floats are a parameter.
use dabet.Prelude.{◌&&◌, Bool, ◌||◌, List, [], ◌∷◌, length, not, ◌==◌, if◌then◌else◌}
use dabet.Prelude.Floats.{Floats}

abbrev pub Vec : Floats → Type 0
Vec f = List f.Float

-- The three sums of the loop.
pub record Sums (f : Floats) : Type 0 where
  pub dot : f.Float
  pub na : f.Float
  pub nb : f.Float

module _ (f : Floats) where
  unfoldable pub cosine_loop : Sums f → Vec f → Vec f → Sums f
  cosine_loop s [] b = s
  cosine_loop s (x ∷ a) [] = s
  cosine_loop s (x ∷ a) (y ∷ b) =
      cosine_loop
        (record {
          dot = f.add s.dot (f.mul x y);
          na = f.add s.na (f.mul x x);
          nb = f.add s.nb (f.mul y y);
        })
        a b

  abbrev pub is_zero : f.Float → Bool
  is_zero x = f.le x (f.of_ℕ 0) && f.le (f.of_ℕ 0) x

  unfoldable pub cosine : Vec f → Vec f → f.Float
  unfolding cosine_loop
  cosine a b =
      let zeros : Sums f = record { dot = f.of_ℕ 0; na = f.of_ℕ 0; nb = f.of_ℕ 0 } in
      let s = cosine_loop zeros a b in
      if not (length a == length b) || length a == 0
      then f.of_ℕ 0
      else if is_zero s.na || is_zero s.nb
      then f.of_ℕ 0
      else f.div s.dot (f.mul (f.sqrt s.na) (f.sqrt s.nb))

  unfoldable pub max_similarity_loop : f.Float → Vec f → List (Vec f) → f.Float
  max_similarity_loop best vec [] = best
  max_similarity_loop best vec (prev ∷ window) =
      let c = cosine vec prev in max_similarity_loop (if f.lt best c then c else best) vec window

  unfoldable pub max_similarity : Vec f → List (Vec f) → f.Float
  unfolding max_similarity_loop
  max_similarity vec window = max_similarity_loop (f.of_ℕ 0) vec window
