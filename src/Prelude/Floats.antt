-- ===== src/Prelude/Floats.antt =====
-- Go's float64, which is not code of this repository: a type with its operations, and what the code
-- relies on. The type stands for the values that are no NaN.
use dabet.Prelude.{ℕ, ◌≡◌, Bool, true, false}

pub record Floats : Type 1 where
  pub Float : Type 0
  pub of_ℕ : ℕ → Float
  pub add : Float → Float → Float
  pub sub : Float → Float → Float
  pub mul : Float → Float → Float
  pub div : Float → Float → Float
  pub sqrt : Float → Float
  pub le : Float → Float → Bool
  pub lt : Float → Float → Bool
  pub seconds : ℕ → Float  -- Duration.Seconds of a number of nanoseconds

-- The order of float64, and the monotony of the operations that the token buckets use.
pub record IsOrdered (f : Floats) : Type 0 where
  pub le_refl : (a : f.Float) → f.le a a ≡ true
  pub le_trans : (a b c : f.Float) → f.le a b ≡ true → f.le b c ≡ true → f.le a c ≡ true
  pub le_of_not_lt : (a b : f.Float) → f.lt a b ≡ false → f.le b a ≡ true
  pub le_of_lt : (a b : f.Float) → f.lt a b ≡ true → f.le a b ≡ true
  pub add-nonneg :
      (a b : f.Float)
      → f.le (f.of_ℕ 0) a ≡ true
      → f.le (f.of_ℕ 0) b ≡ true
      → f.le (f.of_ℕ 0) (f.add a b) ≡ true
  pub mul-nonneg :
      (a b : f.Float)
      → f.le (f.of_ℕ 0) a ≡ true
      → f.le (f.of_ℕ 0) b ≡ true
      → f.le (f.of_ℕ 0) (f.mul a b) ≡ true
  pub seconds-nonneg : (d : ℕ) → f.le (f.of_ℕ 0) (f.seconds d) ≡ true
  pub sub_one-nonneg :
      (a : f.Float) → f.le (f.of_ℕ 1) a ≡ true → f.le (f.of_ℕ 0) (f.sub a (f.of_ℕ 1)) ≡ true
  pub sub_one-le : (a : f.Float) → f.le (f.sub a (f.of_ℕ 1)) a ≡ true
