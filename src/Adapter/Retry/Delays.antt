-- ===== src/Adapter/Retry/Delays.antt =====
-- The delays of retry.go of services/provider-adapter/internal/retry in closed form.
use dabet.Prelude.{
  sym, ◌∙◌, if◌then◌else◌, refl, inr, inl, ltb, zero, Bool-cases, suc, ◌+◌, arith, ap, ◌/◌, ◌≡◌,
  ◌^◌, ◌*◌, ◌≤◌, min, ◌<◌, ℕ,
}
use native.Mathlib.Nat.{pow-zero, pow-succ', mul_assoc, le-mul_of_pos_right}
use dabet.Adapter.Retry.{Backoff, next_backoff, next_step, double_loop, or_default, millisecond}

pow-positive : (n : ℕ) → 0 < 2 ^ n
pow-positive zero = omega (arith, pow-zero 2)
pow-positive (suc n) = omega (arith, pow-positive n, pow-succ' 2 n)

double_loop-min : (n d max_d : ℕ) → min (double_loop n d max_d) max_d ≡ min (d * 2 ^ n) max_d
unfolding double_loop
double_loop-min zero d max_d = ap (λ p. min p max_d) (omega (arith, ap (λ p. d * p) (pow-zero 2)))
double_loop-min (suc n) d max_d = elim (Bool-cases (ltb d max_d)) [
  | inl below ↦
      ap (λ t. min (if t then double_loop n (d * 2) max_d else d) max_d) below
      ∙ double_loop-min n (d * 2) max_d
      ∙ ap (λ p. min p max_d) (mul_assoc d 2 (2 ^ n) ∙ ap (λ p. d * p) (sym (pow-succ' 2 n)))
  | inr capped ↦
      let large : max_d ≤ d = ground (arith, capped) in
      ap (λ t. min (if t then double_loop n (d * 2) max_d else d) max_d) capped
      ∙ omega (arith, le-mul_of_pos_right {m = 2 ^ suc n} d (pow-positive (suc n)))
]

-- Each delay lies between a half and one and a half of the step, which is the base doubled for each
-- attempt so far, up to the maximum: where the jitter of a step is at most the step.
pub next_backoff-IsJittered :
    (jittered : ℕ → ℕ) (b : Backoff)
    → ((d : ℕ) → jittered d ≤ d)
    → (let step =
          min
            (or_default b.base (500 * millisecond) * 2 ^ b.attempt)
            (or_default b.max_delay (30000 * millisecond)) in
        (step / 2 ≤ (next_backoff jittered b).1) × ((next_backoff jittered b).1 ≤ step / 2 + step))
      × ((next_backoff jittered b).0.attempt ≡ b.attempt + 1)
unfolding next_backoff next_step
next_backoff-IsJittered jittered b h =
    let step≡ =
      double_loop-min b.attempt (or_default b.base (500 * millisecond))
        (or_default b.max_delay (30000 * millisecond)) in
    let small = h (next_step b) in
    ((omega (arith, step≡, small), omega (arith, step≡, small)), refl)
