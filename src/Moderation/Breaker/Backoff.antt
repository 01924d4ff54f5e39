-- ===== src/Moderation/Breaker/Backoff.antt =====
-- The open window of a trip: the cooldown doubled once per consecutive trip, up to its cap.
use native.Mathlib.Nat.{pow-suc}
use dabet.Prelude.{
  ℕ, zero, suc, ◌+◌, ◌-◌, ◌*◌, ◌^◌, ◌≤◌, ◌<◌, min, ◌≡◌, true, false, arith, leb, leb→le, Bool-cases,
  inl, inr,
}
use dabet.Moderation.Breaker.{Breaker, backoff_loop, backoff, trip, allow}

pow_pos : (n : ℕ) → 1 ≤ 2 ^ n
pow_pos zero = omega arith
pow_pos (suc n) = rw pow-suc (omega (arith, pow_pos n))

-- The doubled duration never falls below the one before it.
le-shift : (d n : ℕ) → d ≤ d * 2 ^ n
le-shift d n = grind (arith, pow_pos n)

backoff_loop-min :
    (rounds max d : ℕ) → min max (backoff_loop rounds max d) ≡ min max (d * 2 ^ rounds)
unfolding backoff_loop
backoff_loop-min zero max d = omega arith
backoff_loop-min (suc rounds) max d = elim (Bool-cases (leb max d)) [
  | inl reached ↦ rw reached (omega (arith, leb→le max d reached, le-shift d (suc rounds)))
  | inr below ↦ rw (below, pow-suc 2 rounds) (omega (arith, backoff_loop-min rounds max (d * 2)))
]

-- The wait of a breaker with `trips` consecutive trips is the cooldown times 2 ^ (trips - 1), and
-- the cap where that is more.
pub backoff-min : (b : Breaker) → backoff b ≡ min b.max_cooldown (b.cooldown * 2 ^ (b.trips - 1))
unfolding backoff
backoff-min b = ground (arith, backoff_loop-min (b.trips - 1) b.max_cooldown b.cooldown)

-- So no wait is shorter than the cooldown or longer than the cap.
pub backoff_bounds :
    (b : Breaker)
    → b.cooldown ≤ b.max_cooldown
    → (b.cooldown ≤ backoff b) × (backoff b ≤ b.max_cooldown)
backoff_bounds b h = omega (arith, backoff-min b, le-shift b.cooldown (b.trips - 1))

-- A breaker whose cooldown is at most its cap lets nobody through before a cooldown has passed since
-- it tripped.
pub trip-allow :
    (b : Breaker) (now later : ℕ)
    → b.cooldown ≤ b.max_cooldown
    → later < now + b.cooldown
    → (allow (trip b now) later).1.allowed ≡ false
unfolding trip allow
trip-allow b now later h early =
    ground (arith, backoff_bounds (record b { trips = b.trips + 1; is_open = true }) h)
