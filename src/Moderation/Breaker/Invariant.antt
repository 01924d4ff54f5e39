-- ===== src/Moderation/Breaker/Invariant.antt =====
-- What holds of the breaker's fields between two calls.
use dabet.Prelude.{ℕ, ◌≤◌, ◌<◌, ◌≡◌, Bool, true, List, [], ◌∷◌, none, arith}
use dabet.Prelude.Int.{ℤ}
use dabet.Moderation.Breaker.{Breaker, new_breaker, allow, trip, succeed, fail}

pub record IsValid (b : Breaker) : Type 0 where
  pub threshold_pos : 1 ≤ b.threshold
  pub cooldown_pos : 1 ≤ b.cooldown
  pub cooldown_capped : b.cooldown ≤ b.max_cooldown
  pub failures_below : b.failures < b.threshold
  pub probing_open : b.probing ≡ true → b.is_open ≡ true
  pub open_tripped : b.is_open ≡ true → 1 ≤ b.trips
  pub open_not_closed : b.is_open ≡ true → b.closed_at ≡ none

-- Whatever the settings are, a new breaker is valid: a bad value is clamped.
pub new_breaker-IsValid :
    (threshold cooldown max_cooldown : ℤ) → IsValid (new_breaker threshold cooldown max_cooldown)
unfolding new_breaker
new_breaker-IsValid t c m = ground arith

-- The calls of the breaker's users.
pub data Call : Type 0 where
  allows : ℕ → Call
  succeeds fails : ℕ → Bool → Call

unfoldable pub step : Breaker → Call → Breaker
step b (allows now) = (allow b now).0
step b (succeeds now probe) = succeed b now probe
step b (fails now probe) = fail b now probe

unfoldable pub run : Breaker → List Call → Breaker
run b [] = b
run b (c ∷ cs) = run (step b c) cs

-- Every call keeps the breaker valid, also one whose caller reports what it does not hold.
pub step-IsValid : (b : Breaker) (c : Call) → IsValid b → IsValid (step b c)
unfolding step allow succeed fail trip
step-IsValid b (allows now) v = ground arith
step-IsValid b (succeeds now probe) v = ground arith
step-IsValid b (fails now probe) v = ground arith

-- Every sequence of calls keeps the breaker valid.
pub run-IsValid : (b : Breaker) (cs : List Call) → IsValid b → IsValid (run b cs)
unfolding run
run-IsValid b [] v = v
run-IsValid b (c ∷ cs) v = run-IsValid (step b c) cs (step-IsValid b c v)
