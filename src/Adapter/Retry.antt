-- ===== src/Adapter/Retry.antt =====
-- services/provider-adapter/internal/retry/retry.go: the delays between the attempts to reconnect, in
-- nanoseconds. Jitter is a parameter: what it makes of the delay, the product with a float in [0, 1)
-- cut to an integer.
pub mod Delays
use dabet.Prelude.{zero, ltb, ◌/◌, suc, min, if◌then◌else◌, ◌+◌, ℕ, ◌*◌}
use dabet.Prelude.Int.{ℤ, pos, pos_part, ltb_ℤ}

pub record Backoff : Type 0 where
  pub base : ℤ
  pub max_delay : ℤ
  pub attempt : ℕ

abbrev pub millisecond : ℕ
millisecond = 1000000

unfoldable pub default_backoff : Backoff
default_backoff = record {
  base = pos (500 * millisecond);
  max_delay = pos (30000 * millisecond);
  attempt = 0;
}

unfoldable pub reset : Backoff → Backoff
reset b = record b { attempt = 0 }

-- A setting, or its default where it is not positive.
abbrev pub or_default : ℤ → ℕ → ℕ
or_default d n = if ltb_ℤ (pos 0) d then pos_part d else n

unfoldable pub double_loop : ℕ → ℕ → ℕ → ℕ
double_loop zero d max_d = d
double_loop (suc n) d max_d =
    let rest = double_loop n (d * 2) max_d in if ltb d max_d then rest else d

unfoldable pub next_step : Backoff → ℕ
next_step b =
    let max_d = or_default b.max_delay (30000 * millisecond) in
    min (double_loop b.attempt (or_default b.base (500 * millisecond)) max_d) max_d

unfoldable pub next_backoff : (ℕ → ℕ) → Backoff → Backoff × ℕ
next_backoff jittered b =
    let d = next_step b in (record b { attempt = b.attempt + 1 }, d / 2 + jittered d)
