-- ===== src/Moderation/Breaker.antt =====
-- services/moderation-service/internal/mod/breaker.go: the circuit breaker shared by the
-- Redis-backed stages. Times and durations are nanoseconds; a method that locks `mu` for its whole
-- body is one function, so an interleaving of callers is a sequence of calls.
pub mod Backoff
pub mod Invariant
pub mod Probe
use dabet.Prelude.{
  ℕ, zero, suc, ◌+◌, ◌-◌, ◌*◌, Bool, true, false, not, ◌&&◌, ◌||◌, Option, none, some, ltb, leb,
  if◌then◌else◌,
}
use dabet.Prelude.Int.{ℤ, pos, ltb_ℤ, pos_part}

pub record Breaker : Type 0 where
  pub threshold : ℕ
  pub cooldown : ℕ
  pub max_cooldown : ℕ
  pub failures : ℕ
  pub is_open : Bool
  pub open_until : ℕ
  pub probing : Bool
  pub trips : ℕ
  pub closed_at : Option ℕ  -- none is the zero time

-- The settings come from the environment and may be negative. A clamped duration is a natural
-- number; 500 ms is the default of a cooldown that is not positive.
abbrev pub default_cooldown : ℕ
default_cooldown = 500000000

unfoldable pub new_breaker : ℤ → ℤ → ℤ → Breaker
new_breaker threshold cooldown max_cooldown =
    let threshold' = if ltb_ℤ threshold (pos 1) then pos 1 else threshold in
    let cooldown' = if ltb_ℤ (pos 0) cooldown then cooldown else pos default_cooldown in
    let max_cooldown' = if ltb_ℤ max_cooldown cooldown' then cooldown' else max_cooldown in
    record {
      threshold = pos_part threshold';
      cooldown = pos_part cooldown';
      max_cooldown = pos_part max_cooldown';
      failures = 0;
      is_open = false;
      open_until = 0;
      probing = false;
      trips = 0;
      closed_at = none;
    }

-- The verdict of `Allow`: the two results of the method.
pub record Permit : Type 0 where
  pub allowed : Bool
  pub probe : Bool

unfoldable pub allow : Breaker → ℕ → Breaker × Permit
allow b now =
    if not b.is_open
    then (b, record { allowed = true; probe = false })
    else if ltb now b.open_until || b.probing
    then (b, record { allowed = false; probe = false })
    else (record b { probing = true }, record { allowed = true; probe = true })

-- `for i := 1; i < trips; i++`, on the number of rounds that are left.
unfoldable pub backoff_loop : ℕ → ℕ → ℕ → ℕ
backoff_loop zero max d = d
backoff_loop (suc rounds) max d =
    let rest = backoff_loop rounds max (d * 2) in if leb max d then d else rest

unfoldable pub backoff : Breaker → ℕ
backoff b =
    let d = backoff_loop (b.trips - 1) b.max_cooldown b.cooldown in
    if ltb b.max_cooldown d then b.max_cooldown else d

unfoldable pub trip : Breaker → ℕ → Breaker
trip b now =
    let b' = record b { trips = b.trips + 1; is_open = true } in
    record b' { open_until = now + backoff b'; closed_at = none }

-- The probe that succeeds closes the breaker.
close_probe : Breaker → ℕ → Bool → Breaker
close_probe b now probe =
    if probe
    then (if b.is_open
        then record b { probing = false; is_open = false; closed_at = some now }
        else record b { probing = false })
    else b

-- The ladder of cooldowns starts again after a healthy stretch.
decay_ladder : Breaker → ℕ → Breaker
decay_ladder b now = elim b.closed_at [
  | none ↦ b
  | some at ↦
      if not b.is_open && leb (at + b.max_cooldown) now
      then record b { trips = 0; closed_at = none }
      else b
]

unfoldable pub succeed : Breaker → ℕ → Bool → Breaker
unfolding close_probe decay_ladder
succeed b now probe = decay_ladder (record (close_probe b now probe) { failures = 0 }) now

unfoldable pub fail : Breaker → ℕ → Bool → Breaker
fail b now probe =
    if probe
    then trip (record b { probing = false }) now
    else if b.is_open
    then b
    else if leb b.threshold (b.failures + 1)
    then trip (record b { failures = 0 }) now
    else record b { failures = b.failures + 1 }
