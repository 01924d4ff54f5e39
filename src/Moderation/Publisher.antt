-- ===== src/Moderation/Publisher.antt =====
-- services/moderation-service/internal/mod/publish.go: the producer's retries. The broker and the
-- caller's context are parameters: whether attempt number n is acked and how long it takes, and
-- whether the context is done after it. Times are nanoseconds.
use dabet.Prelude.{
  zero, false, ◌||◌, true, some, suc, ◌*◌, none, ltb, ◌+◌, if◌then◌else◌, Option, ℕ, Bool,
}
pub mod Retries

pub record Publisher : Type 0 where
  pub max_elapsed : ℕ
  pub base_delay : ℕ
  pub max_delay : ℕ

unfoldable pub new_publisher : ℕ → Publisher
new_publisher max_elapsed = record {
  max_elapsed = max_elapsed;
  base_delay = 100000000;
  max_delay = 5000000000;
}

pub record Broker : Type 0 where
  pub acks : ℕ → Bool
  pub took : ℕ → ℕ
  pub cancelled : ℕ → Bool

-- What a call leaves behind: the result, the attempts, the calls of `onFailOpen`, and when it ended.
pub record Published : Type 0 where
  pub acked : Bool
  pub attempts : ℕ
  pub fail_opens : ℕ
  pub ended_at : ℕ

unfoldable pub next_delay : Publisher → ℕ → ℕ
next_delay p delay = if ltb p.max_delay (delay * 2) then p.max_delay else delay * 2

-- The loop, from attempt `n` at time `now`; out of fuel is none.
unfoldable pub publish_loop : Publisher → Broker → ℕ → ℕ → ℕ → ℕ → ℕ → Option Published
unfolding next_delay
publish_loop p b deadline zero n now delay = none
publish_loop p b deadline (suc fuel) n now delay =
    let after = now + b.took n in
    let rest = publish_loop p b deadline fuel (suc n) (after + delay) (next_delay p delay) in
    if b.acks n
    then some (record { acked = true; attempts = suc n; fail_opens = 0; ended_at = after })
    else if b.cancelled n || ltb deadline (after + delay)
    then some (record { acked = false; attempts = suc n; fail_opens = 1; ended_at = after })
    else rest

-- Every retry moves the clock by at least one nanosecond, so the budget bounds the retries.
unfoldable pub publish : Publisher → Broker → ℕ → Option Published
unfolding publish_loop
publish p b now =
    publish_loop p b (now + p.max_elapsed) (suc (suc p.max_elapsed)) 0 now p.base_delay
