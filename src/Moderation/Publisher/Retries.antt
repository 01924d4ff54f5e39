-- ===== src/Moderation/Publisher/Retries.antt =====
-- The retries end, and only an event that no attempt delivered is dropped.
use dabet.Prelude.{
  zero, ltb, ◌||◌, true, ==_iff, inl, ◌==◌, Bool-cases, some, arith, suc, if◌then◌else◌, ◌+◌, ◌≤◌,
  false, ◌-◌, ◌≡◌, ◌<◌, ℕ,
}
use dabet.Moderation.Publisher.{
  new_publisher, publish, next_delay, publish_loop, Published, Publisher, Broker,
}
use mathlib.Core.Path.{subst}
use dabet.Prelude.{inl, inr}

-- A result that the broker's answers from attempt `first` on account for.
pub record IsOutcome (b : Broker) (first : ℕ) (r : Published) : Type 0 where
  pub some_attempt : first < r.attempts
  pub last_attempt : b.acks (r.attempts - 1) ≡ r.acked
  pub earlier_failed : (i : ℕ) → first ≤ i → i < r.attempts - 1 → b.acks i ≡ false
  pub dropped_once : r.fail_opens ≡ (if r.acked then 0 else 1)

IsOutcome-widen :
    (b : Broker) (n : ℕ) (r : Published)
    → b.acks n ≡ false
    → IsOutcome b (suc n) r
    → IsOutcome b n r
IsOutcome-widen b n r failed o = record {
  some_attempt = omega (arith, o.some_attempt);
  last_attempt = o.last_attempt;
  earlier_failed = λ i low high. elim (Bool-cases (n == i)) [
    | inl same ↦ subst (λ k. b.acks k ≡ false) ((==_iff n i).0 same) failed
    | inr other ↦ o.earlier_failed i (ground (arith, ==_iff n i)) high
  ];
  dropped_once = o.dropped_once;
}

module _ (p : Publisher) (b : Broker) (deadline : ℕ) where
  -- On more fuel than there is time left, the loop returns.
  publish_loop-IsOutcome :
      (fuel n now delay : ℕ)
      → 1 ≤ p.max_delay
      → 1 ≤ delay
      → now ≤ deadline
      → deadline + 1 < now + fuel
      → (r : Published) × ((publish_loop p b deadline fuel n now delay ≡ some r) × IsOutcome b n r)
  unfolding publish_loop next_delay
  publish_loop-IsOutcome zero n now delay m d early left = absurd (omega arith)
  publish_loop-IsOutcome (suc fuel) n now delay m d early left = elim (Bool-cases (b.acks n)) [
    | inl acked ↦ (
      record { acked = true; attempts = suc n; fail_opens = 0; ended_at = now + b.took n },
      (ground arith, ground arith),
    )
    | inr failed ↦ elim (Bool-cases (b.cancelled n || ltb deadline (now + b.took n + delay))) [
      | inl over ↦ (
        record { acked = false; attempts = suc n; fail_opens = 1; ended_at = now + b.took n },
        (ground arith, ground arith),
      )
      | inr again ↦
          let (r, (e, o)) =
            publish_loop-IsOutcome fuel (suc n) (now + b.took n + delay) (next_delay p delay) m
              (ground arith) (ground arith) (ground arith) in
          (r, (ground arith, IsOutcome-widen b n r failed o))
    ]
  ]

-- Publish returns for every broker, also one that never acks: true after the first attempt that is
-- acked, and false, with one call of `onFailOpen`, when no attempt was.
pub publish_returns :
    (max_elapsed : ℕ) (b : Broker) (now : ℕ)
    → (r : Published) × ((publish (new_publisher max_elapsed) b now ≡ some r) × IsOutcome b 0 r)
unfolding publish new_publisher
publish_returns max_elapsed b now =
    publish_loop-IsOutcome (new_publisher max_elapsed) b (now + max_elapsed) (suc (suc max_elapsed))
      0 now 100000000 (omega arith) (omega arith) (omega arith) (omega arith)
