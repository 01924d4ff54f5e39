-- ===== src/Moderation/UsageAggregator/Lives.antt =====
-- What the events of an instance's life bill in all.
use dabet.Prelude.{if◌then◌else◌, str_eq, ◌+◌, arith, ℕ, ◌≡◌, List, [], ◌∷◌, ◌++◌, String}
use dabet.Contracts.{Usage}
use dabet.Moderation.UsageAggregator.{new_aggregator, Aggregator, inc, flush_due}
use dabet.Moderation.UsageAggregator.Windows.{Op, counts_one, flushes, life}
use dabet.Moderation.UsageAggregator.Conservation.{
  billed, counted, inc-counted, flush_due-counted, flush_all-counted,
}

-- The messages of a creator that are counted.
abbrev pub calls_of : String → List Op → ℕ
calls_of creator [] = 0
calls_of creator (counts_one c now ∷ ops) =
    (if str_eq c creator then 1 else 0) + calls_of creator ops
calls_of creator (flushes now ∷ ops) = calls_of creator ops

billed-append :
    (creator : String) (xs ys : List Usage)
    → billed creator (xs ++ ys) ≡ billed creator xs + billed creator ys
billed-append creator [] ys = omega arith
billed-append creator (x ∷ xs) ys = omega (arith, billed-append creator xs ys)

life-billed :
    (format : ℕ → String) (creator : String) (u : Aggregator) (ops : List Op)
    → billed creator (life format u ops) ≡ counted creator u + calls_of creator ops
unfolding life
life-billed format creator u [] = omega (arith, (flush_all-counted format u creator).1)
life-billed format creator u (counts_one c now ∷ ops) =
    omega (arith, life-billed format creator (inc u c now) ops, inc-counted u c creator now)
life-billed format creator u (flushes now ∷ ops) = omega (
  arith,
  billed-append creator (flush_due format u now).1 (life format (flush_due format u now).0 ops),
  life-billed format creator (flush_due format u now).0 ops,
  flush_due-counted format u creator now,
)

pub life_bills_all :
    (format : ℕ → String) (instance_id creator : String) (ops : List Op)
    → billed creator (life format (new_aggregator instance_id) ops) ≡ calls_of creator ops
unfolding new_aggregator
life_bills_all format instance_id creator ops =
    omega (arith, life-billed format creator (new_aggregator instance_id) ops)
