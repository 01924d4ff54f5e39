-- ===== src/Examples/Batches.antt =====
-- Batches that fill and fall due, and the usage of a creator.
use dabet.Prelude.Dict.{string_eq}
use dabet.Prelude.Int.{pos}
use dabet.Examples.Fixtures.{rules, full_batch, hello}
use dabet.Moderation.UsageAggregator.Windows.{
  flushes, life-Distinct, counts_one, life, Op, Distinct,
}
use dabet.Moderation.Batcher.{new_batcher, add, Batcher}
use dabet.Moderation.UsageAggregator.{
  new_aggregator, inc, Aggregator, flush_due, flush_all, split_due,
}
use dabet.Contracts.{Usage}
use dabet.Moderation.UsageAggregator.Lives.{life_bills_all}
use dabet.Moderation.UsageAggregator.Conservation.{billed}
use dabet.Prelude.{map, [], arith, ◌∷◌, some, ◌≡◌, String, ℕ, List, refl}

abbrev ones : Batcher
ones = new_batcher (pos 1) (pos 100)

abbrev one_waits : Batcher
one_waits = (add (new_batcher (pos 3) (pos 100)) hello rules 5).0

full_at_once : (add ones hello rules 5).1 ≡ some full_batch
unfolding add new_batcher
full_at_once = refl

abbrev minute : ℕ
minute = 60000000000

abbrev stamp : ℕ → String
stamp t = "t"

abbrev busy : Aggregator
busy = inc (inc (new_aggregator "i1") "k1" 5) "k2" minute

abbrev ops : List Op
ops = counts_one "k1" 5 ∷ counts_one "k1" 6 ∷ flushes minute ∷ counts_one "k1" minute ∷ []

life-Distinct_example : Distinct (life stamp (new_aggregator "i1") ops)
life-Distinct_example = life-Distinct stamp "i1" ops (omega arith, (omega arith, (omega arith, tt)))

-- A message whose time was read in the first minute is counted after the flush of that minute: two
-- events bill that minute.
abbrev race : List Op
race = counts_one "k1" 5 ∷ flushes minute ∷ counts_one "k1" 6 ∷ []

billed_twice :
    map (λ (ev : Usage). ev.window_start) (life stamp (new_aggregator "i1") race) ≡ 0 ∷ 0 ∷ []
unfolding life flush_due flush_all inc new_aggregator split_due
billed_twice = refl

life_bills_all_example : billed "k1" (life stamp (new_aggregator "i1") race) ≡ 2
life_bills_all_example = life_bills_all stamp "i1" "k1" race
