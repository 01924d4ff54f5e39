-- ===== src/Examples/Pipelines.antt =====
-- One message through the cascade.
use dabet.Moderation.Normalize.{is_zero_width}
use dabet.Moderation.Pipeline.Gate.{use_redis}
use dabet.Moderation.Pipeline.Stages.{
  seen_stage, credits_stage, policy_stage, merged_stage, semantic_stage, words_stage, flag,
}
use dabet.Moderation.Match.{match_runes, new_matcher}
use dabet.Moderation.Pipeline.State.{Answers}
use dabet.Moderation.Batcher.Conservation.{carried_one, waiting}
use dabet.Moderation.Pipeline.Outcomes.{process_one_outcome}
use dabet.Moderation.Pipeline.Billing.{process_usage, billed, redelivered}
use dabet.Moderation.Pipeline.Token.{process_token}
use dabet.Moderation.Pipeline.Accounting.{is_flagged_outcome, is_outcome}
use dabet.Examples.Fixtures.{bad, rules, open_breaker, pipe, hello, ascii, answers, config, whole}
use dabet.Moderation.Pipeline.Outage.{process_outage, is_redis_call, Denied}
use dabet.Moderation.Pipeline.Cascade.{detectors, moderate, cascade, process}
use dabet.Moderation.Breaker.{allow}
use dabet.Prelude.{[], ◌∷◌, some, ◌+◌, if◌then◌else◌, false, ◌≡◌, count, true, refl}

process_one_outcome_example :
    (let r = process whole config ascii true answers hello (pipe open_breaker) in
      count is_outcome r.trace + waiting r.pipe.batcher + carried_one r.batch
      ≡ waiting (pipe open_breaker).batcher + 1)
process_one_outcome_example =
    process_one_outcome whole config ascii true answers hello (pipe open_breaker)

process_usage_example :
    (process whole config ascii true answers hello (pipe open_breaker)).pipe.usage ≡ (
      if redelivered config true answers hello (pipe open_breaker)
      then (pipe open_breaker).usage
      else billed answers hello (pipe open_breaker).usage)
process_usage_example = process_usage whole config ascii true answers hello (pipe open_breaker)

process_token_example :
    (process whole config ascii true answers hello (pipe open_breaker)).pipe.breaker.probing ≡ false
process_token_example = process_token whole config ascii true answers hello (pipe open_breaker)

denied : Denied true answers (pipe open_breaker)
unfolding allow
denied _ = refl

process_outage_example :
    (let r = process whole config ascii true answers hello (pipe open_breaker) in
      (count is_redis_call r.trace ≡ 0) × (r.pipe.breaker ≡ open_breaker))
process_outage_example =
    process_outage whole config ascii true answers hello (pipe open_breaker) denied

abbrev matched : Answers whole
matched = record answers {
  policy = λ creator content.
      some (record { policy = some rules; matcher = some (new_matcher ascii (bad ∷ [])) });
}

-- Restricted words are found while Redis is down.
outage_flagged :
    count is_flagged_outcome
      (process whole config ascii true matched hello (pipe open_breaker)).trace
    ≡ 1
unfolding process new_matcher match_runes flag words_stage semantic_stage merged_stage policy_stage
    credits_stage cascade moderate detectors seen_stage use_redis allow is_zero_width
outage_flagged = refl
