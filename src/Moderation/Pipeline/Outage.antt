-- ===== src/Moderation/Pipeline/Outage.antt =====
-- A Redis that may not be used: the breaker denies the message, or there is no client.
use dabet.Moderation.Vector.{Vec}
use dabet.Moderation.Match.{Matcher}
use dabet.Moderation.Pipeline.Gate.{use_redis}
use dabet.Moderation.Pipeline.Stages.{
  flag, compare_if, words_stage, semantic_stage, seen_stage, sampler_stage, policy_stage,
  merged_stage, embed_stage, credits_stage, content_stage,
}
use dabet.Moderation.Normalize.{normalize, Unicode}
use dabet.Prelude.Floats.{Floats}
use dabet.Prelude.{List, none, Option, some, arith, count, Runes, false, ◌≡◌, true, Bool}
use dabet.Moderation.Breaker.{Breaker, allow}
use dabet.Moderation.Pipeline.State.{
  allow_site, Config, Answers, Pipe, Run, start, M, redis_call, Effect,
}
use dabet.Moderation.Pipeline.Cascade.{cascade, process, moderate, detectors, CachedPair}
use dabet.Moderation.Pipeline.Rules.{Preserves, >>=-Preserves, preserve_step, pass-Preserves}
use dabet.Contracts.{ResolvedPolicy, Message}

abbrev pub is_redis_call : Effect → Bool
is_redis_call (redis_call c) = true
is_redis_call _ = false

-- The message has no client, or the breaker denies it.
abbrev pub Denied : {f : Floats} → Bool → Answers f → Pipe f → Type 0
Denied has_state env p =
    (has_state ≡ true) → (allow p.breaker (env.clock allow_site)).1.allowed ≡ false

-- Between the stages of such a message.
pub record Dark {f : Floats} (has_state : Bool) (b : Breaker) (r : Run f) : Type 0 where
  pub denied : has_state ≡ true → (r.decided ≡ true) × (r.allowed ≡ false)
  pub no_call : count is_redis_call r.trace ≡ 0
  pub same_breaker : r.pipe.breaker ≡ b

module _ (f : Floats) (cfg : Config f) (u : Unicode) (has_state : Bool) (env : Answers f)
    (msg : Message) where
  use_redis_first :
      (p : Pipe f)
      → Denied has_state env p
      → Dark has_state p.breaker (use_redis has_state env (start p)).0
        × ((use_redis has_state env (start p)).1 ≡ false)
  unfolding use_redis allow
  use_redis_first p h = ground arith

  seen_stage-Dark :
      (p : Pipe f)
      → Denied has_state env p
      → Dark has_state p.breaker (seen_stage f cfg has_state env msg (start p)).0
        × ((seen_stage f cfg has_state env msg (start p)).1 ≡ some tt)
  unfolding seen_stage
  seen_stage-Dark p h = ground (arith, use_redis_first p h)

module _ (f : Floats) (cfg : Config f) (u : Unicode) (has_state : Bool) (env : Answers f)
    (msg : Message) (b : Breaker) where
  use_redis-Dark :
      (r : Run f)
      → Dark has_state b r
      → Dark has_state b (use_redis has_state env r).0 × ((use_redis has_state env r).1 ≡ false)
  unfolding use_redis
  use_redis-Dark r d = ground arith

  abbrev Keeps : {A : Type 0} → M f A → Type 0
  Keeps m = Preserves f (Dark has_state b) m

  -- Without Redis the merged call is skipped, and no window is read.
  merged_stage-Dark :
      (pol : ResolvedPolicy) (norm : Runes) (r : Run f)
      → Dark has_state b r
      → Dark has_state b (merged_stage f cfg has_state env msg pol norm r).0
        × ((merged_stage f cfg has_state env msg pol norm r).1 ≡ some none)
  unfolding merged_stage
  merged_stage-Dark pol norm r d = ground (arith, use_redis-Dark r d)

  embed_stage-Dark :
      (norm : Runes) (r : Run f)
      → Dark has_state b r
      → Dark has_state b (embed_stage f cfg has_state env msg norm r).0
        × ((embed_stage f cfg has_state env msg norm r).1 ≡ some none)
  unfolding embed_stage
  embed_stage-Dark norm r d = ground (arith, use_redis-Dark r d)

  semantic_stage-Dark :
      (pol : ResolvedPolicy) (norm : Runes) (o : Option (List (Vec f)))
      → Keeps (semantic_stage f cfg has_state env msg pol norm o)
  unfolding semantic_stage compare_if
  semantic_stage-Dark pol norm none = record { keeps = λ r d. d }
  semantic_stage-Dark pol norm (some window) = record {
    keeps = λ r d. ground (arith, embed_stage-Dark norm r d);
  }

  words_stage-Dark :
      (pol : ResolvedPolicy) (norm : Runes) (m : Option Matcher)
      → Keeps (words_stage f cfg has_state env msg u pol norm m)
  unfolding words_stage flag
  words_stage-Dark pol norm none = record { keeps = λ r d. d }
  words_stage-Dark pol norm (some m) = record { keeps = λ r d. ground arith }

  content_stage-Dark : (pol : ResolvedPolicy) → Keeps (content_stage f cfg has_state env msg pol)
  unfolding content_stage
  content_stage-Dark pol = record { keeps = λ r d. ground arith }

  sampler_stage-Dark : Keeps (sampler_stage f cfg has_state env msg)
  unfolding sampler_stage
  sampler_stage-Dark = record { keeps = λ r d. ground (arith, use_redis-Dark r d) }

  policy_stage-Dark : Keeps (policy_stage f cfg has_state env msg)
  unfolding policy_stage
  policy_stage-Dark = record { keeps = λ r d. ground arith }

  credits_stage-Dark : Keeps (credits_stage f cfg has_state env msg)
  unfolding credits_stage
  credits_stage-Dark = record { keeps = λ r d. ground arith }

  merged_stage-Keeps :
      (pol : ResolvedPolicy) (norm : Runes) → Keeps (merged_stage f cfg has_state env msg pol norm)
  merged_stage-Keeps pol norm = record { keeps = λ r d. (merged_stage-Dark pol norm r d).0 }

  detectors-Dark : (pm : CachedPair) → Keeps (detectors f cfg u has_state env msg pm)
  unfolding detectors
  detectors-Dark pm = >>=-Preserves (merged_stage-Keeps pm.0 norm) λ window.
      >>=-Preserves (semantic_stage-Dark pm.0 norm window) λ _.
        >>=-Preserves (words_stage-Dark pm.0 norm pm.1)
          λ _. >>=-Preserves (content_stage-Dark pm.0) λ _. sampler_stage-Dark
    where
      norm : Runes
      norm = normalize u msg.text

  moderate-Dark : Keeps (moderate f cfg u has_state env msg)
  unfolding moderate
  moderate-Dark = >>=-Preserves policy_stage-Dark λ pm.
      >>=-Preserves credits_stage-Dark
        λ _. >>=-Preserves (detectors-Dark pm) λ _. pass-Preserves pm.0

module _ (f : Floats) (cfg : Config f) (u : Unicode) (has_state : Bool) (env : Answers f)
    (msg : Message) where
  cascade-Dark :
      (p : Pipe f)
      → Denied has_state env p
      → Dark has_state p.breaker (cascade f cfg u has_state env msg (start p)).0
  unfolding cascade
  cascade-Dark p h =
      preserve_step (seen_stage f cfg has_state env msg (start p)).0
        (seen_stage f cfg has_state env msg (start p)).1 (λ _. moderate f cfg u has_state env msg)
        (λ _. moderate-Dark f cfg u has_state env msg p.breaker)
        (seen_stage-Dark f cfg u has_state env msg p h).0

  -- While the breaker denies a message, no stage of it calls Redis, and the breaker stays as it is.
  pub process_outage :
      (p : Pipe f)
      → Denied has_state env p
      → (let r = process f cfg u has_state env msg p in
          (count is_redis_call r.trace ≡ 0) × (r.pipe.breaker ≡ p.breaker))
  unfolding process
  process_outage p h = ground (arith, cascade-Dark p h)
