-- ===== src/Moderation/Pipeline/Billing.antt =====
-- What a message costs: the counter that the handler takes for its creator, or none.
use dabet.Moderation.Vector.{Vec}
use dabet.Moderation.Match.{Matcher}
use dabet.Moderation.Breaker.{allow}
use dabet.Moderation.Pipeline.Rules.{pass-Preserves, ended, >>=-Preserves, Preserves}
use dabet.Moderation.Pipeline.Gate.{gate_fail, gate_ok, use_redis}
use dabet.Moderation.Pipeline.Stages.{
  bill, credits_stage, compare_window, words_stage, semantic_stage, sampler_stage, policy_stage,
  merged_stage, embed_stage, content_stage, compare_if, seen_stage,
}
use dabet.Moderation.Pipeline.Cascade.{detectors, cascade, CachedPair, process, moderate}
use dabet.Moderation.UsageAggregator.{inc, Aggregator}
use dabet.Moderation.Normalize.{normalize, Unicode}
use dabet.Contracts.{ResolvedPolicy, Message}
use dabet.Prelude.{
  refl, inr, inl, Option-cases, Option, List, some, false, arith, Runes, ◌≡◌, true, if◌then◌else◌,
  none, ◌&&◌, Bool,
}
use dabet.Prelude.Floats.{Floats}
use dabet.Moderation.Pipeline.State.{
  policy_service, dependency_up, emit, ◌>>=◌, allow_site, usage_site, Config, Answers, Pipe, Run,
  start, M,
}

-- The redelivery guard stops the message: Redis may be used and has seen its id.
abbrev pub redelivered : {f : Floats} → Config f → Bool → Answers f → Message → Pipe f → Bool
redelivered cfg has_state env msg p =
    has_state
    && ((allow p.breaker (env.clock allow_site)).1.allowed
        && elim (env.seen msg.message_id cfg.seen_ttl) [ none ↦ false | some already ↦ already ])

-- Only a creator for whom the lookup finds a policy, and who has no credits, goes unbilled.
abbrev pub pays : {f : Floats} → Answers f → Message → Bool
pays env msg = elim (env.policy msg.creator_id msg.content_id) [
  | none ↦ true
  | some cp ↦ elim cp.policy [ none ↦ true | some pol ↦ env.credits_ok msg.creator_id ]
]

abbrev pub billed : {f : Floats} → Answers f → Message → Aggregator → Aggregator
billed env msg u = if pays env msg then inc u msg.creator_id (env.clock usage_site) else u

module _ (f : Floats) (cfg : Config f) (u : Unicode) (has_state : Bool) (env : Answers f)
    (msg : Message) where
  use_redis-usage : (r : Run f) → (use_redis has_state env r).0.pipe.usage ≡ r.pipe.usage
  unfolding use_redis
  use_redis-usage r = ground arith

  seen_stage-usage :
      (p : Pipe f)
      → ((seen_stage f cfg has_state env msg (start p)).0.pipe.usage ≡ p.usage)
        × (ended (seen_stage f cfg has_state env msg (start p)).1
            ≡ redelivered cfg has_state env msg p)
  unfolding seen_stage use_redis gate_ok gate_fail
  seen_stage-usage p = ground arith

module _ (f : Floats) (cfg : Config f) (u : Unicode) (has_state : Bool) (env : Answers f)
    (msg : Message) (a : Aggregator) where
  abbrev Keeps : {A : Type 0} → M f A → Type 0
  Keeps m = Preserves f (λ r. r.pipe.usage ≡ a) m

  merged_stage-Free :
      (pol : ResolvedPolicy) (norm : Runes) → Keeps (merged_stage f cfg has_state env msg pol norm)
  unfolding merged_stage gate_ok gate_fail
  merged_stage-Free pol norm = record {
    keeps = λ r s. ground (arith, use_redis-usage f cfg u has_state env msg r);
  }

  compare_if-Free :
      (pol : ResolvedPolicy) (window : List (Vec f)) (o : Option (Vec f))
      → Keeps (compare_if f cfg has_state env msg pol window o)
  unfolding compare_if compare_window gate_ok gate_fail
  compare_if-Free pol window none = record { keeps = λ r s. s }
  compare_if-Free pol window (some vec) = record { keeps = λ r s. ground arith }

  embed_stage-Free : (norm : Runes) → Keeps (embed_stage f cfg has_state env msg norm)
  unfolding embed_stage
  embed_stage-Free norm = record {
    keeps = λ r s. ground (arith, use_redis-usage f cfg u has_state env msg r);
  }

  semantic_stage-Free :
      (pol : ResolvedPolicy) (norm : Runes) (o : Option (List (Vec f)))
      → Keeps (semantic_stage f cfg has_state env msg pol norm o)
  unfolding semantic_stage
  semantic_stage-Free pol norm none = record { keeps = λ r s. s }
  semantic_stage-Free pol norm (some window) = record {
    keeps = (>>=-Preserves (embed_stage-Free norm) (compare_if-Free pol window)).keeps;
  }

  words_stage-Free :
      (pol : ResolvedPolicy) (norm : Runes) (m : Option Matcher)
      → Keeps (words_stage f cfg has_state env msg u pol norm m)
  unfolding words_stage
  words_stage-Free pol norm none = record { keeps = λ r s. s }
  words_stage-Free pol norm (some m) = record { keeps = λ r s. ground arith }

  content_stage-Free : (pol : ResolvedPolicy) → Keeps (content_stage f cfg has_state env msg pol)
  unfolding content_stage
  content_stage-Free pol = record { keeps = λ r s. ground arith }

  sampler_stage-Free : Keeps (sampler_stage f cfg has_state env msg)
  unfolding sampler_stage gate_ok gate_fail
  sampler_stage-Free = record {
    keeps = λ r s. ground (arith, use_redis-usage f cfg u has_state env msg r);
  }

  detectors-Free : (pm : CachedPair) → Keeps (detectors f cfg u has_state env msg pm)
  unfolding detectors
  detectors-Free pm = >>=-Preserves (merged_stage-Free pm.0 norm) λ window.
      >>=-Preserves (semantic_stage-Free pm.0 norm window) λ _.
        >>=-Preserves (words_stage-Free pm.0 norm pm.1)
          λ _. >>=-Preserves (content_stage-Free pm.0) λ _. sampler_stage-Free
    where
      norm : Runes
      norm = normalize u msg.text

module _ (f : Floats) (cfg : Config f) (u : Unicode) (has_state : Bool) (env : Answers f)
    (msg : Message) where
  judged-usage :
      (pm : CachedPair) (r : Run f)
      → (let m : M f ResolvedPolicy =
            detectors f cfg u has_state env msg pm >>= λ _ s. (s, some pm.0) in
          (m r).0.pipe.usage ≡ r.pipe.usage)
  judged-usage pm r =
      let d = detectors-Free f cfg u has_state env msg r.pipe.usage pm in
      (>>=-Preserves d λ _. pass-Preserves pm.0).keeps r refl

  moderate-usage :
      (r : Run f)
      → (moderate f cfg u has_state env msg r).0.pipe.usage ≡ billed env msg r.pipe.usage
  unfolding moderate policy_stage credits_stage
  moderate-usage r = elim (Option-cases (env.policy msg.creator_id msg.content_id)) [
    | inl e ↦ ground (arith, e)
    | inr (cp, e) ↦ elim (Option-cases cp.policy) [
      | inl none_there ↦ ground (arith, e, none_there)
      | inr (pol, there) ↦ ground (
        arith,
        e,
        there,
        judged-usage (pol, cp.matcher)
            (bill f cfg has_state env msg (emit (dependency_up policy_service true) r)),
      )
    ]
  ]

  -- A message is billed to its creator once, at the time of its call, in all but two cases, in which
  -- it is not billed at all: the breaker admits it to Redis and the guard there has seen its id, or the
  -- lookup finds a policy and the creator has no credits. So it is billed where Redis is denied or
  -- fails, also when it comes again, and where the lookup fails or finds no policy, also without
  -- credits.
  pub process_usage :
      (p : Pipe f)
      → (process f cfg u has_state env msg p).pipe.usage
        ≡ (if redelivered cfg has_state env msg p then p.usage else billed env msg p.usage)
  unfolding process cascade
  process_usage p = ground (
    arith,
    seen_stage-usage f cfg u has_state env msg p,
    moderate-usage (seen_stage f cfg has_state env msg (start p)).0,
  )
