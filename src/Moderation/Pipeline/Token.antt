-- ===== src/Moderation/Pipeline/Token.antt =====
-- The probe token of the breaker: a message that is given it reports it before it ends.
use dabet.Moderation.Vector.{Vec}
use dabet.Moderation.Match.{Matcher}
use dabet.Moderation.Pipeline.Cascade.{process, moderate, cascade, CachedPair, detectors}
use dabet.Moderation.Pipeline.Gate.{gate_ok, gate_fail, use_redis}
use dabet.Moderation.Pipeline.Stages.{
  compare_window, words_stage, semantic_stage, sampler_stage, policy_stage, embed_stage,
  credits_stage, content_stage, compare_if, merged_stage, seen_stage,
}
use dabet.Contracts.{ResolvedPolicy, Message}
use dabet.Moderation.Normalize.{normalize, Unicode}
use dabet.Prelude.{none, some, List, Option, Runes, true, arith, ◌≡◌, false, Bool, ℕ}
use dabet.Prelude.Floats.{Floats}
use dabet.Moderation.Breaker.{Breaker, allow, succeed, fail, trip}
use dabet.Moderation.Pipeline.State.{
  append_site, append_call, sampled_site, token_call, cascade_site, cascade_call, redis_call, emit,
  Config, Answers, Pipe, Run, start, M,
}
use dabet.Moderation.Pipeline.Rules.{pass-Preserves, preserve_step, Preserves, >>=-Preserves}

succeed_plain : (b : Breaker) (now : ℕ) → (succeed b now false).probing ≡ b.probing
unfolding succeed
succeed_plain b now = ground arith

fail_plain : (b : Breaker) (now : ℕ) → (fail b now false).probing ≡ b.probing
unfolding fail trip
fail_plain b now = ground arith

module _ {f : Floats} where
  -- After the first stage: the breaker was asked if there is one, this message holds no token, and
  -- the token is out if and only if it was when the message came.
  pub record Settled (has_state out : Bool) (r : Run f) : Type 0 where
    pub asked : has_state ≡ true → r.decided ≡ true
    pub no_token : r.probe ≡ false
    pub as_before : r.pipe.breaker.probing ≡ out

module _ (f : Floats) (cfg : Config f) (u : Unicode) (has_state : Bool) (env : Answers f)
    (msg : Message) where
  seen_stage-Settled :
      (p : Pipe f)
      → Settled has_state p.breaker.probing (seen_stage f cfg has_state env msg (start p)).0
  unfolding seen_stage use_redis gate_ok gate_fail allow succeed fail trip
  seen_stage-Settled p = ground arith

module _ (f : Floats) (cfg : Config f) (u : Unicode) (has_state : Bool) (env : Answers f)
    (msg : Message) (out : Bool) where
  use_redis-Settled :
      (r : Run f) → Settled has_state out r → Settled has_state out (use_redis has_state env r).0
  unfolding use_redis
  use_redis-Settled r s = ground arith

  gate_ok-Settled :
      (r : Run f) (now : ℕ) → Settled has_state out r → Settled has_state out (gate_ok now r)
  unfolding gate_ok
  gate_ok-Settled r now s = ground (arith, succeed_plain r.pipe.breaker now)

  gate_fail-Settled :
      (r : Run f) (now : ℕ) → Settled has_state out r → Settled has_state out (gate_fail now r)
  unfolding gate_fail
  gate_fail-Settled r now s = ground (arith, fail_plain r.pipe.breaker now)

  abbrev Keeps : {A : Type 0} → M f A → Type 0
  Keeps m = Preserves f (Settled has_state out) m

  merged_stage-Settled :
      (pol : ResolvedPolicy) (norm : Runes) → Keeps (merged_stage f cfg has_state env msg pol norm)
  unfolding merged_stage
  merged_stage-Settled pol norm = record {
    keeps = λ r s. ground (
      arith,
      use_redis-Settled r s,
      gate_ok-Settled (emit (redis_call cascade_call) (use_redis has_state env r).0)
          (env.clock cascade_site),
      gate_fail-Settled (emit (redis_call cascade_call) (use_redis has_state env r).0)
          (env.clock cascade_site),
    );
  }

  compare_if-Settled :
      (pol : ResolvedPolicy) (window : List (Vec f)) (o : Option (Vec f))
      → Keeps (compare_if f cfg has_state env msg pol window o)
  unfolding compare_if compare_window
  compare_if-Settled pol window none = record { keeps = λ r s. s }
  compare_if-Settled pol window (some vec) = record {
    keeps = λ r s. ground (
      arith,
      gate_ok-Settled (emit (redis_call append_call) r) (env.clock append_site),
      gate_fail-Settled (emit (redis_call append_call) r) (env.clock append_site),
    );
  }

  embed_stage-Settled : (norm : Runes) → Keeps (embed_stage f cfg has_state env msg norm)
  unfolding embed_stage
  embed_stage-Settled norm = record { keeps = λ r s. ground (arith, use_redis-Settled r s) }

  semantic_stage-Settled :
      (pol : ResolvedPolicy) (norm : Runes) (o : Option (List (Vec f)))
      → Keeps (semantic_stage f cfg has_state env msg pol norm o)
  unfolding semantic_stage
  semantic_stage-Settled pol norm none = record { keeps = λ r s. s }
  semantic_stage-Settled pol norm (some window) = record {
    keeps = (>>=-Preserves (embed_stage-Settled norm) (compare_if-Settled pol window)).keeps;
  }

  words_stage-Settled :
      (pol : ResolvedPolicy) (norm : Runes) (m : Option Matcher)
      → Keeps (words_stage f cfg has_state env msg u pol norm m)
  unfolding words_stage
  words_stage-Settled pol norm none = record { keeps = λ r s. s }
  words_stage-Settled pol norm (some m) = record { keeps = λ r s. ground arith }

  content_stage-Settled : (pol : ResolvedPolicy) → Keeps (content_stage f cfg has_state env msg pol)
  unfolding content_stage
  content_stage-Settled pol = record { keeps = λ r s. ground arith }

  sampler_stage-Settled : Keeps (sampler_stage f cfg has_state env msg)
  unfolding sampler_stage
  sampler_stage-Settled = record {
    keeps = λ r s. ground (
      arith,
      use_redis-Settled r s,
      gate_ok-Settled (emit (redis_call token_call) (use_redis has_state env r).0)
          (env.clock sampled_site),
      gate_fail-Settled (emit (redis_call token_call) (use_redis has_state env r).0)
          (env.clock sampled_site),
    );
  }

  policy_stage-Settled : Keeps (policy_stage f cfg has_state env msg)
  unfolding policy_stage
  policy_stage-Settled = record { keeps = λ r s. ground arith }

  credits_stage-Settled : Keeps (credits_stage f cfg has_state env msg)
  unfolding credits_stage
  credits_stage-Settled = record { keeps = λ r s. ground arith }

  detectors-Settled : (pm : CachedPair) → Keeps (detectors f cfg u has_state env msg pm)
  unfolding detectors
  detectors-Settled pm = >>=-Preserves (merged_stage-Settled pm.0 norm) λ window.
      >>=-Preserves (semantic_stage-Settled pm.0 norm window) λ _.
        >>=-Preserves (words_stage-Settled pm.0 norm pm.1)
          λ _. >>=-Preserves (content_stage-Settled pm.0) λ _. sampler_stage-Settled
    where
      norm : Runes
      norm = normalize u msg.text

  moderate-Settled : Keeps (moderate f cfg u has_state env msg)
  unfolding moderate
  moderate-Settled = >>=-Preserves policy_stage-Settled λ pm.
      >>=-Preserves credits_stage-Settled
        λ _. >>=-Preserves (detectors-Settled pm) λ _. pass-Preserves pm.0

module _ (f : Floats) (cfg : Config f) (u : Unicode) (has_state : Bool) (env : Answers f)
    (msg : Message) where
  cascade-Settled :
      (p : Pipe f)
      → Settled has_state p.breaker.probing (cascade f cfg u has_state env msg (start p)).0
  unfolding cascade
  cascade-Settled p =
      preserve_step (seen_stage f cfg has_state env msg (start p)).0
        (seen_stage f cfg has_state env msg (start p)).1 (λ _. moderate f cfg u has_state env msg)
        (λ _. moderate-Settled f cfg u has_state env msg p.breaker.probing)
        (seen_stage-Settled f cfg u has_state env msg p)

  -- No message keeps the probe token: when it ends, the token is out exactly if it was out before,
  -- in the hands of another message.
  pub process_token :
      (p : Pipe f) → (process f cfg u has_state env msg p).pipe.breaker.probing ≡ p.breaker.probing
  unfolding process
  process_token p = ground (arith, cascade-Settled p)
