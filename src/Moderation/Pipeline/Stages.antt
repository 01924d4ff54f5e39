-- ===== src/Moderation/Pipeline/Stages.antt =====
-- pipeline.go, the stages of Process, in their order. A stage reads the answers of the services it
-- calls, and ends the message or hands a value on.
use Prim.Native.String.{◌++◌ as str_append}
use dabet.Prelude.{
  ℕ, ◌*◌, Bool, true, false, not, ◌||◌, Option, none, some, List, [], ◌∷◌, String, Runes,
  if◌then◌else◌,
}
use dabet.Prelude.Floats.{Floats}
use dabet.Contracts.{
  Message, Flagged, Deletion, Detector, Action, ResolvedPolicy, SpamMode, spam_none, spam_identical,
  spam_semantic, rate_limit, duplicate, semantic_spam, restricted_word, auto_delete, review,
  flagged_key, deletions_key, RestrictedContentEntry,
}
use dabet.Moderation.MemSampler
use dabet.Moderation.UsageAggregator.{inc}
use dabet.Moderation.Match.{Matcher, match_runes}
use dabet.Moderation.Normalize.{Unicode}
use dabet.Moderation.Vector.{Vec, max_similarity}
use dabet.Moderation.RedisState.{
  RateParams, DupParams, CascadeParams, CascadeResult, cascade_none, cascade_rate_limited,
  cascade_duplicate, nanos_per_second,
}
use dabet.Moderation.Pipeline.State.{
  ◌>>=◌, Effect, Config, Answers, Run, Outcome, skipped, clean, flagged, M, emit, with_usage,
  with_mem_samp, outcome, fail_open, dependency_up, redis_call, detector_hit, publish_flagged,
  publish_deletion, e2e_latency, sampler_skipped, policy_service, credits, embedding, seen_call,
  cascade_call, append_call, token_call, seen_site, usage_site, rate_site, cascade_site,
  append_site, take_site, sampled_site, fallback_site, flag_site, deletion_site,
}
use dabet.Moderation.Pipeline.Gate.{use_redis, gate_ok, gate_fail}

abbrev pub finish : {f : Floats} {A : Type 0} → Outcome → M f A
finish o r = (emit (outcome o) r, none)

abbrev pub is_auto_delete : Action → Bool
is_auto_delete auto_delete = true
is_auto_delete review = false

-- The records of a verdict.
abbrev pub flagged_event : Message → Detector → Action → String → ℕ → Flagged
flagged_event msg det action policy_id now = record {
  message_id = msg.message_id;
  content_id = msg.content_id;
  author_id = msg.author_id;
  creator_id = msg.creator_id;
  text = msg.text;
  detector = det;
  action = action;
  policy_id = policy_id;
  flagged_at = now;
}

abbrev pub deletion_event : Message → Detector → ℕ → Deletion
deletion_event msg det now = record {
  message_id = msg.message_id;
  content_id = msg.content_id;
  creator_id = msg.creator_id;
  reason = det;
  issued_at = now;
}

-- Every flag goes to flagged.v1; auto_delete goes to deletions.v1 too. The two times are those of
-- the two records.
unfoldable pub flag :
    (Flagged → Bool) → ℕ → ℕ → Message → Detector → Action → String → List Effect → List Effect
flag acked now issued msg det action policy_id t =
    let ev = flagged_event msg det action policy_id now in
    let t1 = publish_flagged (flagged_key msg.creator_id) ev ∷ detector_hit det action ∷ t in
    let t2 = if acked ev then e2e_latency ∷ t1 else t1 in
    let del = publish_deletion (deletions_key msg.content_id) (deletion_event msg det issued) in
    let t3 = if is_auto_delete action then del ∷ t2 else t2 in outcome flagged ∷ t3

module _ (f : Floats) (cfg : Config f) (has_state : Bool) (env : Answers f) (msg : Message) where
  -- The verdict of a detector before the LLM.
  abbrev pub stop_flagged : {A : Type 0} → Detector → ResolvedPolicy → M f A
  stop_flagged det pol r = (
    record r {
      trace =
          flag env.flagged_acked (env.clock flag_site) (env.clock deletion_site) msg det auto_delete
            pol.policy_id r.trace;
    },
    none,
  )

  -- Stage 1, the redelivery guard.
  unfoldable pub seen_stage : M f (Unit {0})
  seen_stage r =
      let (r1, may) = use_redis has_state env r in
      if not may
      then (r1, some tt)
      else (let r2 = emit (redis_call seen_call) r1 in
          elim (env.seen msg.message_id cfg.seen_ttl) [
            | none ↦ (gate_fail (env.clock seen_site) r2, some tt)
            | some already ↦
                let r3 = gate_ok (env.clock seen_site) r2 in
                if already then finish skipped r3 else (r3, some tt)
          ])

  abbrev pub bill : Run f → Run f
  bill r = with_usage (inc r.pipe.usage msg.creator_id (env.clock usage_site)) r

  -- Stage 2: the policy, or an end without moderation that is billed all the same.
  unfoldable pub policy_stage : M f (ResolvedPolicy × Option Matcher)
  policy_stage r = elim (env.policy msg.creator_id msg.content_id) [
    | none ↦
        finish skipped
          (bill (emit (dependency_up policy_service false) (emit (fail_open policy_service) r)))
    | some cp ↦
        let r1 = emit (dependency_up policy_service true) r in
        elim cp.policy [ none ↦ finish clean (bill r1) | some pol ↦ (r1, some (pol, cp.matcher)) ]
  ]

  -- Stage 3: without credits the message passes unmoderated and unbilled.
  unfoldable pub credits_stage : M f (Unit {0})
  credits_stage r =
      if env.credits_ok msg.creator_id
      then (bill r, some tt)
      else finish skipped (emit (fail_open credits) r)

  abbrev pub spam_on : SpamMode → Bool
  spam_on spam_none = false
  spam_on spam_identical = true
  spam_on spam_semantic = true

  abbrev pub semantic_on : SpamMode → Bool
  semantic_on spam_semantic = true
  semantic_on _ = false

  -- The rate stage is on when both limits are set.
  abbrev pub rate_params : ResolvedPolicy → Option (RateParams f)
  rate_params pol = elim pol.rate_limit_messages [
    | none ↦ none
    | some messages ↦ elim pol.rate_limit_seconds [
      | none ↦ none
      | some seconds ↦
          let window = seconds * nanos_per_second in
          some (record {
            capacity = f.of_ℕ messages;
            refill_per_sec = f.div (f.of_ℕ messages) (f.seconds window);
            now = env.clock rate_site;
            ttl = 2 * window;
          })
    ]
  ]

  abbrev pub dup_params : ResolvedPolicy → Runes → Option DupParams
  dup_params pol norm =
      if spam_on pol.spam
      then some (record { hash = env.hash_text norm; depth = cfg.dup_depth; ttl = cfg.dup_ttl })
      else none

  abbrev pub cascade_params : ResolvedPolicy → Runes → CascadeParams f
  cascade_params pol norm = record {
    rate = rate_params pol;
    dup = dup_params pol norm;
    emb_depth = if semantic_on pol.spam then cfg.emb_depth else 0;
  }

  abbrev pub is_on : {A : Type 0} → Option A → Bool
  is_on none = false
  is_on (some a) = true

  -- What the merged call found: a verdict, or the window that the semantic stage compares with.
  unfoldable pub judge_cascade : ResolvedPolicy → CascadeResult f → M f (Option (List (Vec f)))
  judge_cascade pol res r = elim res.hit [
    | cascade_rate_limited ↦ stop_flagged rate_limit pol r
    | cascade_duplicate ↦ stop_flagged duplicate pol r
    | cascade_none ↦ (r, some (if semantic_on pol.spam then some res.vectors else none))
  ]

  -- Stages 4 to 6, one call.
  unfoldable pub merged_stage : ResolvedPolicy → Runes → M f (Option (List (Vec f)))
  unfolding judge_cascade
  merged_stage pol norm r =
      if not (is_on (rate_params pol) || spam_on pol.spam)
      then (r, some none)
      else (let (r1, may) = use_redis has_state env r in
          if not may
          then (r1, some none)
          else (let r2 = emit (redis_call cascade_call) r1 in
              elim (env.cascade msg.content_id msg.author_id (cascade_params pol norm)) [
                | none ↦ (gate_fail (env.clock cascade_site) r2, some none)
                | some res ↦ judge_cascade pol res (gate_ok (env.clock cascade_site) r2)
              ]))

  -- The vector of the text, if the embedder returns exactly one.
  abbrev pub only_vector : Option (List (Vec f)) → Option (Vec f)
  only_vector (some (v ∷ [])) = some v
  only_vector _ = none

  -- Compare with the window and append to it. A failed append suppresses the verdict.
  unfoldable pub compare_window : ResolvedPolicy → Vec f → List (Vec f) → M f (Unit {0})
  compare_window pol vec window r =
      let r1 = emit (redis_call append_call) r in
      let similar = f.le cfg.semantic_threshold (max_similarity f vec window) in
      if not (env.emb_append msg.content_id msg.author_id vec cfg.emb_depth cfg.emb_ttl)
      then (gate_fail (env.clock append_site) r1, some tt)
      else (let r2 = gate_ok (env.clock append_site) r1 in
          if similar then stop_flagged semantic_spam pol r2 else (r2, some tt))

  -- The vector of the text; the embedding is only paid for where Redis may be used.
  unfoldable pub embed_stage : Runes → M f (Option (Vec f))
  embed_stage norm r =
      let (r1, may) = use_redis has_state env r in
      if not may then (r1, some none) else elim (only_vector (env.embed (norm ∷ []))) [
        | none ↦ (emit (dependency_up embedding false) (emit (fail_open embedding) r1), some none)
        | some vec ↦ (emit (dependency_up embedding true) r1, some (some vec))
      ]

  unfoldable pub compare_if : ResolvedPolicy → List (Vec f) → Option (Vec f) → M f (Unit {0})
  compare_if pol window none r = (r, some tt)
  compare_if pol window (some vec) r = compare_window pol vec window r

  -- Stage 6, second half, where the merged call has read a window.
  unfoldable pub semantic_stage : ResolvedPolicy → Runes → Option (List (Vec f)) → M f (Unit {0})
  semantic_stage pol norm none r = (r, some tt)
  semantic_stage pol norm (some window) r = (embed_stage norm >>= compare_if pol window) r

  -- Stage 7, in memory.
  unfoldable pub words_stage : Unicode → ResolvedPolicy → Runes → Option Matcher → M f (Unit {0})
  words_stage u pol norm none r = (r, some tt)
  words_stage u pol norm (some m) r =
      if match_runes u m norm then stop_flagged restricted_word pol r else (r, some tt)

  abbrev pub has_restricted_content : List RestrictedContentEntry → Bool
  has_restricted_content [] = false
  has_restricted_content (e ∷ es) = true

  -- Stages 8 and 9 exist only where the policy has restricted content.
  unfoldable pub content_stage : ResolvedPolicy → M f (Unit {0})
  content_stage pol r =
      if has_restricted_content pol.restricted_content then (r, some tt) else finish clean r

  abbrev pub samp_key : String → String
  samp_key content_id = str_append "samp:{" (str_append content_id "}")

  -- The bucket in Redis, or the one in memory: the state and whether the message is sampled.
  unfoldable pub fall_back : Run f → Run f × Bool
  fall_back r =
      let (s, sampled) =
        MemSampler.allow f r.pipe.mem_samp msg.content_id (env.clock fallback_site) in
      (with_mem_samp s r, sampled)

  unfoldable pub sample : Run f → Run f × Bool
  unfolding fall_back
  sample r =
      let (r1, may) = use_redis has_state env r in
      if not may
      then fall_back r1
      else (let r2 = emit (redis_call token_call) r1 in
          elim (env.take_token (samp_key msg.content_id) cfg.sampler_capacity
            (f.div cfg.sampler_per_min (f.of_ℕ 60)) (env.clock take_site) cfg.sampler_ttl) [
              | none ↦ fall_back (gate_fail (env.clock sampled_site) r2)
              | some a ↦ (gate_ok (env.clock sampled_site) r2, a)
            ])

  -- Stage 8: a message that is not sampled was judged by nobody, so it counts as skipped.
  unfoldable pub sampler_stage : M f (Unit {0})
  unfolding sample
  sampler_stage r =
      let (r1, sampled) = sample r in
      if sampled then (r1, some tt) else finish skipped (emit sampler_skipped r1)
