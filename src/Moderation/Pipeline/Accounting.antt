-- ===== src/Moderation/Pipeline/Accounting.antt =====
-- What one message leaves in the metrics and on the topics.
use dabet.Moderation.Vector.{Vec}
use dabet.Moderation.Match.{Matcher}
use dabet.Moderation.Pipeline.Cascade.{CachedPair, detectors, cascade, moderate}
use dabet.Prelude.{
  none, Option, Runes, some, ℕ, ◌+◌, ◌≡◌, Bool, true, false, List, count, if◌then◌else◌, arith,
  String,
}
use dabet.Prelude.Floats.{Floats}
use dabet.Contracts.{ResolvedPolicy, Message, Flagged, Detector, Action, auto_delete, review}
use dabet.Moderation.Normalize.{normalize, Unicode}
use dabet.Moderation.Pipeline.State.{
  Config, Answers, Run, Effect, flagged, redis, outcome, fail_open, detector_hit, publish_flagged,
  publish_deletion,
}
use dabet.Moderation.Pipeline.Rules.{>>=-Sound, Sound}
use dabet.Moderation.Pipeline.Gate.{use_redis, gate_ok, gate_fail}
use dabet.Moderation.Pipeline.Stages.{
  embed_stage, compare_if, compare_window, words_stage, semantic_stage, sampler_stage, policy_stage,
  merged_stage, credits_stage, content_stage, flag, seen_stage,
}

abbrev pub is_outcome : Effect → Bool
is_outcome (outcome o) = true
is_outcome _ = false

abbrev pub is_flagged_outcome : Effect → Bool
is_flagged_outcome (outcome flagged) = true
is_flagged_outcome _ = false

abbrev pub is_flagged_record : Effect → Bool
is_flagged_record (publish_flagged key ev) = true
is_flagged_record _ = false

abbrev pub is_deletion_record : Effect → Bool
is_deletion_record (publish_deletion key ev) = true
is_deletion_record _ = false

abbrev pub is_hit : Effect → Bool
is_hit (detector_hit det action) = true
is_hit _ = false

abbrev pub is_auto_hit : Effect → Bool
is_auto_hit (detector_hit det auto_delete) = true
is_auto_hit _ = false

abbrev pub is_redis_fail : Effect → Bool
is_redis_fail (fail_open redis) = true
is_redis_fail _ = false

-- A trace on which each flagged message has its detector hit and its record, and each automatic
-- deletion its own record.
pub record IsConsistent (t : List Effect) : Type 0 where
  pub hits : count is_hit t ≡ count is_flagged_outcome t
  pub records : count is_flagged_record t ≡ count is_flagged_outcome t
  pub deletions : count is_deletion_record t ≡ count is_auto_hit t

pub flag-IsConsistent :
    (acked : Flagged → Bool) (now issued : ℕ) (msg : Message) (det : Detector) (action : Action)
    (policy_id : String) (t : List Effect)
    → IsConsistent t
    → IsConsistent (flag acked now issued msg det action policy_id t)
unfolding flag
flag-IsConsistent acked now issued msg det auto_delete policy_id t c = ground arith
flag-IsConsistent acked now issued msg det review policy_id t c = ground arith

module _ {f : Floats} where
  -- Between the stages: a consistent trace, and the fail-open of Redis counted once or not yet.
  pub record Inv (r : Run f) : Type 0 where
    pub consistent : IsConsistent r.trace
    pub one_fail : count is_redis_fail r.trace ≡ (if r.counted then 1 else 0)

  -- A stage that ends the message records its one outcome, and no stage touches the batcher.
  pub record Rel (r r' : Run f) (over : Bool) : Type 0 where
    pub one_outcome : count is_outcome r'.trace ≡ count is_outcome r.trace + (if over then 1 else 0)
    pub same_batcher : r'.pipe.batcher ≡ r.pipe.batcher

  pub Rel-trans : (s t u : Run f) (b : Bool) → Rel s t false → Rel t u b → Rel s u b
  Rel-trans s t u b h k = ground arith

module _ (f : Floats) (cfg : Config f) (u : Unicode) (has_state : Bool) (env : Answers f)
    (msg : Message) where
  use_redis-Sound :
      (r : Run f)
      → Inv r
      → Inv (use_redis has_state env r).0 × Rel r (use_redis has_state env r).0 false
  unfolding use_redis
  use_redis-Sound r i = ground arith

  pass-Sound : {A : Type 0} (a : A) → Sound f Inv Rel (λ r. (r, some a))
  pass-Sound a r i = ground arith

  gate_ok-Sound : (r : Run f) (now : ℕ) → Inv r → Inv (gate_ok now r) × Rel r (gate_ok now r) false
  unfolding gate_ok
  gate_ok-Sound r now i = ground arith

  gate_fail-Sound :
      (r : Run f) (now : ℕ) → Inv r → Inv (gate_fail now r) × Rel r (gate_fail now r) false
  unfolding gate_fail
  gate_fail-Sound r now i = ground arith

  seen_stage-Sound : Sound f Inv Rel (seen_stage f cfg has_state env msg)
  unfolding seen_stage gate_ok gate_fail
  seen_stage-Sound r i = ground (arith, use_redis-Sound r i)

  policy_stage-Sound : Sound f Inv Rel (policy_stage f cfg has_state env msg)
  unfolding policy_stage
  policy_stage-Sound r i = ground arith

  credits_stage-Sound : Sound f Inv Rel (credits_stage f cfg has_state env msg)
  unfolding credits_stage
  credits_stage-Sound r i = ground arith

  merged_stage-Sound :
      (pol : ResolvedPolicy) (norm : Runes)
      → Sound f Inv Rel (merged_stage f cfg has_state env msg pol norm)
  unfolding merged_stage gate_ok gate_fail flag
  merged_stage-Sound pol norm r i = ground (arith, use_redis-Sound r i)

  compare_window-Sound :
      (pol : ResolvedPolicy) (vec : Vec f) (window : List (Vec f))
      → Sound f Inv Rel (compare_window f cfg has_state env msg pol vec window)
  unfolding compare_window gate_ok gate_fail flag
  compare_window-Sound pol vec window r i = ground arith

  embed_stage-Sound : (norm : Runes) → Sound f Inv Rel (embed_stage f cfg has_state env msg norm)
  unfolding embed_stage
  embed_stage-Sound norm r i = ground (arith, use_redis-Sound r i)

  compare_if-Sound :
      (pol : ResolvedPolicy) (window : List (Vec f)) (vec : Option (Vec f))
      → Sound f Inv Rel (compare_if f cfg has_state env msg pol window vec)
  unfolding compare_if
  compare_if-Sound pol window none r i = pass-Sound tt r i
  compare_if-Sound pol window (some vec) r i = compare_window-Sound pol vec window r i

  semantic_stage-Sound :
      (pol : ResolvedPolicy) (norm : Runes) (window : Option (List (Vec f)))
      → Sound f Inv Rel (semantic_stage f cfg has_state env msg pol norm window)
  unfolding semantic_stage
  semantic_stage-Sound pol norm none r i = pass-Sound tt r i
  semantic_stage-Sound pol norm (some window) r i =
      >>=-Sound f Inv Rel _ _ Rel-trans (embed_stage-Sound norm) (compare_if-Sound pol window) r i

  words_stage-Sound :
      (pol : ResolvedPolicy) (norm : Runes) (m : Option Matcher)
      → Sound f Inv Rel (words_stage f cfg has_state env msg u pol norm m)
  unfolding words_stage flag
  words_stage-Sound pol norm none r i = ground arith
  words_stage-Sound pol norm (some m) r i = ground arith

  content_stage-Sound :
      (pol : ResolvedPolicy) → Sound f Inv Rel (content_stage f cfg has_state env msg pol)
  unfolding content_stage
  content_stage-Sound pol r i = ground arith

  sampler_stage-Sound : Sound f Inv Rel (sampler_stage f cfg has_state env msg)
  unfolding sampler_stage gate_ok gate_fail
  sampler_stage-Sound r i = ground (arith, use_redis-Sound r i)

  detectors-Sound : (pm : CachedPair) → Sound f Inv Rel (detectors f cfg u has_state env msg pm)
  unfolding detectors
  detectors-Sound pm = >>=-Sound f Inv Rel _ _ Rel-trans (merged_stage-Sound pm.0 norm) λ window.
      >>=-Sound f Inv Rel _ _ Rel-trans (semantic_stage-Sound pm.0 norm window) λ _.
        >>=-Sound f Inv Rel _ _ Rel-trans (words_stage-Sound pm.0 norm pm.1)
          λ _. >>=-Sound f Inv Rel _ _ Rel-trans (content_stage-Sound pm.0) λ _. sampler_stage-Sound
    where
      norm : Runes
      norm = normalize u msg.text

  moderate-Sound : Sound f Inv Rel (moderate f cfg u has_state env msg)
  unfolding moderate
  moderate-Sound = >>=-Sound f Inv Rel _ _ Rel-trans policy_stage-Sound λ pm.
      >>=-Sound f Inv Rel _ _ Rel-trans credits_stage-Sound λ _.
        >>=-Sound f Inv Rel _ (λ _ r. (r, some pm.0)) Rel-trans (detectors-Sound pm)
          λ _. pass-Sound pm.0

  pub cascade-Sound : Sound f Inv Rel (cascade f cfg u has_state env msg)
  unfolding cascade
  cascade-Sound = >>=-Sound f Inv Rel _ _ Rel-trans seen_stage-Sound λ _. moderate-Sound
