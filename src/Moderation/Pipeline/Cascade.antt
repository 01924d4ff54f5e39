-- ===== src/Moderation/Pipeline/Cascade.antt =====
-- pipeline.go, Process: one message through the stages, first hit wins, and into the batcher.
use dabet.Prelude.{Bool, Option, none, some, List}
use dabet.Prelude.Floats.{Floats}
use dabet.Contracts.{Message, ResolvedPolicy}
use dabet.Moderation.Batcher.{Batch, add}
use dabet.Moderation.Normalize.{Unicode, normalize}
use dabet.Moderation.Pipeline.State.{
  Config, Answers, Pipe, Effect, M, ◌>>=◌, ◌>>◌, start, batch_site,
}
use dabet.Moderation.Pipeline.Stages.{
  seen_stage, policy_stage, credits_stage, merged_stage, semantic_stage, words_stage, content_stage,
  sampler_stage,
}
use dabet.Moderation.Match.{Matcher}

-- A policy that is there, with its matcher.
abbrev pub CachedPair : Type 0
CachedPair = ResolvedPolicy × Option Matcher

-- What the handler leaves behind: the shared state, the message's effects, and a full batch.
pub record Result (f : Floats) : Type 0 where
  pub pipe : Pipe f
  pub trace : List Effect
  pub batch : Option Batch

module _ (f : Floats) (cfg : Config f) (u : Unicode) (has_state : Bool) (env : Answers f)
    (msg : Message) where
  -- The detectors, on the normalised text: stages 4 to 8.
  unfoldable pub detectors : CachedPair → M f (Unit {0})
  detectors pm = do
    let norm = normalize u msg.text
    window ← merged_stage f cfg has_state env msg pm.0 norm
    semantic_stage f cfg has_state env msg pm.0 norm window
    words_stage f cfg has_state env msg u pm.0 norm pm.1
    content_stage f cfg has_state env msg pm.0
    sampler_stage f cfg has_state env msg

  -- What follows the redelivery guard.
  unfoldable pub moderate : M f ResolvedPolicy
  moderate = do
    pm ← policy_stage f cfg has_state env msg
    credits_stage f cfg has_state env msg
    detectors pm
    (λ r. (r, some pm.0))

  unfoldable pub cascade : M f ResolvedPolicy
  cascade = do seen_stage f cfg has_state env msg; moderate

  -- Stage 9 queues what the cascade lets through.
  unfoldable pub process : Pipe f → Result f
  process p =
      let (r, o) = cascade (start p) in
      elim o [
        | none ↦ record { pipe = r.pipe; trace = r.trace; batch = none }
        | some pol ↦
            let (b, full) = add r.pipe.batcher msg pol (env.clock batch_site) in
            record { pipe = record (r.pipe) { batcher = b }; trace = r.trace; batch = full }
      ]
