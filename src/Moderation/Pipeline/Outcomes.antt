-- ===== src/Moderation/Pipeline/Outcomes.antt =====
-- Process as a whole: what one message is counted as.
use dabet.Contracts.{Message}
use dabet.Prelude.{inr, inl, Option-cases, ◌≡◌, ◌≤◌, ◌+◌, count, arith, Bool}
use dabet.Moderation.Normalize.{Unicode}
use dabet.Prelude.Floats.{Floats}
use dabet.Moderation.Batcher.Conservation.{waiting, carried_one, add-waiting}
use dabet.Moderation.Pipeline.State.{batch_site, Config, Answers, Pipe, start}
use dabet.Moderation.Pipeline.Accounting.{
  is_outcome, is_redis_fail, IsConsistent, Inv, cascade-Sound,
}
use dabet.Moderation.Pipeline.Cascade.{cascade, process}

module _ (f : Floats) (cfg : Config f) (u : Unicode) (has_state : Bool) (env : Answers f)
    (msg : Message) where
  start-Inv : (p : Pipe f) → Inv (start p)
  start-Inv p = ground arith

  -- Each message is counted once: by one outcome of its own, or by waiting for the LLM, in the
  -- batcher or in the batch that it fills.
  pub process_one_outcome :
      (p : Pipe f)
      → (let r = process f cfg u has_state env msg p in
          count is_outcome r.trace + waiting r.pipe.batcher + carried_one r.batch
          ≡ waiting p.batcher + 1)
  unfolding process
  process_one_outcome p =
      let sound = cascade-Sound f cfg u has_state env msg (start p) (start-Inv p) in
      elim (Option-cases (cascade f cfg u has_state env msg (start p)).1) [
        | inl over ↦ ground (arith, over, sound)
        | inr (pol, e) ↦ ground (
          arith,
          e,
          sound,
          add-waiting (cascade f cfg u has_state env msg (start p)).0.pipe.batcher msg pol
              (env.clock batch_site),
        )
      ]

  -- The flagged outcomes, the detector hits and the records on flagged.v1 are as many as each other,
  -- the records on deletions.v1 are as many as the automatic deletions, and a Redis that is down
  -- counts once, however many stages it skips.
  pub process-IsConsistent :
      (p : Pipe f)
      → (let t = (process f cfg u has_state env msg p).trace in
          IsConsistent t × (count is_redis_fail t ≤ 1))
  unfolding process
  process-IsConsistent p =
      ground (arith, (cascade-Sound f cfg u has_state env msg (start p) (start-Inv p)).0)
