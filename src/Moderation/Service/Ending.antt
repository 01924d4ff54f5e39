-- ===== src/Moderation/Service/Ending.antt =====
-- Shutdown of services/moderation-service/internal/mod/pipeline.go, while handlers and the background
-- loop may still run.
use dabet.Moderation.Service.Conservation.{
  answer_all_outcomes, flush_batches-IsCounted, flush_batches-waiting, Reach-IsCounted,
}
use dabet.Moderation.Pipeline.Outcomes.{process_one_outcome}
use dabet.Contracts.{Message}
use mathlib.Core.Path.{subst}
use dabet.Moderation.Batcher.{Batch}
use dabet.Moderation.Service.{Model, dispatch}
use dabet.Moderation.Service.Drain.{
  answer_all, here, next, consume, ticks, hands, drains, ends, closes, flushes, answered,
  answered_inline, Reach, Step, IsCounted, tick, handle, close, Service, dispatch_async,
  flush_batches, flush_usage, flush_minutes,
}
use dabet.Moderation.Batcher.Conservation.{waiting, due-waiting, carried}
use dabet.Moderation.Normalize.{Unicode}
use dabet.Moderation.Pipeline.Accounting.{is_outcome}
use dabet.Moderation.Pipeline.State.{Answers, Config}
use dabet.Prelude.Floats.{Floats}
use dabet.Prelude.{suc, refl, true, List, ◌∷◌, String, count, [], ap, ℕ, ◌+◌, ◌≡◌, ◌≤◌, arith, Bool}

module _ (f : Floats) (cfg : Config f) (u : Unicode) (has_state : Bool) where
  -- Of the messages that wait, at most as many as were consumed since there were n.
  abbrev pub Late : ℕ → Service f → Type 0
  Late n s = waiting s.pipe.batcher + n ≤ s.consumed

  handle-Late :
      (n : ℕ) (env : Answers f) (msg : Message) (s : Service f)
      → Late n s
      → Late n (handle f cfg u has_state env msg s)
  unfolding handle
  handle-Late n env msg s h = omega (arith, process_one_outcome f cfg u has_state env msg s.pipe)

  Step-Late : (n : ℕ) {s t : Service f} → Step f cfg u has_state s t → Late n s → Late n t
  unfolding tick flush_minutes flush_usage close flush_batches dispatch_async
  Step-Late n (consume s env msg) h = handle-Late n env msg s h
  Step-Late n (ticks s now) h = omega (arith, due-waiting s.pipe.batcher now)
  Step-Late n (flushes s format now) h = h
  Step-Late n (hands s before batch after e) h = ground arith
  Step-Late n (closes s) h = h
  Step-Late n (drains s closed) h = omega (arith, flush_batches-waiting s)
  Step-Late n (ends s format closed idle) h = h
  Step-Late n (answered s m before batch after e) h = h
  Step-Late n (answered_inline s m before batch after e) h = h

  Reach-Late : (n : ℕ) {s t : Service f} → Late n s → Reach f cfg u has_state s t → Late n t
  Reach-Late n h here = h
  Reach-Late n h (next r st) = Step-Late n st (Reach-Late n h r)

  pub shutdown_drains :
      {s t v : Service f}
      → IsCounted s
      → Reach f cfg u has_state s t
      → Reach f cfg u has_state (flush_batches t) v
      → v.inflight ≡ []
      → (count is_outcome v.trace + waiting v.pipe.batcher + carried v.handed + carried v.inline
          ≡ v.consumed)
        × (waiting v.pipe.batcher + t.consumed ≤ v.consumed)
  shutdown_drains {t = t} {v = v} c r r' idle =
      let flushed = flush_batches-IsCounted t (Reach-IsCounted f cfg u has_state c r) in
      let all = (Reach-IsCounted f cfg u has_state flushed r').all_counted in
      let late : Late t.consumed (flush_batches t) =
        unfold flush_batches in omega (arith, flush_batches-waiting t) in
      (omega (arith, all, ap carried idle), Reach-Late t.consumed late r')

  -- Every dispatch under way is answered, the one at position `i` by `m i`.
  answered_all :
      (m : ℕ → Model) (i : ℕ) (batches : List Batch) {s : Service f} (t : Service f)
      → t.inflight ≡ batches
      → Reach f cfg u has_state s t
      → Reach f cfg u has_state s
          (record t { inflight = []; trace = answer_all m i batches t.trace })
  unfolding answer_all
  answered_all m i [] {s} t e r =
      subst (λ (b : List Batch). Reach f cfg u has_state s (record t { inflight = b })) e r
  answered_all m i (batch ∷ rest) t e r =
      answered_all m (suc i) rest
        (record t { inflight = rest; trace = dispatch (m i) batch t.trace }) refl
        (next r (answered t (m i) [] batch rest e))

  -- At every moment of a shutdown, whatever the model answers to the dispatches under way, their
  -- answers let both Waits return and the usage be flushed; each of their messages has one outcome
  -- then, and no message is consumed for it.
  pub shutdown_ends :
      {s t : Service f} (m : ℕ → Model) (format : ℕ → String)
      → IsCounted s
      → Reach f cfg u has_state s t
      → t.closed ≡ true
      → (v : Service f) × Reach f cfg u has_state t (flush_usage format v).0
        × (v.inflight ≡ [])
        × (count is_outcome v.trace ≡ count is_outcome t.trace + carried t.inflight)
        × (v.consumed ≡ t.consumed)
  shutdown_ends {t = t} m format c r closed =
      let v : Service f = record t { inflight = []; trace = answer_all m 0 t.inflight t.trace } in
      (
        v,
        next (answered_all m 0 t.inflight t refl here) (ends v format closed refl),
        refl,
        answer_all_outcomes m 0 t.inflight t.trace
            (Reach-IsCounted f cfg u has_state c r).consistent,
        refl,
      )
