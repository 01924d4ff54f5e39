-- ===== src/Moderation/Service/Conservation.antt =====
-- Where the messages of the service are, whatever the order of its events.
use dabet.Moderation.Service.Verdicts.{dispatch_outcomes}
use dabet.Moderation.Pipeline.Outcomes.{process-IsConsistent, process_one_outcome}
use dabet.Moderation.Pipeline.Cascade.{process}
use dabet.Contracts.{Message}
use dabet.Moderation.Service.{Model, dispatch}
use dabet.Moderation.Service.Drain.{
  answer_all, here, next, consume, ticks, hands, drains, ends, closes, flushes, answered,
  answered_inline, Reach, Step, IsCounted, tick, handle, close, Service, queued, dispatch_async,
  flush_batches, flush_usage, flush_minutes,
}
use dabet.Moderation.Batcher.Conservation.{
  flush_all-waiting, waiting, due-waiting, carried_one, carried,
}
use dabet.Moderation.Normalize.{Unicode}
use dabet.Moderation.Pipeline.Accounting.{
  is_auto_hit, is_outcome, is_deletion_record, is_flagged_record, is_flagged_outcome, is_hit,
  IsConsistent,
}
use dabet.Moderation.Pipeline.State.{Answers, Effect, Config}
use dabet.Moderation.Batcher.{flush_all, due, Batch}
use dabet.Prelude.Floats.{Floats}
use dabet.Prelude.{
  count, suc, Bool-cases, inl, inr, inr, inl, Bool-cases, ap, none, [], ◌∷◌, some, ℕ, count-append,
  ◌+◌, ◌≡◌, arith, Bool, ◌++◌, Option, List, refl,
}

carried-append : (xs ys : List Batch) → carried (xs ++ ys) ≡ carried xs + carried ys
carried-append [] ys = omega arith
carried-append (x ∷ xs) ys = omega (arith, carried-append xs ys)

carried-queued : (o : Option Batch) → carried (queued o) ≡ carried_one o
carried-queued none = refl
carried-queued (some batch) = omega arith

append-IsConsistent : (t s : List Effect) → IsConsistent t → IsConsistent s → IsConsistent (t ++ s)
append-IsConsistent t s a b = ground (
  arith,
  count-append is_hit t s,
  count-append is_flagged_outcome t s,
  count-append is_flagged_record t s,
  count-append is_deletion_record t s,
  count-append is_auto_hit t s,
)

pub answer_all_outcomes :
    (m : ℕ → Model) (i : ℕ) (batches : List Batch) (t : List Effect)
    → IsConsistent t
    → count is_outcome (answer_all m i batches t) ≡ count is_outcome t + carried batches
unfolding answer_all
answer_all_outcomes m i [] t c = omega arith
answer_all_outcomes m i (batch ∷ rest) t c =
    let (o, k) = dispatch_outcomes (m i) batch t c in
    omega (arith, o, answer_all_outcomes m (suc i) rest (dispatch (m i) batch t) k)

taken_out :
    (xs before : List Batch) (batch : Batch) (after : List Batch)
    → xs ≡ before ++ batch ∷ after
    → carried xs ≡ carried (before ++ after) + carried_one (some batch)
taken_out xs before batch after e =
    omega (arith, ap carried e, carried-append before (batch ∷ after), carried-append before after)

dispatch_async-IsCounted :
    {f : Floats} (s : Service f) (before : List Batch) (batch : Batch) (after : List Batch)
    → s.handed ≡ before ++ batch ∷ after
    → IsCounted s
    → IsCounted (dispatch_async batch (record s { handed = before ++ after }))
unfolding dispatch_async
dispatch_async-IsCounted s before batch after e c =
    let moved = taken_out s.handed before batch after e in
    let sum = c.all_counted in
    elim (Bool-cases s.closed) [
      | inl late ↦ rw late (record { all_counted = omega arith; consistent = c.consistent })
      | inr open_still ↦
          rw open_still (record { all_counted = omega arith; consistent = c.consistent })
    ]

tick-IsCounted : {f : Floats} (now : ℕ) (s : Service f) → IsCounted s → IsCounted (tick now s)
unfolding tick
tick-IsCounted now s c = record {
  all_counted = omega (
    arith,
    c.all_counted,
    due-waiting s.pipe.batcher now,
    carried-append (due s.pipe.batcher now).1 s.handed,
  );
  consistent = c.consistent;
}

pub flush_batches-waiting :
    {f : Floats} (s : Service f) → waiting (flush_batches s).pipe.batcher ≡ 0
unfolding flush_batches
flush_batches-waiting s = ground (arith, (flush_all-waiting s.pipe.batcher).0)

pub flush_batches-IsCounted :
    {f : Floats} (s : Service f) → IsCounted s → IsCounted (flush_batches s)
unfolding flush_batches
flush_batches-IsCounted s c = record {
  all_counted = omega (
    arith,
    c.all_counted,
    flush_all-waiting s.pipe.batcher,
    flush_batches-waiting s,
    carried-append (flush_all s.pipe.batcher).1 s.inflight,
  );
  consistent = c.consistent;
}

module _ (f : Floats) (cfg : Config f) (u : Unicode) (has_state : Bool) where
  handle-IsCounted :
      (env : Answers f) (msg : Message) (s : Service f)
      → IsCounted s
      → IsCounted (handle f cfg u has_state env msg s)
  unfolding handle
  handle-IsCounted env msg s c =
      let r = process f cfg u has_state env msg s.pipe in
      record {
        all_counted = omega (
          arith,
          c.all_counted,
          process_one_outcome f cfg u has_state env msg s.pipe,
          count-append is_outcome r.trace s.trace,
          carried-append (queued r.batch) s.handed,
          carried-queued r.batch,
        );
        consistent =
            append-IsConsistent r.trace s.trace
              (process-IsConsistent f cfg u has_state env msg s.pipe).0 c.consistent;
      }

  Step-IsCounted : {s t : Service f} → Step f cfg u has_state s t → IsCounted s → IsCounted t
  unfolding flush_minutes flush_usage close
  Step-IsCounted (consume s env msg) c = handle-IsCounted env msg s c
  Step-IsCounted (ticks s now) c = tick-IsCounted now s c
  Step-IsCounted (flushes s format now) c = record {
    all_counted = c.all_counted;
    consistent = c.consistent;
  }
  Step-IsCounted (hands s before batch after e) c =
      dispatch_async-IsCounted s before batch after e c
  Step-IsCounted (closes s) c = record { all_counted = c.all_counted; consistent = c.consistent }
  Step-IsCounted (drains s closed) c = flush_batches-IsCounted s c
  Step-IsCounted (ends s format closed idle) c = record {
    all_counted = c.all_counted;
    consistent = c.consistent;
  }
  Step-IsCounted (answered s m before batch after e) c =
      let (o, k) = dispatch_outcomes m batch s.trace c.consistent in
      record {
        all_counted = omega (arith, c.all_counted, o, taken_out s.inflight before batch after e);
        consistent = k;
      }
  Step-IsCounted (answered_inline s m before batch after e) c =
      let (o, k) = dispatch_outcomes m batch s.trace c.consistent in
      record {
        all_counted = omega (arith, c.all_counted, o, taken_out s.inline before batch after e);
        consistent = k;
      }

  -- From a service that starts empty, at every moment: each consumed message is counted by exactly
  -- one outcome, or waits in the batcher, or is in a batch that the model has not answered; and the
  -- records published are those that the outcomes ask for.
  pub Reach-IsCounted : {s t : Service f} → IsCounted s → Reach f cfg u has_state s t → IsCounted t
  Reach-IsCounted c here = c
  Reach-IsCounted c (next r st) = Step-IsCounted st (Reach-IsCounted c r)
