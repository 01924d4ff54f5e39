-- ===== src/Moderation/Service/Drain.antt =====
-- The life of the service: messages, the background loop, dispatches that end on goroutines of their
-- own, and the shutdown, in any order that the locks allow.
use dabet.Moderation.Batcher.Conservation.{carried, waiting}
use dabet.Moderation.Pipeline.Accounting.{IsConsistent, is_outcome}
use dabet.Moderation.UsageAggregator.{Aggregator}
use dabet.Moderation.Pipeline.Cascade.{process}
use dabet.Moderation.UsageAggregator
use dabet.Contracts.{Usage, Message}
use dabet.Moderation.Service.{dispatch, Model}
use dabet.Moderation.Normalize.{Unicode}
use dabet.Moderation.Pipeline.State.{Effect, Answers, Pipe, Config}
use dabet.Moderation.Batcher.{due, flush_all, Batch}
use dabet.Prelude.{
  if◌then◌else◌, suc, String, ◌≡◌, count, ◌+◌, true, none, ◌++◌, ◌∷◌, ℕ, some, [], Bool, List,
  Option,
}
use dabet.Prelude.Floats.{Floats}

-- The pipeline, the batches that the batcher released and that dispatchAsync has not been called
-- with yet, those that a goroutine of the WaitGroups dispatches, those that their caller dispatches
-- itself since the shutdown has begun, the trace of all that was made visible, and the number of
-- messages consumed.
pub record Service (f : Floats) : Type 0 where
  pub pipe : Pipe f
  pub handed : List Batch
  pub inflight : List Batch
  pub inline : List Batch
  pub closed : Bool
  pub trace : List Effect
  pub consumed : ℕ

abbrev pub queued : Option Batch → List Batch
queued none = []
queued (some batch) = batch ∷ []

-- The batches of a list are answered in turn, the one at position `i` by `m i`.
unfoldable pub answer_all : (ℕ → Model) → ℕ → List Batch → List Effect → List Effect
answer_all m i [] t = t
answer_all m i (batch ∷ rest) t = answer_all m (suc i) rest (dispatch (m i) batch t)

module _ {f : Floats} where
  -- dispatchAsync, under its lock.
  unfoldable pub dispatch_async : Batch → Service f → Service f
  dispatch_async batch s =
      if s.closed
      then record s { inline = batch ∷ s.inline }
      else record s { inflight = batch ∷ s.inflight }

  -- A tick of the background loop takes the due batches out of the batcher.
  unfoldable pub tick : ℕ → Service f → Service f
  tick now s =
      let (b, out) = due s.pipe.batcher now in
      record s { pipe = record (s.pipe) { batcher = b }; handed = out ++ s.handed }

  -- Shutdown sets its flag: from here on no new goroutine escapes.
  unfoldable pub close : Service f → Service f
  close s = record s { closed = true }

  -- Shutdown starts a goroutine for each batch that is left in the batcher.
  unfoldable pub flush_batches : Service f → Service f
  flush_batches s =
      let (b, out) = flush_all s.pipe.batcher in
      record s { pipe = record (s.pipe) { batcher = b }; inflight = out ++ s.inflight }

  -- Shutdown, after both Waits: the usage is flushed.
  unfoldable pub flush_usage : (ℕ → String) → Service f → Service f × List Usage
  flush_usage format s =
      let (usage, events) = UsageAggregator.flush_all format s.pipe.usage in
      (record s { pipe = record (s.pipe) { usage = usage } }, events)

  -- The background loop flushes the usage of the minutes that are over.
  unfoldable pub flush_minutes : (ℕ → String) → ℕ → Service f → Service f × List Usage
  flush_minutes format now s =
      let (usage, events) = UsageAggregator.flush_due format s.pipe.usage now in
      (record s { pipe = record (s.pipe) { usage = usage } }, events)

module _ (f : Floats) (cfg : Config f) (u : Unicode) (has_state : Bool) where
  -- A handler's effects follow those before it; a full batch is handed on.
  unfoldable pub handle : Answers f → Message → Service f → Service f
  handle env msg s =
      let r = process f cfg u has_state env msg s.pipe in
      record s {
        pipe = r.pipe;
        handed = queued r.batch ++ s.handed;
        trace = r.trace ++ s.trace;
        consumed = s.consumed + 1;
      }

  -- One event of the service. Handlers and the background loop may go on while Shutdown runs, also
  -- between its steps, and a dispatch may end in any order. Both Waits of Shutdown return when no
  -- dispatch of a goroutine is under way. A step stands for a section that does not overlap another.
  pub data Step : Service f → Service f → Type 0 where
    consume : (s : Service f) (env : Answers f) (msg : Message) → Step s (handle env msg s)
    ticks : (s : Service f) (now : ℕ) → Step s (tick now s)
    flushes :
        (s : Service f) (format : ℕ → String) (now : ℕ) → Step s (flush_minutes format now s).0
    hands :
        (s : Service f) (before : List Batch) (batch : Batch) (after : List Batch)
        → s.handed ≡ before ++ batch ∷ after
        → Step s (dispatch_async batch (record s { handed = before ++ after }))
    closes : (s : Service f) → Step s (close s)
    drains : (s : Service f) → s.closed ≡ true → Step s (flush_batches s)
    ends :
        (s : Service f) (format : ℕ → String)
        → s.closed ≡ true
        → s.inflight ≡ []
        → Step s (flush_usage format s).0
    answered :
        (s : Service f) (m : Model) (before : List Batch) (batch : Batch) (after : List Batch)
        → s.inflight ≡ before ++ batch ∷ after
        → Step s (record s { inflight = before ++ after; trace = dispatch m batch s.trace })
    answered_inline :
        (s : Service f) (m : Model) (before : List Batch) (batch : Batch) (after : List Batch)
        → s.inline ≡ before ++ batch ∷ after
        → Step s (record s { inline = before ++ after; trace = dispatch m batch s.trace })

  pub data Reach (s : Service f) : Service f → Type 0 where
    here : Reach s s
    next : {t v : Service f} → Reach s t → Step t v → Reach s v

-- Every message that came is counted by an outcome, or waits, or is in a batch on its way to the
-- model.
pub record IsCounted {f : Floats} (s : Service f) : Type 0 where
  pub all_counted :
      count is_outcome s.trace
        + waiting s.pipe.batcher
        + carried s.handed
        + carried s.inflight
        + carried s.inline
      ≡ s.consumed
  pub consistent : IsConsistent s.trace
