-- ===== src/Examples/Services.antt =====
-- A service that consumes one message and shuts down, and what it calls.
use dabet.Moderation.Batcher.Conservation.{waiting, carried}
use dabet.Moderation.Service.Verdicts.{dispatch_outcomes}
use dabet.Moderation.Service.Conservation.{Reach-IsCounted}
use dabet.Moderation.Service.Ending.{shutdown_drains}
use dabet.Moderation.Publisher.Retries.{publish_returns, IsOutcome}
use dabet.Moderation.Service.{dispatch}
use dabet.Moderation.Batcher.{flush_all, due_loop}
use dabet.Examples.Fixtures.{
  hello, answers, full_batch, open_breaker, model, ascii, pipe, config, whole,
}
use dabet.Prelude.Int.{pos}
use dabet.Moderation.PolicyCache.Lru.{IsBounded}
use dabet.Moderation.Classify.{Verdict, assemble}
use dabet.Moderation.PolicyCache.{PolicyCache}
use dabet.Moderation.Service.Drain.{
  next, here, consume, closes, handle, close, flush_batches, Service, IsCounted,
}
use dabet.Moderation.Pipeline.Accounting.{is_outcome, IsConsistent}
use dabet.Moderation.Pipeline.State.{CachedPolicy}
use dabet.Moderation.Publisher.{new_publisher, publish, Published, Broker}
use dabet.Prelude.{◌+◌, ◌≤◌, true, ◌∷◌, some, ◌≡◌, none, false, arith, [], count, List, refl}

abbrev empty_service : Service whole
empty_service = record {
  pipe = pipe open_breaker;
  handed = [];
  inflight = [];
  inline = [];
  closed = false;
  trace = [];
  consumed = 0;
}

nothing-IsConsistent : IsConsistent []
nothing-IsConsistent = record { hits = refl; records = refl; deletions = refl }

empty_service-IsCounted : IsCounted empty_service
empty_service-IsCounted = record { all_counted = refl; consistent = nothing-IsConsistent }

abbrev one_message : Service whole
one_message = handle whole config ascii true answers hello empty_service

Reach-IsCounted_example : IsCounted one_message
Reach-IsCounted_example =
    Reach-IsCounted whole config ascii true empty_service-IsCounted
      (next here (consume empty_service answers hello))

-- Shutdown has flushed the batcher when the message comes.
abbrev late_message : Service whole
late_message = handle whole config ascii true answers hello (flush_batches (close empty_service))

no_dispatch : late_message.inflight ≡ []
unfolding handle close flush_batches flush_all due_loop
no_dispatch = refl

shutdown_drains_example :
    (count is_outcome late_message.trace
        + waiting late_message.pipe.batcher
        + carried late_message.handed
        + carried late_message.inline
      ≡ late_message.consumed)
    × (waiting late_message.pipe.batcher + 0 ≤ late_message.consumed)
unfolding handle close
shutdown_drains_example =
    shutdown_drains whole config ascii true empty_service-IsCounted
      (next here (closes empty_service))
      (next here (consume (flush_batches (close empty_service)) answers hello)) no_dispatch

dispatch_outcomes_example :
    (count is_outcome (dispatch model full_batch []) ≡ 1)
    × IsConsistent (dispatch model full_batch [])
dispatch_outcomes_example = dispatch_outcomes model full_batch [] nothing-IsConsistent

abbrev one_verdict : List Verdict
one_verdict = record { i = pos 1; violates = pos 1 } ∷ []

answered_one : assemble 1 one_verdict ≡ some (pos 1 ∷ [])
unfolding assemble
answered_one = refl

abbrev deaf : Broker
deaf = record { acks = λ n. false; took = λ n. 3; cancelled = λ n. false }

publish_returns_example :
    (r : Published) × ((publish (new_publisher 30) deaf 7 ≡ some r) × IsOutcome deaf 0 r)
publish_returns_example = publish_returns 30 deaf 7

abbrev small_cache : PolicyCache
small_cache = record { ttl = 60; max_size = 2; entries = [] }

abbrev no_policy : CachedPolicy
no_policy = record { policy = none; matcher = none }

small_cache-IsBounded : IsBounded small_cache
small_cache-IsBounded = record { few = omega arith; one_each = tt }
