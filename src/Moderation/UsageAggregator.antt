-- ===== src/Moderation/UsageAggregator.antt =====
-- services/moderation-service/internal/mod/usage.go: the counter of processed messages per creator
-- and minute, and its flush to usage.v1. A time is in nanoseconds; the rendering of a minute in the
-- idempotency key is Go's time format, a parameter. `Inc` and `FlushDue` read the clock before they
-- take the lock: `now` is what they read, and the functions are the sections under the lock, so other
-- sections may come between a reading and its section.
pub mod Conservation
pub mod Windows
pub mod Lives
use Prim.Native.String.{◌++◌ as str_append}
use dabet.Prelude.{
  ℕ, ◌+◌, ◌*◌, ◌/◌, Bool, true, false, ◌&&◌, Option, none, some, List, [], ◌∷◌, String, ltb, str_eq,
  ◌==◌, map, ◌≡◌, ◌↔◌, arith, if◌then◌else◌, str_eq_iff,
}
use dabet.Prelude.Dict.{Eq, lookup, insert}
use dabet.Contracts.{Usage, messages_processed}

pub record Window : Type 0 where
  pub minute : ℕ
  pub creator : String

pub window_beq_iff :
    (a b : Window) → ((a.minute == b.minute && str_eq a.creator b.creator) ≡ true) ↔ (a ≡ b)
window_beq_iff a b = (
  λ h. ground (arith, str_eq_iff a.creator b.creator),
  λ e. ground (arith, str_eq_iff a.creator b.creator),
)

instance abbrev pub window_eq : Eq Window
window_eq = record {
  beq = λ a b. a.minute == b.minute && str_eq a.creator b.creator;
  beq_iff = window_beq_iff;
}

abbrev pub nanos_per_minute : ℕ
nanos_per_minute = 60000000000

-- Unix time / 60.
abbrev pub minute_of : ℕ → ℕ
minute_of now = now / nanos_per_minute

pub record Aggregator : Type 0 where
  pub instance_id : String
  pub counts : List (Window × ℕ)

unfoldable pub new_aggregator : String → Aggregator
new_aggregator instance_id = record { instance_id = instance_id; counts = [] }

abbrev pub or_zero : Option ℕ → ℕ
or_zero none = 0
or_zero (some n) = n

unfoldable pub inc : Aggregator → String → ℕ → Aggregator
inc u creator_id now =
    let w : Window = record { minute = minute_of now; creator = creator_id } in
    record u { counts = insert w (or_zero (lookup w u.counts) + 1) u.counts }

-- The loop of `flush` under the lock: what stays, and what is ready.
unfoldable pub split_due :
    (Window → Bool) → List (Window × ℕ) → List (Window × ℕ) × List (Window × ℕ)
split_due test [] = ([], [])
split_due test ((w, n) ∷ m) =
    let (kept, ready) = split_due test m in
    if test w then (kept, (w, n) ∷ ready) else ((w, n) ∷ kept, ready)

-- "mod:{instance_id}:{minute}:{creator_id}".
abbrev pub usage_idempotency_key : (ℕ → String) → String → ℕ → String → String
usage_idempotency_key format instance_id window_start creator_id = str_append "mod:" (
    str_append instance_id
      (str_append ":" (str_append (format window_start) (str_append ":" creator_id))))

abbrev pub event_of : (ℕ → String) → String → Window × ℕ → Usage
event_of format instance_id (w, n) =
    let start = w.minute * nanos_per_minute in
    record {
      creator_id = w.creator;
      event_type = messages_processed;
      quantity = n;
      window_start = start;
      window_end = start + nanos_per_minute;
      idempotency_key = usage_idempotency_key format instance_id start w.creator;
    }

-- The aggregator after a flush, and the events that it hands to the publisher.
unfoldable pub flush : (ℕ → String) → (Window → Bool) → Aggregator → Aggregator × List Usage
flush format test u =
    let (kept, ready) = split_due test u.counts in
    (record u { counts = kept }, map (event_of format u.instance_id) ready)

unfoldable pub flush_due : (ℕ → String) → Aggregator → ℕ → Aggregator × List Usage
unfolding flush
flush_due format u now = flush format (λ w. ltb w.minute (minute_of now)) u

unfoldable pub flush_all : (ℕ → String) → Aggregator → Aggregator × List Usage
unfolding flush
flush_all format u = flush format (λ _. true) u
