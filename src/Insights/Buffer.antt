-- ===== src/Insights/Buffer.antt =====
-- services/insights-service/internal/ingest/buffer.go: the buffer that holds a message until it may be
-- embedded. Each method holds `mu` for its whole body and is one function.
pub mod Synced
pub mod Operations
pub mod Conservation
pub mod Windows
use dabet.Prelude.{
  true, false, none, ltb, ◌==◌, ◌+◌, some, if◌then◌else◌, Bool, ◌++◌, ℕ, length, String, List, [],
  ◌∷◌,
}
use dabet.Prelude.Int.{ℤ, pos, pos_part, ltb_ℤ}
use dabet.Prelude.Dict.{string_eq, lookup, insert, delete}

pub record BufferedMessage : Type 0 where
  pub message_id : String
  pub creator_id : String
  pub content_id : String
  pub text : String

-- `ref` is the identity of the list element: the list and the map hold pointers to one element.
pub record BufferEntry : Type 0 where
  pub ref : ℕ
  pub msg : BufferedMessage
  pub deadline : ℕ

-- What the buffer counts: the gauge and the counters that it sets.
pub record BufferMetrics : Type 0 where
  pub buffered : ℕ
  pub contamination : ℕ
  pub dropped_flagged : ℕ
  pub dropped_restart : ℕ

-- `allocated` counts the elements made so far.
pub record Buffer : Type 0 where
  pub window : ℕ
  pub max_size : ℤ
  pub entries : List (String × ℕ)
  pub order : List BufferEntry
  pub ready : List BufferedMessage
  pub metrics : BufferMetrics
  pub allocated : ℕ

unfoldable pub new_buffer : ℕ → ℤ → BufferMetrics → Buffer
new_buffer window max_size metrics = record {
  window = window;
  max_size = max_size;
  entries = [];
  order = [];
  ready = [];
  metrics = metrics;
  allocated = 0;
}

unfoldable pub set_buffered : Buffer → Buffer
set_buffered b = record b { metrics = record (b.metrics) { buffered = length b.order } }

-- The oldest element goes over to `ready`; an empty list has none.
unfoldable pub evict_oldest : Buffer → List BufferEntry → Buffer
evict_oldest b [] = b
evict_oldest b (e ∷ es) = record b {
  order = es;
  entries = delete e.msg.message_id b.entries;
  ready = b.ready ++ e.msg ∷ [];
}

unfoldable pub push_back : Buffer → BufferedMessage → ℕ → Buffer
push_back b msg now = record b {
  order = b.order ++ record { ref = b.allocated; msg = msg; deadline = now + b.window } ∷ [];
  entries = insert msg.message_id b.allocated b.entries;
  allocated = b.allocated + 1;
}

unfoldable pub add_message : Buffer → BufferedMessage → ℕ → Buffer
add_message b msg now = elim (lookup msg.message_id b.entries) [
  | some ref ↦ b
  | none ↦
      let b' = push_back b msg now in
      set_buffered
        (if ltb_ℤ b.max_size (pos (length b'.order)) then evict_oldest b' b'.order else b')
]

-- list.Remove of an element.
unfoldable pub remove_ref : ℕ → List BufferEntry → List BufferEntry
remove_ref ref [] = []
remove_ref ref (e ∷ es) = if e.ref == ref then es else e ∷ remove_ref ref es

unfoldable pub flag_message : Buffer → String → Buffer × Bool
flag_message b id = elim (lookup id b.entries) [
  | none ↦ (
    record b { metrics = record (b.metrics) { contamination = b.metrics.contamination + 1 } },
    false,
  )
  | some ref ↦
      let b' = record b {
        order = remove_ref ref b.order;
        entries = delete id b.entries;
        metrics = record (b.metrics) { dropped_flagged = b.metrics.dropped_flagged + 1 };
      } in
      (set_buffered b', true)
]

pub record Pops : Type 0 where
  pub out : List BufferedMessage
  pub rest : List BufferEntry
  pub entries : List (String × ℕ)

-- The loop over the front of the list: what it releases, what it leaves.
unfoldable pub pop_loop : List BufferEntry → List (String × ℕ) → ℕ → Pops
pop_loop [] m now = record { out = []; rest = []; entries = m }
pop_loop (e ∷ es) m now =
    let p = pop_loop es (delete e.msg.message_id m) now in
    if ltb now e.deadline
    then record { out = []; rest = e ∷ es; entries = m }
    else record { out = e.msg ∷ p.out; rest = p.rest; entries = p.entries }

unfoldable pub pop_due : Buffer → ℕ → Buffer × List BufferedMessage
pop_due b now =
    let p = pop_loop b.order b.entries now in
    (set_buffered (record b { order = p.rest; entries = p.entries; ready = [] }), b.ready ++ p.out)

unfoldable pub len_buffer : Buffer → ℕ
len_buffer b = length b.order

unfoldable pub drain : Buffer → Buffer × ℕ
drain b =
    let n = length b.order in
    let dropped = if ltb 0 n then b.metrics.dropped_restart + n else b.metrics.dropped_restart in
    (
      record b {
        order = [];
        entries = [];
        ready = [];
        metrics = record (b.metrics) { dropped_restart = dropped; buffered = 0 };
      },
      n,
    )
