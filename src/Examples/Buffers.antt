-- ===== src/Examples/Buffers.antt =====
-- An exclusion buffer with room for one message, to which two were added.
use dabet.Prelude.{
  ◌∷◌, ◌&&◌, count, length, some, not, none, keep, true, arith, ◌++◌, ◌+◌, ◌≤◌, ◌≡◌, refl, [],
}
use dabet.Prelude.Int.{pos, pos_part}
use dabet.Prelude.Dict.{string_eq, lookup}
use dabet.Insights.Buffer.{
  Buffer, BufferedMessage, BufferMetrics, new_buffer, add_message, flag_message, pop_due, drain,
  len_buffer, push_back, set_buffered, evict_oldest,
}
use dabet.Insights.Buffer.Synced.{IsSynced}
use dabet.Insights.Buffer.Operations.{new_buffer-IsSynced, add_message-IsSynced}
use dabet.Insights.Buffer.Conservation.{held, is_named, messages, buffer-conserves}
use dabet.Insights.Buffer.Windows.{
  names, InOrder, has_elapsed, flag_message-excludes, pop_due-exact,
}

abbrev m1 : BufferedMessage
m1 = record { message_id = "m1"; creator_id = "c"; content_id = "v"; text = "gg" }

abbrev m2 : BufferedMessage
m2 = record { message_id = "m2"; creator_id = "c"; content_id = "v"; text = "wp" }

abbrev no_metrics : BufferMetrics
no_metrics = record { buffered = 0; contamination = 0; dropped_flagged = 0; dropped_restart = 0 }

abbrev one : Buffer
one = add_message (new_buffer 10 (pos 1) no_metrics) m1 0

abbrev two : Buffer
two = add_message one m2 3

two-IsSynced : IsSynced two
two-IsSynced = add_message-IsSynced one m2 3 (
    add_message-IsSynced (new_buffer 10 (pos 1) no_metrics) m1 0
      (new_buffer-IsSynced 10 (pos 1) no_metrics))

buffer-conserves_example :
    (held (is_named "m1") (add_message two m1 4)
      ≡ held (is_named "m1") two + (elim (lookup "m1" two.entries) [
        | none ↦ count (is_named "m1") (m1 ∷ [])
        | some ref ↦ 0
      ]))
    × (held (is_named "m1") (flag_message two "m2").0
          + count (λ m. is_named "m2" m && is_named "m1" m) (messages two.order)
        ≡ held (is_named "m1") two)
    × (held (is_named "m1") (pop_due two 4).0 + count (is_named "m1") (pop_due two 4).1
        ≡ held (is_named "m1") two)
    × (held (is_named "m1") (drain two).0 ≡ 0)
    × ((drain two).1 ≡ length two.order)
buffer-conserves_example = buffer-conserves (is_named "m1") two m1 4 "m2" two-IsSynced

one_fits : len_buffer one ≤ pos_part one.max_size
unfolding len_buffer add_message new_buffer push_back set_buffered
one_fits = omega arith

m2_there : (flag_message two "m2").1 ≡ true
unfolding flag_message add_message new_buffer push_back set_buffered evict_oldest
m2_there = refl

flag_message-excludes_example :
    names "m2" (pop_due (flag_message two "m2").0 20).1 ≡ names "m2" two.ready
flag_message-excludes_example = flag_message-excludes two "m2" 20 two-IsSynced m2_there

two-InOrder : InOrder two.order
unfolding add_message new_buffer push_back set_buffered evict_oldest
two-InOrder = (tt, tt)

pop_due-exact_example :
    ((pop_due two 13).1 ≡ two.ready ++ messages (keep (has_elapsed 13) two.order))
    × ((pop_due two 13).0.order ≡ keep (λ e. not (has_elapsed 13 e)) two.order)
    × ((pop_due two 13).0.ready ≡ [])
pop_due-exact_example = pop_due-exact two 13 two-InOrder
