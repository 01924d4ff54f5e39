-- ===== src/Insights/Buffer/Windows.antt =====
-- What the exclusion buffer (services/insights-service/internal/ingest/buffer.go) holds, releases and
-- drops.
use dabet.Prelude.{
  ◌-◌, ltb→lt, All-mono, ltb, ◌||◌, str_eq_iff, not, leb, any, ◌<◌, ◌≤◌, true, keep, false, Bool,
  All, ◌++◌, sym, ◌∙◌, inr, inl, str_eq, length-append, Option-cases, ap, Bool-cases, some, none,
  arith, ◌+◌, ◌≡◌, length, ℕ, String, List, refl, [], ◌∷◌,
}
use dabet.Prelude.Int.{pos_part}
use dabet.Prelude.Dict.{string_eq, lookup, delete}
use dabet.Insights.Buffer.Conservation.{messages}
use dabet.Insights.Buffer.{
  Buffer, BufferEntry, BufferedMessage, add_message, flag_message, pop_due, pop_loop, push_back,
  evict_oldest, set_buffered, remove_ref, len_buffer,
}
use dabet.Insights.Buffer.Synced.{IsSynced, find_ref, find_ref-remove}

evict_oldest-length :
    (b : Buffer) (es : List BufferEntry)
    → b.order ≡ es
    → length (evict_oldest b es).order ≡ length es - 1
unfolding evict_oldest
evict_oldest-length b [] h = ap length h
evict_oldest-length b (e ∷ es) h = omega arith

-- The buffer never holds more messages than its size, where it did not before.
pub add_message-IsBounded :
    (b : Buffer) (msg : BufferedMessage) (now : ℕ)
    → len_buffer b ≤ pos_part b.max_size
    → len_buffer (add_message b msg now) ≤ pos_part b.max_size
unfolding add_message set_buffered len_buffer push_back
add_message-IsBounded b msg now h = elim (Option-cases (lookup msg.message_id b.entries)) [
  | inr (ref, there) ↦ ground (arith, there)
  | inl new ↦
      let b' = push_back b msg now in
      ground (
        arith,
        new,
        evict_oldest-length b' b'.order refl,
        length-append b.order
            (record { ref = b.allocated; msg = msg; deadline = now + b.window } ∷ []),
      )
]

-- No message of an identifier is among some messages.
abbrev pub names : String → List BufferedMessage → Bool
names id ms = any (λ m. str_eq m.message_id id) ms

names-append :
    (id : String) (ms ns : List BufferedMessage)
    → names id (ms ++ ns) ≡ (names id ms || names id ns)
names-append id [] ns = refl
names-append id (m ∷ ms) ns = ground (arith, names-append id ms ns)

pop_loop-names :
    (id : String) (es : List BufferEntry) (m : List (String × ℕ)) (now : ℕ)
    → find_ref id es ≡ none
    → names id (pop_loop es m now).out ≡ false
unfolding pop_loop
pop_loop-names id [] m now h = refl
pop_loop-names id (e ∷ es) m now h =
    ground (arith, h, pop_loop-names id es (delete e.msg.message_id m) now)

-- In a buffer whose map and list agree, a flag that finds its message keeps it from being released:
-- a PopDue after it releases a message of that identifier only if an earlier copy had been evicted.
pub flag_message-excludes :
    (b : Buffer) (id : String) (now : ℕ)
    → IsSynced b
    → (flag_message b id).1 ≡ true
    → names id (pop_due (flag_message b id).0 now).1 ≡ names id b.ready
unfolding flag_message pop_due set_buffered
flag_message-excludes b id now s h = elim (Option-cases (lookup id b.entries)) [
  | inl absent ↦ absurd (ground (arith, absent, h))
  | inr (ref, there) ↦
      let found : find_ref id b.order ≡ some ref = sym (s.agree id) ∙ there in
      let gone : find_ref id (remove_ref ref b.order) ≡ none =
        ground (arith, find_ref-remove id id ref b.order s.ordered found, str_eq_iff id id) in
      ground (
        arith,
        there,
        names-append id b.ready (pop_loop (remove_ref ref b.order) (delete id b.entries) now).out,
        pop_loop-names id (remove_ref ref b.order) (delete id b.entries) now gone,
      )
]

-- The deadlines do not fall, as they do not on a clock that does not run backwards.
abbrev pub InOrder : List BufferEntry → Type 0
InOrder [] = Unit
InOrder (e ∷ es) = All (λ x. e.deadline ≤ x.deadline) es × InOrder es

abbrev pub has_elapsed : ℕ → BufferEntry → Bool
has_elapsed now e = leb e.deadline now

none_due :
    (now : ℕ) (es : List BufferEntry)
    → All (λ e. now < e.deadline) es
    → (keep (has_elapsed now) es ≡ []) × (keep (λ e. not (has_elapsed now e)) es ≡ es)
none_due now [] a = (refl, refl)
none_due now (e ∷ es) (h, a) = ground (arith, none_due now es a)

pop_loop-exact :
    (es : List BufferEntry) (m : List (String × ℕ)) (now : ℕ)
    → InOrder es
    → ((pop_loop es m now).out ≡ messages (keep (has_elapsed now) es))
      × ((pop_loop es m now).rest ≡ keep (λ e. not (has_elapsed now e)) es)
unfolding pop_loop
pop_loop-exact [] m now o = (refl, refl)
pop_loop-exact (e ∷ es) m now (after, o) = elim (Bool-cases (ltb now e.deadline)) [
  | inl waits ↦
      let (nothing, all_stay) = none_due now es (
        All-mono (λ x. e.deadline ≤ x.deadline) _ es
          (λ x h. omega (arith, ltb→lt now e.deadline waits)) after) in
      ground (arith, waits, nothing, all_stay)
  | inr due ↦ ground (arith, due, pop_loop-exact es (delete e.msg.message_id m) now o)
]

-- Where the deadlines are in order, PopDue releases the messages evicted before, then exactly those
-- whose window has elapsed, in the order of their arrival, and keeps the others.
pub pop_due-exact :
    (b : Buffer) (now : ℕ)
    → InOrder b.order
    → ((pop_due b now).1 ≡ b.ready ++ messages (keep (has_elapsed now) b.order))
      × ((pop_due b now).0.order ≡ keep (λ e. not (has_elapsed now e)) b.order)
      × ((pop_due b now).0.ready ≡ [])
unfolding pop_due set_buffered
pop_due-exact b now o =
    let (out, rest) = pop_loop-exact b.order b.entries now o in
    (ap (λ l. b.ready ++ l) out, rest, refl)
