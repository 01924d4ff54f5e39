-- ===== src/Insights/Buffer/Operations.antt =====
-- The operations of the exclusion buffer (services/insights-service/internal/ingest/buffer.go) on a
-- buffer whose map and list agree.
use dabet.Prelude.{
  false, none, str_eq, ap, ◌∙◌, sym, true, some, ltb, ◌≡◌, if◌then◌else◌, Bool-cases, length, inr,
  ◌<◌, inl, All, Option-cases, ℕ, String, List, refl, [], ◌∷◌,
}
use dabet.Prelude.Int.{ℤ, pos, ltb_ℤ}
use dabet.Prelude.Dict.{DistinctKeys, string_eq, lookup, delete, lookup-delete, delete-DistinctKeys}
use dabet.Insights.Buffer.{
  Buffer, BufferEntry, BufferedMessage, BufferMetrics, new_buffer, add_message, flag_message,
  pop_due, pop_loop, drain, push_back, evict_oldest, set_buffered,
}
use dabet.Insights.Buffer.Synced.{
  IsSynced, Agree, Ordered, find_ref, front-Agree, push_back-IsSynced, evict_oldest-IsSynced,
  find_ref-remove, remove_ref-Ordered, remove_ref-All,
}

set_buffered-IsSynced : (b : Buffer) → IsSynced b → IsSynced (set_buffered b)
unfolding set_buffered
set_buffered-IsSynced b s = record {
  agree = s.agree;
  distinct = s.distinct;
  ordered = s.ordered;
  old_refs = s.old_refs;
}

pub new_buffer-IsSynced :
    (window : ℕ) (max_size : ℤ) (metrics : BufferMetrics)
    → IsSynced (new_buffer window max_size metrics)
unfolding new_buffer
new_buffer-IsSynced window max_size metrics = record {
  agree = λ id. refl;
  distinct = tt;
  ordered = tt;
  old_refs = tt;
}

pub add_message-IsSynced :
    (b : Buffer) (msg : BufferedMessage) (now : ℕ) → IsSynced b → IsSynced (add_message b msg now)
unfolding add_message
add_message-IsSynced b msg now s = elim (Option-cases (lookup msg.message_id b.entries)) [
  | inl new ↦
      let b' = push_back b msg now in
      let s' = push_back-IsSynced b msg now s new in
      rw (new, add_message)
        (set_buffered-IsSynced _
          (elim (ltb_ℤ b.max_size (pos (length b'.order)))
            as (λ t. IsSynced (if t then evict_oldest b' b'.order else b')) [
              | true ↦ evict_oldest-IsSynced b' b'.order refl s'
              | false ↦ s'
            ]))
  | inr (ref, held) ↦ rw (held, add_message) s
]

pub flag_message-IsSynced : (b : Buffer) (id : String) → IsSynced b → IsSynced (flag_message b id).0
unfolding flag_message set_buffered
flag_message-IsSynced b id s = elim (Option-cases (lookup id b.entries)) [
  | inl absent ↦
      rw (absent, flag_message)
        (record {
          agree = s.agree;
          distinct = s.distinct;
          ordered = s.ordered;
          old_refs = s.old_refs;
        })
  | inr (ref, held) ↦
      let found : find_ref id b.order ≡ some ref = sym (s.agree id) ∙ held in
      rw (held, flag_message)
        (record {
          agree = λ j.
              lookup-delete id j b.entries s.distinct
              ∙ ap (λ o. if str_eq id j then none else o) (s.agree j)
              ∙ sym (find_ref-remove id j ref b.order s.ordered found);
          distinct = delete-DistinctKeys id b.entries s.distinct;
          ordered = remove_ref-Ordered id ref b.order s.ordered found;
          old_refs = remove_ref-All (λ e. e.ref < b.allocated) ref b.order s.old_refs;
        })
]

-- What the loop of PopDue leaves.
pop_loop-keeps :
    (es : List BufferEntry) (m : List (String × ℕ)) (now bound : ℕ)
    → Agree m es
    → DistinctKeys m
    → Ordered es
    → All (λ e. e.ref < bound) es
    → (let p = pop_loop es m now in
        Agree p.entries p.rest
        × (DistinctKeys p.entries × (Ordered p.rest × All (λ e. e.ref < bound) p.rest)))
unfolding pop_loop
pop_loop-keeps [] m now bound a d o r = (a, (d, (o, r)))
pop_loop-keeps (e ∷ es) m now bound a d (once, (after, o)) (h, r) =
    elim (Bool-cases (ltb now e.deadline)) [
      | inl waits ↦ rw waits (a, (d, ((once, (after, o)), (h, r))))
      | inr due ↦ rw due (
          pop_loop-keeps es (delete e.msg.message_id m) now bound
            (front-Agree e es m a d (once, (after, o))) (delete-DistinctKeys e.msg.message_id m d) o
            r)
    ]

pub pop_due-IsSynced : (b : Buffer) (now : ℕ) → IsSynced b → IsSynced (pop_due b now).0
unfolding pop_due set_buffered
pop_due-IsSynced b now s =
    let (a, (d, (o, r))) =
      pop_loop-keeps b.order b.entries now b.allocated s.agree s.distinct s.ordered s.old_refs in
    record { agree = a; distinct = d; ordered = o; old_refs = r }

pub drain-IsSynced : (b : Buffer) → IsSynced (drain b).0
unfolding drain
drain-IsSynced b = record { agree = λ id. refl; distinct = tt; ordered = tt; old_refs = tt }
