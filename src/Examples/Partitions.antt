-- ===== src/Examples/Partitions.antt =====
-- A partition with two records that finish out of order, and its workers.
use dabet.Prelude.{
  none, ◌<◌, All, ◌≢◌, some, max, length, ◌++◌, ◌≤◌, ◌≡◌, ℕ, keep, arith, List, ◌+◌, refl, [], ◌∷◌,
}
use dabet.Prelude.Int.{pos, pos_part}
use dabet.Kafka.Keyed.{
  pop_done, set_done, compact, KRecord, OffsetTracker, new_offset_tracker, reserve, begin, complete,
  pending, worker_for,
}
use dabet.Kafka.Keyed.Tracker.{view, complete_flight, complete_refines, last_of}
use dabet.Kafka.Keyed.Safety.{Finished}
use dabet.Kafka.Keyed.Life.{Reached, complete-commits, pending-IsBounded}
use dabet.Kafka.Keyed.Workers.{
  Ran, Subs, Workers, idle_workers, busy_at, on_it, push_to, rest_at, same_key, key-in_order,
}

abbrev r4 : KRecord
r4 = record { offset = 4; leader_epoch = 1; key = 97 ∷ [] }

abbrev r7 : KRecord
r7 = record { offset = 7; leader_epoch = 1; key = 98 ∷ [] }

abbrev empty : OffsetTracker
empty = new_offset_tracker (pos 8)

abbrev one_slot : OffsetTracker
one_slot = record empty { slots = 1 }

abbrev one_begun : OffsetTracker
one_begun = begin one_slot r4

abbrev two_slots : OffsetTracker
two_slots = record one_begun { slots = 2 }

abbrev both_begun : OffsetTracker
both_begun = begin two_slots r7

one-Reached : Reached (pos 8) one_slot 1 [] []
unfolding new_offset_tracker reserve
one-Reached = Reached.reserves {n = 0} one_slot Reached.made refl

two-Reached : Reached (pos 8) two_slots 1 (r4 ∷ []) []
unfolding new_offset_tracker reserve begin
two-Reached = Reached.reserves {n = 0} two_slots (Reached.begins {n = 0} r4 one-Reached) refl

both-Reached : Reached (pos 8) both_begun 0 (r4 ∷ r7 ∷ []) []
both-Reached = Reached.begins {n = 0} r7 two-Reached

last_done : Reached (pos 8) (complete both_begun 7).0 0 (r4 ∷ r7 ∷ []) (7 ∷ [])
last_done = Reached.completes 7 both-Reached

returns_r7 : (complete (complete both_begun 7).0 4).1 ≡ some r7
unfolding new_offset_tracker begin complete compact set_done pop_done
returns_r7 = refl

complete-commits_example :
    (committed : List KRecord) × (waiting : List KRecord) × (r4 ∷ r7 ∷ [] ≡ committed ++ waiting)
    × (last_of committed ≡ some r7)
    × All (Finished (4 ∷ 7 ∷ [])) committed
complete-commits_example =
    complete-commits (pos 8) (complete both_begun 7).0 0 (r4 ∷ r7 ∷ []) (7 ∷ []) 4 r7 last_done
      returns_r7

pending-IsBounded_example :
    (pending both_begun + 0 ≡ both_begun.slots) × (both_begun.slots ≤ max (pos_part (pos 8)) 1)
pending-IsBounded_example = pending-IsBounded (pos 8) both_begun 0 (r4 ∷ r7 ∷ []) [] both-Reached

head_inside : both_begun.head ≤ length both_begun.q
unfolding new_offset_tracker begin
head_inside = omega arith

complete_refines_example :
    (let (t', r) = complete both_begun 7 in (view t', r) ≡ complete_flight (view both_begun) 7)
    × ((complete both_begun 7).0.head ≤ length (complete both_begun 7).0.q)
complete_refines_example = complete_refines both_begun 7 head_inside

-- Two workers; the record of key "a" is sent, and taken by its worker.
abbrev owner_a : ℕ
owner_a = worker_for (97 ∷ []) 2

abbrev no_records : Subs
no_records i = []

-- It is sent to the channel of its worker, taken, and handled.
abbrev sent_a : Workers
sent_a = record idle_workers { subs = push_to owner_a r4 no_records; routed = r4 ∷ [] }

abbrev on_a : Workers
on_a = record sent_a {
  subs = rest_at owner_a [] (push_to owner_a r4 no_records);
  busy = busy_at owner_a (some r4) (λ i. none);
}

owner_inside : owner_a < 2
unfolding worker_for
owner_inside = ground arith

sent : Ran 2 4 sent_a
sent = Ran.sends r4 Ran.started owner_inside (omega arith)

waits_first : push_to owner_a r4 no_records owner_a ≡ r4 ∷ []
unfolding worker_for
waits_first = ground arith

taken : Ran 2 4 on_a
taken = Ran.takes owner_a r4 [] sent refl waits_first

key-in_order_example :
    (owner_a < 2)
    × (keep (λ r. same_key r.key (97 ∷ [])) (on_a.handled owner_a ++ on_it (on_a.busy owner_a))
          ++ keep (λ r. same_key r.key (97 ∷ [])) (on_a.subs owner_a)
        ≡ keep (λ r. same_key r.key (97 ∷ [])) (r4 ∷ []))
    × ((i : ℕ)
        → i ≢ owner_a
        → keep (λ r. same_key r.key (97 ∷ [])) (on_a.handled i ++ on_it (on_a.busy i)) ≡ [])
key-in_order_example = key-in_order 2 4 (97 ∷ []) (omega arith) taken
