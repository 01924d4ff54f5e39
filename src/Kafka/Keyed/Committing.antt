-- ===== src/Kafka/Keyed/Committing.antt =====
-- `complete` of the tracker of keyed.go: the prefix that it commits.
use dabet.Kafka.Keyed.Safety.{IsSound, Finished, resume_at}
use dabet.Kafka.Keyed.Marking.{
  widen, last_of-after, widen-IsSound, set_done-Finished, set_done-All, popped-Finished,
  unpopped-All, no_pop, length-pop,
}
use dabet.Kafka.Keyed.{pop_done, set_done, TrackEntry, KRecord}
use mathlib.Core.Path.{subst}
use dabet.Prelude.{
  Option-cases, ◌-◌, sym, ap, ◌∙◌, inr, inl, All-mono, arith, length, All-append, none, ◌∷◌, ◌∷◌,
  All, true, ◌++◌, ◌+◌, ◌≡◌, some, ◌<◌, ℕ, List,
}
use dabet.Prelude.Dict.{lookup-AllEntries, lookup, AllEntries-mono, AllEntries, nat_eq}
use dabet.Kafka.Keyed.Tracker.{
  pop_done-AllEntries, unpopped-waits, length-set_done, complete_flight, popped-append-unpopped,
  records-set_done, unpopped, popped, InFlight, last_of, records, is_waiting,
}
use mathlib.Core.List.{append_assoc, map-append}

module _ (v : InFlight) (o ref reserved : ℕ) (begun : List KRecord) (finished : List ℕ)
    (s : IsSound v reserved begun finished) (found : lookup o v.index ≡ some ref) where
  es : List TrackEntry
  es = set_done ref v.flying

  marked-done : All (λ e. e.done ≡ true → Finished (o ∷ finished) e.krec) es
  unfolding es
  marked-done =
      set_done-Finished ref o finished v.flying s.done_finished
        (lookup-AllEntries
          (λ o ref. (ref < v.allocated) × All (λ e. e.ref ≡ ref → e.krec.offset ≡ o) v.flying) o ref
          v.index s.indexed found).1

  marked-indexed :
      AllEntries
        (λ o ref. (ref < v.allocated) × All (λ e. e.ref ≡ ref → e.krec.offset ≡ o) (unpopped es))
        v.index
  unfolding es
  marked-indexed =
      AllEntries-mono _ _ v.index
        (λ p r (old, m).
          (old, unpopped-All _ es (set_done-All (λ x k. x ≡ r → k.offset ≡ p) ref v.flying m)))
        s.indexed

  marked-old : All (λ e. e.ref < v.allocated) (unpopped es)
  unfolding es
  marked-old = unpopped-All _ es (set_done-All (λ x k. x < v.allocated) ref v.flying s.old_refs)

  -- The records popped go over to the committed ones.
  marked-split : begun ≡ (s.committed ++ records (popped es)) ++ records (unpopped es)
  unfolding es
  marked-split =
      s.split
      ∙ ap (λ rs. s.committed ++ rs)
          (sym (records-set_done ref v.flying)
            ∙ ap records (popped-append-unpopped (set_done ref v.flying))
            ∙ map-append (λ e. e.krec) (popped (set_done ref v.flying))
                (unpopped (set_done ref v.flying)))
      ∙ sym (
          append_assoc s.committed (records (popped (set_done ref v.flying)))
            (records (unpopped (set_done ref v.flying))))

  committed-Finished : All (Finished (o ∷ finished)) (s.committed ++ records (popped es))
  unfolding es
  committed-Finished =
      All-append _ s.committed (records (popped (set_done ref v.flying)))
        (All-mono (Finished finished) _ s.committed (widen o finished) s.all_finished)
        (popped-Finished (o ∷ finished) (set_done ref v.flying) marked-done)

  -- An entry that is marked while an earlier one runs stays where it is.
  marked-IsSound :
      unpopped es ≡ es → IsSound (record v { flying = es }) reserved begun (o ∷ finished)
  unfolding es
  marked-IsSound stays = record {
    committed = s.committed;
    split = s.split ∙ ap (λ rs. s.committed ++ rs) (sym (records-set_done ref v.flying));
    all_finished = All-mono (Finished finished) _ s.committed (widen o finished) s.all_finished;
    done_finished = marked-done;
    indexed =
        AllEntries-mono _ _ v.index
          (λ p r (old, m). (old, set_done-All (λ x k. x ≡ r → k.offset ≡ p) ref v.flying m))
          s.indexed;
    old_refs = set_done-All (λ x k. x < v.allocated) ref v.flying s.old_refs;
    next_resumes =
        s.next_resumes ∙ ap (resume_at (last_of s.committed)) (sym (records-set_done ref v.flying));
    slots_taken = omega (arith, s.slots_taken, length-set_done ref v.flying);
    first_waits = ap is_waiting (sym stays) ∙ unpopped-waits (set_done ref v.flying);
    in_bounds = s.in_bounds;
  }

  -- The finished prefix is committed.
  committing-IsSound :
      (r : KRecord)
      → last_of (records (popped es)) ≡ some r
      → IsSound
          (record v {
            flying = unpopped es;
            index = (pop_done es v.index).index;
            next = some (r.offset + 1);
            slots = v.slots - length (popped es);
          })
          reserved
          begun
          (o ∷ finished)
  unfolding es
  committing-IsSound r last =
      let es' = set_done ref v.flying in
      record {
        committed = s.committed ++ records (popped es');
        split = marked-split;
        all_finished = committed-Finished;
        done_finished = unpopped-All _ es' marked-done;
        indexed = pop_done-AllEntries _ es' v.index marked-indexed;
        old_refs = marked-old;
        next_resumes =
            ap (λ l. resume_at l (records (unpopped es')))
              (sym (last_of-after s.committed (records (popped es')) r last));
        slots_taken = omega (arith, s.slots_taken, length-pop es', length-set_done ref v.flying);
        first_waits = unpopped-waits es';
        in_bounds = omega (arith, s.in_bounds);
      }

-- A handler that succeeds: its record is finished, and the prefix that is finished is committed.
pub complete_flight-IsSound :
    (v : InFlight) (o reserved : ℕ) (begun : List KRecord) (finished : List ℕ)
    → IsSound v reserved begun finished
    → IsSound (complete_flight v o).0 reserved begun (o ∷ finished)
unfolding complete_flight es
complete_flight-IsSound v o reserved begun finished s = elim (Option-cases (lookup o v.index)) [
  | inl unknown ↦
      subst (λ w. IsSound w reserved begun (o ∷ finished)) (unknown_lem unknown)
        (widen-IsSound v o reserved begun finished s)
  | inr (ref, found) ↦ elim (Option-cases (last_of (records (popped (set_done ref v.flying))))) [
    | inl nothing ↦
        subst (λ w. IsSound w reserved begun (o ∷ finished)) (marked_lem ref found nothing)
          (marked-IsSound v o ref reserved begun finished s found
            (no_pop (set_done ref v.flying) nothing))
    | inr (r, last) ↦
        subst (λ w. IsSound w reserved begun (o ∷ finished)) (committing_lem ref r found last)
          (committing-IsSound v o ref reserved begun finished s found r last)
  ]
]
  where
    unknown_lem : lookup o v.index ≡ none → v ≡ (complete_flight v o).0
    unknown_lem unknown = ground (arith, unknown)

    marked_lem :
        (ref : ℕ)
        → lookup o v.index ≡ some ref
        → last_of (records (popped (set_done ref v.flying))) ≡ none
        → record v { flying = set_done ref v.flying } ≡ (complete_flight v o).0
    marked_lem ref found nothing = ground (arith, found, nothing)

    committing_lem :
        (ref : ℕ) (r : KRecord)
        → lookup o v.index ≡ some ref
        → last_of (records (popped (set_done ref v.flying))) ≡ some r
        → record v {
          flying = unpopped (set_done ref v.flying);
          index = (pop_done (set_done ref v.flying) v.index).index;
          next = some (r.offset + 1);
          slots = v.slots - length (popped (set_done ref v.flying));
        }
          ≡ (complete_flight v o).0
    committing_lem ref r found last = ground (arith, found, last)

-- What is committed is a prefix of the records begun, all finished.
pub complete_flight-commits :
    (v : InFlight) (o reserved : ℕ) (begun : List KRecord) (finished : List ℕ) (r : KRecord)
    → IsSound v reserved begun finished
    → (complete_flight v o).1 ≡ some r
    → (committed : List KRecord) × (waiting : List KRecord) × (begun ≡ committed ++ waiting)
      × (last_of committed ≡ some r)
      × All (Finished (o ∷ finished)) committed
unfolding complete_flight es
complete_flight-commits v o reserved begun finished r s h = elim (Option-cases (lookup o v.index)) [
  | inl unknown ↦ absurd (ground (arith, unknown, h))
  | inr (ref, found) ↦
      let es' = set_done ref v.flying in
      elim (Option-cases (last_of (records (popped es')))) [
        | inl nothing ↦ absurd (ground (arith, found, nothing, h))
        | inr (r', last) ↦
            let same : r' ≡ r = ground (arith, found, last, h) in
            (
              s.committed ++ records (popped es'),
              records (unpopped es'),
              marked-split v o ref reserved begun finished s found,
              last_of-after s.committed (records (popped es')) r' last ∙ ap some same,
              committed-Finished v o ref reserved begun finished s found,
            )
      ]
]
