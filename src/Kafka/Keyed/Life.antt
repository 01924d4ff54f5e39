-- ===== src/Kafka/Keyed/Life.antt =====
-- The life of the tracker of a partition (route and runSub of keyed.go): the coordinator reserves a
-- slot and begins a record, the workers complete records in any order, between any two of its steps.
-- A partition that is torn down stops after any step.
use dabet.Prelude.Int.{ℤ}
use dabet.Prelude.{
  ◌∙◌, ap, sym, max, All, ◌<◌, ◌∷◌, ◌++◌, arith, ◌+◌, some, length, ◌≤◌, ◌≡◌, [], List, ℕ, refl,
}
use mathlib.Core.Path.{subst}
use dabet.Prelude.Int.{ℤ, pos_part}
use dabet.Kafka.Keyed.{
  compact, OffsetTracker, KRecord, new_offset_tracker, reserve, begin, complete, mark, pending,
}
use dabet.Kafka.Keyed.Tracker.{length-drop, view, begin_refines, complete_refines, records, last_of}
use dabet.Kafka.Keyed.Committing.{complete_flight-IsSound, complete_flight-commits}
use dabet.Kafka.Keyed.Safety.{IsSound, Finished, resume_at, begin_flight-IsSound}

-- A tracker, the slots reserved for records that are not begun, the records begun and the offsets
-- whose handlers succeeded.
pub data Reached (max_tracked : ℤ) : OffsetTracker → ℕ → List KRecord → List ℕ → Type 0 where
  made : Reached max_tracked (new_offset_tracker max_tracked) 0 [] []
  reserves :
      {t : OffsetTracker} {n : ℕ} {begun : List KRecord} {finished : List ℕ} (t' : OffsetTracker)
      → Reached max_tracked t n begun finished
      → reserve t ≡ some t'
      → Reached max_tracked t' (n + 1) begun finished
  begins :
      {t : OffsetTracker} {n : ℕ} {begun : List KRecord} {finished : List ℕ} (r : KRecord)
      → Reached max_tracked t (n + 1) begun finished
      → Reached max_tracked (begin t r) n (begun ++ r ∷ []) finished
  completes :
      {t : OffsetTracker} {n : ℕ} {begun : List KRecord} {finished : List ℕ} (offset : ℕ)
      → Reached max_tracked t n begun finished
      → Reached max_tracked (complete t offset).0 n begun (offset ∷ finished)

reserve-cases :
    (t t' : OffsetTracker)
    → reserve t ≡ some t'
    → (t.slots < t.max_tracked) × (record t { slots = t.slots + 1 } ≡ t')
unfolding reserve
reserve-cases t t' h = ground arith

reserve-IsSound :
    (t : OffsetTracker) (n : ℕ) (begun : List KRecord) (finished : List ℕ)
    → t.slots < t.max_tracked
    → IsSound (view t) n begun finished
    → IsSound (view (record t { slots = t.slots + 1 })) (n + 1) begun finished
reserve-IsSound t n begun finished h s = record {
  committed = s.committed;
  split = s.split;
  all_finished = s.all_finished;
  done_finished = s.done_finished;
  indexed = s.indexed;
  old_refs = s.old_refs;
  next_resumes = s.next_resumes;
  slots_taken = omega (arith, s.slots_taken);
  first_waits = s.first_waits;
  in_bounds = omega arith;
}

made-IsSound : (max_tracked : ℤ) → IsSound (view (new_offset_tracker max_tracked)) 0 [] []
unfolding new_offset_tracker
made-IsSound max_tracked = record {
  committed = [];
  split = refl;
  all_finished = tt;
  done_finished = tt;
  indexed = tt;
  old_refs = tt;
  next_resumes = refl;
  slots_taken = refl;
  first_waits = refl;
  in_bounds = omega arith;
}

made-head :
    (max_tracked : ℤ)
    → (new_offset_tracker max_tracked).head ≤ length (new_offset_tracker max_tracked).q
unfolding new_offset_tracker
made-head max_tracked = omega arith

Reached-IsSound :
    (max_tracked : ℤ) {t : OffsetTracker} {n : ℕ} {begun : List KRecord} {finished : List ℕ}
    → Reached max_tracked t n begun finished
    → IsSound (view t) n begun finished × (t.head ≤ length t.q)
Reached-IsSound max_tracked made = (made-IsSound max_tracked, made-head max_tracked)
Reached-IsSound max_tracked (reserves {t} {n} {begun} {finished} t' p h) =
    let (free, same) = reserve-cases t t' h in
    let (s, inside) = Reached-IsSound max_tracked p in
    subst (λ u. IsSound (view u) (n + 1) begun finished × (u.head ≤ length u.q)) same
      (reserve-IsSound t n begun finished free s, inside)
Reached-IsSound max_tracked (begins {t} {n} {begun} {finished} r p) =
    let (s, inside) = Reached-IsSound max_tracked p in
    let (same, inside') = begin_refines t r inside in
    (
      subst (λ v. IsSound v n (begun ++ r ∷ []) finished) (sym same)
          (begin_flight-IsSound (view t) r n begun finished s),
      inside',
    )
Reached-IsSound max_tracked (completes {t} {n} {begun} {finished} o p) =
    let (s, inside) = Reached-IsSound max_tracked p in
    let (same, inside') = complete_refines t o inside in
    (
      subst (λ v. IsSound v n begun (o ∷ finished)) (sym (ap (λ x. x.0) same))
          (complete_flight-IsSound (view t) o n begun finished s),
      inside',
    )

complete-max_tracked : (t : OffsetTracker) (o : ℕ) → (complete t o).0.max_tracked ≡ t.max_tracked
unfolding complete compact
complete-max_tracked t o = ground arith

Reached-max_tracked :
    (max_tracked : ℤ) {t : OffsetTracker} {n : ℕ} {begun : List KRecord} {finished : List ℕ}
    → Reached max_tracked t n begun finished
    → t.max_tracked ≡ max (pos_part max_tracked) 1
unfolding new_offset_tracker begin
Reached-max_tracked max_tracked made = ground arith
Reached-max_tracked max_tracked (reserves {t} t' p h) =
    sym (ap (λ u. u.max_tracked) (reserve-cases t t' h).1) ∙ Reached-max_tracked max_tracked p
Reached-max_tracked max_tracked (begins r p) = Reached-max_tracked max_tracked p
Reached-max_tracked max_tracked (completes {t} o p) =
    complete-max_tracked t o ∙ Reached-max_tracked max_tracked p

-- A record that `complete` returns, the one handed to MarkCommitRecords, is the last of a prefix of
-- the records begun all of which are finished: in a tracker that was reached, with `offset` counted
-- as finished.
pub complete-commits :
    (max_tracked : ℤ) (t : OffsetTracker) (n : ℕ) (begun : List KRecord) (finished : List ℕ)
    (offset : ℕ) (r : KRecord)
    → Reached max_tracked t n begun finished
    → (complete t offset).1 ≡ some r
    → (committed : List KRecord) × (waiting : List KRecord) × (begun ≡ committed ++ waiting)
      × (last_of committed ≡ some r)
      × All (Finished (offset ∷ finished)) committed
complete-commits max_tracked t n begun finished offset r p h =
    let (s, inside) = Reached-IsSound max_tracked p in
    let (same, _) = complete_refines t offset inside in
    complete_flight-commits (view t) offset n begun finished r s (sym (ap (λ x. x.1) same) ∙ h)

-- The mark of a tracker that was reached: after a prefix of the records begun that are all finished,
-- the offset after its last record, and before any is committed that of the first record begun.
pub mark-resumes :
    (max_tracked : ℤ) (t : OffsetTracker) (n : ℕ) (begun : List KRecord) (finished : List ℕ)
    → Reached max_tracked t n begun finished
    → (committed : List KRecord) × (waiting : List KRecord) × (begun ≡ committed ++ waiting)
      × All (Finished finished) committed
      × (mark t ≡ resume_at (last_of committed) waiting)
unfolding mark
mark-resumes max_tracked t n begun finished p =
    let (s, _) = Reached-IsSound max_tracked p in
    (s.committed, records (view t).flying, s.split, s.all_finished, s.next_resumes)

-- A tracker that was reached never has more records in flight, with the slots reserved, than the
-- bound it was made with, or than one where that is smaller.
pub pending-IsBounded :
    (max_tracked : ℤ) (t : OffsetTracker) (n : ℕ) (begun : List KRecord) (finished : List ℕ)
    → Reached max_tracked t n begun finished
    → (pending t + n ≡ t.slots) × (t.slots ≤ max (pos_part max_tracked) 1)
unfolding pending
pending-IsBounded max_tracked t n begun finished p =
    let (s, inside) = Reached-IsSound max_tracked p in
    omega (
      arith,
      s.slots_taken,
      s.in_bounds,
      length-drop t.head t.q inside,
      Reached-max_tracked max_tracked p,
    )
