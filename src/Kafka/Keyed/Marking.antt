-- ===== src/Kafka/Keyed/Marking.antt =====
-- Marking an entry of the tracker of keyed.go, and popping the finished prefix: what either keeps.
use dabet.Kafka.Keyed.Safety.{IsSound, Finished}
use dabet.Kafka.Keyed.{set_done, TrackEntry, KRecord}
use mathlib.Core.Path.{subst}
use dabet.Prelude.{
  sym, inr, inl, Bool-cases, ==_iff, All-mono, arith, length, none, [], ◌∷◌, ◌∷◌, false, All, true,
  ◌==◌, ◌++◌, ◌+◌, ◌≡◌, some, ℕ, List, refl,
}
use dabet.Prelude.Dict.{nat_eq}
use dabet.Kafka.Keyed.Tracker.{unpopped, popped, InFlight, last_of, records}

pub widen :
    (o : ℕ) (finished : List ℕ) (r : KRecord) → Finished finished r → Finished (o ∷ finished) r
widen o finished r h = ground arith

pub last_of-append :
    (rs ss : List KRecord)
    → last_of (rs ++ ss) ≡ elim (last_of ss) [ none ↦ last_of rs | some s ↦ some s ]
last_of-append [] ss = ground arith
last_of-append (r ∷ rs) ss = ground (arith, last_of-append rs ss)

pub last_of-after :
    (rs ss : List KRecord) (r : KRecord) → last_of ss ≡ some r → last_of (rs ++ ss) ≡ some r
last_of-after rs ss r h = ground (arith, last_of-append rs ss)

pub widen-IsSound :
    (v : InFlight) (o reserved : ℕ) (begun : List KRecord) (finished : List ℕ)
    → IsSound v reserved begun finished
    → IsSound v reserved begun (o ∷ finished)
widen-IsSound v o reserved begun finished s = record {
  committed = s.committed;
  split = s.split;
  all_finished = All-mono (Finished finished) _ s.committed (widen o finished) s.all_finished;
  done_finished =
      All-mono (λ e. e.done ≡ true → Finished finished e.krec) _ v.flying
        (λ e f done. widen o finished e.krec (f done)) s.done_finished;
  indexed = s.indexed;
  old_refs = s.old_refs;
  next_resumes = s.next_resumes;
  slots_taken = s.slots_taken;
  first_waits = s.first_waits;
  in_bounds = s.in_bounds;
}

-- The entry that is marked is the one whose handler succeeded.
pub set_done-Finished :
    (ref o : ℕ) (finished : List ℕ) (es : List TrackEntry)
    → All (λ e. e.done ≡ true → Finished finished e.krec) es
    → All (λ e. e.ref ≡ ref → e.krec.offset ≡ o) es
    → All (λ e. e.done ≡ true → Finished (o ∷ finished) e.krec) (set_done ref es)
unfolding set_done
set_done-Finished ref o finished [] d m = tt
set_done-Finished ref o finished (e ∷ es) (f, d) (same, m) =
    (λ h. ground (arith, ==_iff e.ref ref), set_done-Finished ref o finished es d m)

-- What does not depend on `done` is kept.
pub set_done-All :
    (P : ℕ → KRecord → Type 0) (ref : ℕ) (es : List TrackEntry)
    → All (λ e. P e.ref e.krec) es
    → All (λ e. P e.ref e.krec) (set_done ref es)
unfolding set_done
set_done-All P ref [] a = tt
set_done-All P ref (e ∷ es) (h, a) = (
  elim (Bool-cases (e.ref == ref)) [ inl same ↦ rw same h | inr other ↦ rw other h ],
  set_done-All P ref es a,
)

pub popped-Finished :
    (finished : List ℕ) (es : List TrackEntry)
    → All (λ e. e.done ≡ true → Finished finished e.krec) es
    → All (Finished finished) (records (popped es))
popped-Finished finished [] a = tt
popped-Finished finished (e ∷ es) (h, a) = elim (Bool-cases e.done) [
  | inl done ↦ rw done (h done, popped-Finished finished es a)
  | inr running ↦ rw running tt
]

pub unpopped-All : (P : TrackEntry → Type 0) (es : List TrackEntry) → All P es → All P (unpopped es)
unpopped-All P [] a = tt
unpopped-All P (e ∷ es) (h, a) = elim (Bool-cases e.done) [
  | inl done ↦ subst (All P) (sym (popping done)) (unpopped-All P es a)
  | inr running ↦ subst (All P) (sym (stopping running)) (h, a)
]
  where
    popping : e.done ≡ true → unpopped (e ∷ es) ≡ unpopped es
    popping done = rw done refl

    stopping : e.done ≡ false → unpopped (e ∷ es) ≡ e ∷ es
    stopping running = ground arith

pub no_pop : (es : List TrackEntry) → last_of (records (popped es)) ≡ none → unpopped es ≡ es
no_pop [] h = refl
no_pop (e ∷ es) h = ground arith

pub length-pop : (es : List TrackEntry) → length (popped es) + length (unpopped es) ≡ length es
length-pop [] = refl
length-pop (e ∷ es) = ground (arith, length-pop es)
