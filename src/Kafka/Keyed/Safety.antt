-- ===== src/Kafka/Keyed/Safety.antt =====
-- The low-water mark of the tracker of keyed.go, against the records begun and those finished.
use dabet.Kafka.Keyed.{or_else, TrackEntry, KRecord}
use dabet.Prelude.{
  length-append, All-mono, arith, ◌≤◌, length, All-append, none, [], ◌∷◌, ◌∷◌, false, All, true,
  ◌==◌, ◌++◌, ◌+◌, ◌≡◌, some, any, ◌<◌, ℕ, Option, List, refl,
}
use dabet.Prelude.Dict.{AllEntries-mono, insert-AllEntries, AllEntries, nat_eq}
use dabet.Kafka.Keyed.Tracker.{InFlight, last_of, records, is_waiting, begin_flight}
use mathlib.Core.List.{append_assoc, map-append}

-- Where a consumer would resume: after the last committed record, or at the first in flight.
abbrev pub resume_at : Option KRecord → List KRecord → Option ℕ
resume_at (some r) rs = some (r.offset + 1)
resume_at none [] = none
resume_at none (r ∷ rs) = some r.offset

abbrev pub Finished : List ℕ → KRecord → Type 0
Finished finished r = any (λ o. o == r.offset) finished ≡ true

-- What is in flight and the slots reserved for records that are not begun, against the records
-- begun, in their order, and the offsets whose handlers succeeded.
pub record IsSound (v : InFlight) (reserved : ℕ) (begun : List KRecord) (finished : List ℕ)
    : Type 0 where
  pub committed : List KRecord
  pub split : begun ≡ committed ++ records v.flying
  pub all_finished : All (Finished finished) committed
  pub done_finished : All (λ e. e.done ≡ true → Finished finished e.krec) v.flying
  pub indexed :
      AllEntries
        (λ o ref. (ref < v.allocated) × All (λ e. e.ref ≡ ref → e.krec.offset ≡ o) v.flying)
        v.index
  pub old_refs : All (λ e. e.ref < v.allocated) v.flying
  pub next_resumes : v.next ≡ resume_at (last_of committed) (records v.flying)
  pub slots_taken : v.slots ≡ length v.flying + reserved
  pub first_waits : is_waiting v.flying ≡ true
  pub in_bounds : v.slots ≤ v.max_tracked

resume_at-append :
    (o : Option KRecord) (rs : List KRecord) (r : KRecord)
    → or_else (resume_at o rs) r.offset ≡ resume_at o (rs ++ r ∷ [])
resume_at-append none [] r = refl
resume_at-append none (s ∷ rs) r = refl
resume_at-append (some s) rs r = refl

is_waiting-append :
    (es : List TrackEntry) (e : TrackEntry)
    → is_waiting es ≡ true
    → e.done ≡ false
    → is_waiting (es ++ e ∷ []) ≡ true
is_waiting-append [] e h w = rw w refl
is_waiting-append (x ∷ es) e h w = h

-- A record that is begun is in flight until it is committed.
pub begin_flight-IsSound :
    (v : InFlight) (r : KRecord) (reserved : ℕ) (begun : List KRecord) (finished : List ℕ)
    → IsSound v (reserved + 1) begun finished
    → IsSound (begin_flight v r) reserved (begun ++ r ∷ []) finished
unfolding begin_flight
begin_flight-IsSound v r reserved begun finished s =
    let e : TrackEntry = record { ref = v.allocated; krec = r; done = false } in
    record {
      committed = s.committed;
      split = rw (s.split, map-append) (append_assoc s.committed (records v.flying) (r ∷ []));
      all_finished = s.all_finished;
      done_finished = All-append _ v.flying (e ∷ []) s.done_finished (λ h. cc, tt);
      indexed =
          insert-AllEntries
            (λ o ref.
              (ref < v.allocated + 1)
              × All (λ x. x.ref ≡ ref → x.krec.offset ≡ o) (v.flying ++ e ∷ []))
            r.offset v.allocated v.index
            (
              omega arith,
              All-append (λ x. x.ref ≡ v.allocated → x.krec.offset ≡ r.offset) v.flying (e ∷ [])
                  (All-mono (λ x. x.ref < v.allocated) _ v.flying
                    (λ x old same. absurd (omega arith)) s.old_refs)
                  (λ _. refl, tt),
            )
            (AllEntries-mono _ _ v.index
              (λ o ref (old, match). (
                omega arith,
                All-append (λ x. x.ref ≡ ref → x.krec.offset ≡ o) v.flying (e ∷ []) match
                    (λ same. absurd (omega arith), tt),
              ))
              s.indexed);
      old_refs =
          All-append (λ x. x.ref < v.allocated + 1) v.flying (e ∷ [])
            (All-mono (λ x. x.ref < v.allocated) _ v.flying (λ x old. omega arith) s.old_refs)
            (omega arith, tt);
      next_resumes =
          rw (s.next_resumes, map-append)
            (resume_at-append (last_of s.committed) (records v.flying) r);
      slots_taken = omega (arith, s.slots_taken, length-append v.flying (e ∷ []));
      first_waits = is_waiting-append v.flying e s.first_waits refl;
      in_bounds = omega arith;
    }
