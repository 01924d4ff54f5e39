-- ===== src/Review/Decisions/Matching.antt =====
-- How the decisions are matched with the events of the window: each with the first event of its
-- message id.
use mathlib.Core.List.{append_assoc, append-nil}
use dabet.Prelude.Dict.{lookup, insert, string_eq, lookup-insert}
use dabet.Review.Decisions.{
  Decision, MatchedReview, Correlation, is_flagged, index_by_id, take_decision, correlate_loop,
  correlate,
}
use dabet.Review.Window.{QueuedReview}
use dabet.Prelude.{
  ℕ, ◌+◌, ◌≡◌, refl, ◌∙◌, if◌then◌else◌, String, str_eq, str_eq_iff, Option, none, some, List, [],
  ◌∷◌, ◌++◌, length, count, arith, Option-cases, inl, inr, max,
}

unfoldable pub first_event : String → List QueuedReview → Option QueuedReview
first_event id [] = none
first_event id (q ∷ qs) = if str_eq q.item.message_id id then some q else first_event id qs

abbrev or_else : Option QueuedReview → Option QueuedReview → Option QueuedReview
or_else (some q) o = some q
or_else none o = o

-- The index finds the first event of a message id.
index_by_id_lem :
    (id : String) (m : List (String × QueuedReview)) (qs : List QueuedReview)
    → lookup id (index_by_id m qs) ≡ or_else (lookup id m) (first_event id qs)
unfolding index_by_id first_event
index_by_id_lem id m [] = ground arith
index_by_id_lem id m (q ∷ qs) = elim (Option-cases (lookup q.item.message_id m)) [
  | inl new ↦ ground (
    arith,
    index_by_id_lem id (insert q.item.message_id q m) qs,
    lookup-insert q.item.message_id id q m,
    str_eq_iff q.item.message_id id,
  )
  | inr (old, is_old) ↦ ground (arith, index_by_id_lem id m qs, str_eq_iff q.item.message_id id)
]

-- The matches, the ignored ids and the front after the last match, decision by decision.
module _ (window : List QueuedReview) where
  unfoldable pub matches_of : List Decision → List MatchedReview
  matches_of [] = []
  matches_of (d ∷ ds) = elim (first_event d.message_id window) [
    | none ↦ matches_of ds
    | some q ↦ record { event = q; flagged = is_flagged d } ∷ matches_of ds
  ]

  unfoldable pub ignored_of : List Decision → List String
  ignored_of [] = []
  ignored_of (d ∷ ds) = elim (first_event d.message_id window) [
    | none ↦ d.message_id ∷ ignored_of ds
    | some q ↦ ignored_of ds
  ]

unfoldable pub past : ℕ → List MatchedReview → ℕ
past front [] = front
past front (mt ∷ ms) = past (max front (mt.event.offset + 1)) ms

abbrev pub flagged_count : List MatchedReview → ℕ
flagged_count ms = count (λ mt. mt.flagged) ms

abbrev added : Correlation → List MatchedReview → List String → Correlation
added c ms ids = record {
  matches = c.matches ++ ms;
  ignored = c.ignored ++ ids;
  advance = past c.advance ms;
  deletion = c.deletion + flagged_count ms;
}

abbrev skip : Correlation → Decision → Correlation
skip c d = record c { ignored = c.ignored ++ d.message_id ∷ [] }

abbrev hit : Correlation → Decision → QueuedReview → Correlation
hit c d q = record {
  matches = c.matches ++ record { event = q; flagged = is_flagged d } ∷ [];
  ignored = c.ignored;
  advance = max c.advance (q.offset + 1);
  deletion = c.deletion + (if is_flagged d then 1 else 0);
}

added-skip :
    (c : Correlation) (d : Decision) (ms : List MatchedReview) (ids : List String)
    → added (skip c d) ms ids ≡ added c ms (d.message_id ∷ ids)
added-skip c d ms ids = ground (arith, append_assoc c.ignored (d.message_id ∷ []) ids)

added-hit :
    (c : Correlation) (d : Decision) (q : QueuedReview) (ms : List MatchedReview)
    (ids : List String)
    → added (hit c d q) ms ids ≡ added c (record { event = q; flagged = is_flagged d } ∷ ms) ids
unfolding past
added-hit c d q ms ids =
    ground (arith, append_assoc c.matches (record { event = q; flagged = is_flagged d } ∷ []) ms)

module _ (window : List QueuedReview) where
  take_decision-skip :
      (c : Correlation) (d : Decision)
      → first_event d.message_id window ≡ none
      → take_decision (index_by_id [] window) c d ≡ skip c d
  unfolding take_decision
  take_decision-skip c d h = rw (take_decision, index_by_id_lem d.message_id [] window, h) refl

  take_decision-hit :
      (c : Correlation) (d : Decision) (q : QueuedReview)
      → first_event d.message_id window ≡ some q
      → take_decision (index_by_id [] window) c d ≡ hit c d q
  unfolding take_decision
  take_decision-hit c d q h =
      rw (take_decision, index_by_id_lem d.message_id [] window, h) (ground arith)

  correlate_loop_lem :
      (c : Correlation) (ds : List Decision)
      → correlate_loop (index_by_id [] window) c ds
        ≡ added c (matches_of window ds) (ignored_of window ds)
  unfolding correlate_loop matches_of ignored_of past
  correlate_loop_lem c [] = ground (arith, append-nil c.matches, append-nil c.ignored)
  correlate_loop_lem c (d ∷ ds) = elim (Option-cases (first_event d.message_id window)) [
    | inl out ↦
        rw (take_decision-skip c d out, matches_of, ignored_of, out)
          (correlate_loop_lem (skip c d) ds
            ∙ added-skip c d (matches_of window ds) (ignored_of window ds))
    | inr (q, found) ↦
        rw (take_decision-hit c d q found, matches_of, ignored_of, found)
          (correlate_loop_lem (hit c d q) ds
            ∙ added-hit c d q (matches_of window ds) (ignored_of window ds))
  ]

  -- The matches are the decisions whose message has an event in the window, each with the first
  -- such event; the others are ignored; the front goes past the last match; and the deletions are
  -- the matches that are flagged.
  pub correlate_lem :
      (front : ℕ) (ds : List Decision)
      → correlate front window ds ≡ record {
        matches = matches_of window ds;
        ignored = ignored_of window ds;
        advance = past front (matches_of window ds);
        deletion = flagged_count (matches_of window ds);
      }
  unfolding correlate
  correlate_lem front ds =
      correlate_loop_lem (record { matches = []; ignored = []; advance = front; deletion = 0 }) ds
      ∙ ground arith

  -- Each decision is matched or ignored.
  pub matches_of-ignored_of :
      (ds : List Decision)
      → length (matches_of window ds) + length (ignored_of window ds) ≡ length ds
  unfolding matches_of ignored_of
  matches_of-ignored_of [] = omega arith
  matches_of-ignored_of (d ∷ ds) = ground (arith, matches_of-ignored_of ds)
