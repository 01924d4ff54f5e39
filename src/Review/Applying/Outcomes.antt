-- ===== src/Review/Applying/Outcomes.antt =====
-- What the transaction of a batch does, and the window that a batch is planned on.
use dabet.Review.Decisions.Matching.{flagged_count, past, ignored_of, matches_of, correlate_lem}
use dabet.Review.Applying.Matches.{deletions_of-IsDecided, IsDecided}
use dabet.Review.Window.Following.{waiting}
use dabet.Review.Window.{collect, QueuedReview}
use dabet.Contracts.{Deletion}
use dabet.Prelude.Dict.{lookup, insert, string_eq}
use dabet.Review.Applying.{
  advance_to, window_shape, plan_batch, apply_batch, response_of, all_ignored, produce_flagged,
}
use dabet.Review.Applying.Deleting.{
  sent-All, collect-waiting, deletions_of, sent, produce_flagged_lem,
}
use dabet.Review.Cursors.{Cursor, moved}
use dabet.Review.Cursors.Lookups.{advance_row_lem, advance_row_absent}
use dabet.Review.Decisions.{Decision, Correlation}
use dabet.Review.Handler.{
  CursorToken, QueuePos, State, Faults, Codec, PostResponse, Answer, ok, error, unavailable,
}
use mathlib.Core.Path.{subst}
use dabet.Review.Applying.Deleting.{collect_bounded}
use dabet.Review.Queue.{Reader, Partitioner}
use dabet.Prelude.{
  In-all, In, All, ◌<◌, ℕ, ◌≡◌, Bool, not, ◌==◌, if◌then◌else◌, String, Option, none, some, List,
  ◌++◌, length, all, arith, Option-cases, inl, inr,
}

module _ (acked : Deletion → Bool) (now : ℕ) (creator : String) where
  -- The deletions that the broker has taken when the transaction ends.
  abbrev pub sent_for : Correlation → List Deletion
  sent_for cor = sent creator now acked (deletions_of creator now cor.matches)

module _ (k : Codec) (rd : Reader) (pt : Partitioner) (ft : Faults) (acked : Deletion → Bool)
    (now : ℕ) (creator : String) where
  -- The transaction, once the row is locked.
  abbrev pub at_row :
      ℕ → ℕ → Correlation → List Decision → State → Option Cursor → State × Answer PostResponse
  at_row front to cor ds s none = (s, ok (all_ignored ds))
  at_row front to cor ds s (some c) =
      if not (c.next_offset == front)
      then (s, ok (all_ignored ds))
      else let s' = record s { produced = s.produced ++ sent_for acked now creator cor } in
        if not (all acked (deletions_of creator now cor.matches))
        then (s', error unavailable)
        else if ft.commit_fails
        then (s', error unavailable)
        else (
          record s' { cursors = insert creator (moved now to c) s.cursors },
          ok (response_of cor),
        )

  pub apply_batch_lem :
      (front to : ℕ) (cor : Correlation) (ds : List Decision) (s : State)
      → apply_batch k rd pt ft acked now creator front to cor ds s ≡ (
          if length cor.matches == 0
          then (s, ok (response_of cor))
          else if ft.advance_fails
          then (s, error unavailable)
          else at_row front to cor ds s (lookup creator s.cursors))
  unfolding apply_batch
  apply_batch_lem front to cor ds s =
      let mid = produce_flagged acked creator now cor.matches in
      elim (Option-cases (lookup creator s.cursors)) [
        | inl absent ↦ rw absent (
            ground (arith, advance_row_absent now creator s.cursors front to mid s.produced absent))
        | inr (c, there) ↦ rw there (
            ground (
              arith,
              advance_row_lem now creator s.cursors front to mid s.produced c there,
              produce_flagged_lem creator now acked cor.matches s.produced,
            ))
      ]

  abbrev pub queue_of : QueuePos → List QueuedReview
  queue_of at = waiting k.decode_flagged rd at.part creator at.front

  -- A batch is planned on a window of the events that wait from the front on.
  pub record IsPlanned (at : QueuePos) (pinned : Option CursorToken) (ds : List Decision) (to : ℕ)
      (cor : Correlation) : Type 0 where
    pub window : List QueuedReview
    pub inside : All (λ q. In q (queue_of at)) window
    pub bounded :
        (e : ℕ) → (window_shape at pinned).scan_end ≡ some e → All (λ q. q.offset < e) window
    pub matched : cor.matches ≡ matches_of window ds
    pub left : cor.ignored ≡ ignored_of window ds
    pub past_matches : cor.advance ≡ past at.front cor.matches
    pub deletions : cor.deletion ≡ flagged_count cor.matches
    pub target : to ≡ advance_to (window_shape at pinned) cor

  window_shape_max :
      (at : QueuePos) (pinned : Option CursorToken) → 0 < (window_shape at pinned).max_match
  unfolding window_shape
  window_shape_max at none = omega arith
  window_shape_max at (some ct) = ground arith

  pub plan_batch-IsPlanned :
      (at : QueuePos) (pinned : Option CursorToken) (ds : List Decision) (to : ℕ)
      (cor : Correlation)
      → plan_batch k rd pt ft acked now creator at pinned ds ≡ some (to, cor)
      → IsPlanned at pinned ds to cor
  unfolding plan_batch
  plan_batch-IsPlanned at pinned ds to cor h =
      let shape = window_shape at pinned in
      elim (Option-cases
        (collect k.decode_flagged rd at.part at.front shape.scan_end shape.max_match creator)) [
          | inl e ↦ let h' = rw (plan_batch, e) at h in absurd (cc)
          | inr (c, e) ↦
              let h' = rw (plan_batch, e) at h in
              let is = correlate_lem c.items at.front ds in
              record {
                window = c.items;
                inside =
                    collect-waiting k.decode_flagged creator (λ q. In q (queue_of at)) rd at.part
                      at.front shape.scan_end shape.max_match c (window_shape_max at pinned) e
                      (In-all (queue_of at));
                bounded = λ e' is_end.
                    collect_bounded k.decode_flagged creator rd at.part at.front e' shape.max_match
                      c (window_shape_max at pinned)
                      (subst
                        (λ (o : Option ℕ).
                          collect k.decode_flagged rd at.part at.front o shape.max_match creator
                          ≡ some c)
                        is_end e);
                matched = ground arith;
                left = ground arith;
                past_matches = ground arith;
                deletions = ground arith;
                target = ground arith;
              }
        ]

  -- Of a batch that was planned, every deletion is one that it asks for.
  pub sent_for-IsDecided :
      (at : QueuePos) (pinned : Option CursorToken) (ds : List Decision) (to : ℕ)
      (cor : Correlation)
      → IsPlanned at pinned ds to cor
      → All (IsDecided creator now ds (queue_of at)) (sent_for acked now creator cor)
  sent_for-IsDecided at pinned ds to cor p =
      sent-All creator now acked (IsDecided creator now ds (queue_of at))
        (deletions_of creator now cor.matches)
        (rw (p.matched) (deletions_of-IsDecided creator now ds p.window (queue_of at) p.inside))
