-- ===== src/Review/Applying/Accounts.antt =====
-- What a batch adds to deletions.v1, and how its answer counts the decisions.
use dabet.Review.Decisions.Matching.{flagged_count}
use dabet.Review.Applying.Matches.{IsDecided}
use dabet.Contracts.{Deletion}
use dabet.Prelude.Dict.{lookup, string_eq}
use dabet.Review.Applying.{apply_batch, response_of, all_ignored}
use dabet.Review.Applying.Deleting.{deletions_of}
use dabet.Review.Cursors.{Cursor}
use dabet.Review.Decisions.{Decision, Correlation}
use dabet.Review.Handler.{
  CursorToken, QueuePos, State, Faults, Codec, PostResponse, Answer, ok, error, unavailable,
}
use mathlib.Core.List.{append-nil}
use dabet.Review.Decisions.{all_ids, MatchedReview}
use dabet.Review.Decisions.Matching.{matches_of-ignored_of}
use dabet.Review.Applying.Deleting.{length-deletions_of, sent_all}
use dabet.Review.Queue.{Reader, Partitioner}
use dabet.Prelude.{
  suc, ◌∙◌, sym, ap, ◌∷◌, true, [], Bool-cases, refl, ◌+◌, All, ℕ, ◌≡◌, Bool, ◌==◌, String, Option,
  none, some, List, ◌++◌, length, all, arith, inl, inr,
}
use dabet.Review.Applying.Outcomes.{
  sent_for-IsDecided, sent_for, queue_of, at_row, apply_batch_lem, IsPlanned,
}

length-all_ids : (ds : List Decision) → length (all_ids ds) ≡ length ds
length-all_ids [] = refl
length-all_ids (d ∷ ds) = ap suc (length-all_ids ds)

no_matches : (ms : List MatchedReview) → length ms ≡ 0 → flagged_count ms ≡ 0
no_matches [] h = refl
no_matches (mt ∷ ms) h = absurd (omega arith)

module _ (k : Codec) (rd : Reader) (pt : Partitioner) (ft : Faults) (acked : Deletion → Bool)
    (now : ℕ) (creator : String) where
  -- What a planned batch adds to the deletions, with the answer that it gets.
  pub record IsOutcome (at : QueuePos) (ds : List Decision) (s : State)
      (out : State × Answer PostResponse) : Type 0 where
    pub sent : List Deletion
    pub appended : out.0.produced ≡ s.produced ++ sent
    pub decided : All (IsDecided creator now ds (queue_of k rd pt ft acked now creator at)) sent
    pub accounted :
        (resp : PostResponse)
        → out.1 ≡ ok resp
        → (resp.applied + length resp.ignored ≡ length ds) × (resp.deleted ≡ length sent)

  pub accounted_for :
      (at : QueuePos) (pinned : Option CursorToken) (ds : List Decision) (to : ℕ)
      (cor : Correlation)
      → IsPlanned k rd pt ft acked now creator at pinned ds to cor
      → length cor.matches + length cor.ignored ≡ length ds
  accounted_for at pinned ds to cor p = rw (p.matched, p.left) (matches_of-ignored_of p.window ds)

  -- A batch that sends nothing, and one that sends what was planned.
  pub quiet :
      (at : QueuePos) (ds : List Decision) (s : State) (ans : Answer PostResponse)
      → ((resp : PostResponse)
          → ans ≡ ok resp
          → (resp.applied + length resp.ignored ≡ length ds) × (resp.deleted ≡ 0))
      → IsOutcome at ds s (s, ans)
  quiet at ds s ans h = record {
    sent = [];
    appended = sym (append-nil s.produced);
    decided = tt;
    accounted = h;
  }

  sending :
      (at : QueuePos) (pinned : Option CursorToken) (ds : List Decision) (to : ℕ)
      (cor : Correlation) (s s' : State) (ans : Answer PostResponse)
      → IsPlanned k rd pt ft acked now creator at pinned ds to cor
      → s'.produced ≡ s.produced ++ sent_for acked now creator cor
      → ((resp : PostResponse)
          → ans ≡ ok resp
          → (resp ≡ response_of cor) × (all acked (deletions_of creator now cor.matches) ≡ true))
      → IsOutcome at ds s (s', ans)
  sending at pinned ds to cor s s' ans p e h = record {
    sent = sent_for acked now creator cor;
    appended = e;
    decided = sent_for-IsDecided k rd pt ft acked now creator at pinned ds to cor p;
    accounted = λ resp k'.
        let (is, taken) = h resp k' in
        (
          rw is (accounted_for at pinned ds to cor p),
          rw is (
              p.deletions
              ∙ sym (length-deletions_of creator now cor.matches)
              ∙ ap length
                  (sym (sent_all creator now acked (deletions_of creator now cor.matches) taken))),
        );
  }

  at_row-IsOutcome :
      (at : QueuePos) (pinned : Option CursorToken) (ds : List Decision) (to : ℕ)
      (cor : Correlation) (s : State) (row : Option Cursor)
      → IsPlanned k rd pt ft acked now creator at pinned ds to cor
      → IsOutcome at ds s (at_row k rd pt ft acked now creator at.front to cor ds s row)
  at_row-IsOutcome at pinned ds to cor s none p =
      quiet at ds s (ok (all_ignored ds)) (λ resp e. ground (arith, length-all_ids ds))
  at_row-IsOutcome at pinned ds to cor s (some c) p =
      elim (Bool-cases (c.next_offset == at.front)) [
        | inr moved_on ↦
            rw moved_on
              (quiet at ds s (ok (all_ignored ds)) (λ resp e. ground (arith, length-all_ids ds)))
        | inl still ↦
            rw still (elim (Bool-cases (all acked (deletions_of creator now cor.matches))) [
              | inr refused ↦ rw refused (
                  sending at pinned ds to cor s _ (error unavailable) p refl
                    (λ resp e. absurd (cc)))
              | inl taken ↦ rw taken (elim (Bool-cases ft.commit_fails) [
                | inl lost ↦ simp lost (
                    sending at pinned ds to cor s _ (error unavailable) p refl
                      (λ resp e. absurd (cc)))
                | inr kept ↦ simp kept (
                    sending at pinned ds to cor s _ (ok (response_of cor)) p refl
                      (λ resp e. (ground arith, taken)))
              ])
            ])
      ]

  pub apply_batch-IsOutcome :
      (at : QueuePos) (pinned : Option CursorToken) (ds : List Decision) (to : ℕ)
      (cor : Correlation) (s : State)
      → IsPlanned k rd pt ft acked now creator at pinned ds to cor
      → IsOutcome at ds s (apply_batch k rd pt ft acked now creator at.front to cor ds s)
  apply_batch-IsOutcome at pinned ds to cor s p =
      rw (apply_batch_lem k rd pt ft acked now creator at.front to cor ds s)
        (elim (Bool-cases (length cor.matches == 0)) [
          | inl nothing ↦ rw nothing (
              quiet at ds s (ok (response_of cor)) (λ resp e.
                ground (
                  arith,
                  accounted_for at pinned ds to cor p,
                  p.deletions,
                  no_matches cor.matches,
                )))
          | inr some_there ↦ rw some_there (elim (Bool-cases ft.advance_fails) [
            | inl down ↦ simp down (quiet at ds s (error unavailable) (λ resp e. absurd (cc)))
            | inr up ↦ simp up (at_row-IsOutcome at pinned ds to cor s (lookup creator s.cursors) p)
          ])
        ])
