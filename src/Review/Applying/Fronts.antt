-- ===== src/Review/Applying/Fronts.antt =====
-- Where the front of a queue stands after a POST without a cursor.
use dabet.Review.Applying.Plain.{plain_post, plain_replay, finish_post-keeps, plain}
use dabet.Contracts.{Deletion}
use dabet.Prelude.Dict.{lookup, insert, string_eq, lookup-insert}
use dabet.Review.Applying.{replayed, apply_batch, run_batch, plan_batch, post_reviews, window_shape}
use dabet.Review.Applying.Matches.{IsMatched, matches_of-All, past_front}
use dabet.Review.Applying.Outcomes.{queue_of, plan_batch-IsPlanned, apply_batch_lem}
use dabet.Review.Cursors.{Cursor, Rows, moved}
use dabet.Review.Decisions.{Decision, Correlation, MatchedReview, validate_decisions}
use dabet.Review.Decisions.Matching.{past, matches_of}
use dabet.Review.Handler.{State, Faults, Codec, ok, QueuePos, resolve_queue}
use dabet.Review.Handler.Reading.{IsLive, resolve_queue-live, place_of}
use mathlib.Core.Path.{subst₂}
use dabet.Prelude.{In-All, In, ◌||◌}
use dabet.Review.Queue.{Reader, Partitioner}
use dabet.Review.Window.{QueuedReview}
use dabet.Prelude.{
  leb, ◌⊎◌, ℕ, ◌+◌, ◌≤◌, ◌≡◌, refl, ◌∙◌, Bool, false, String, str_eq, str_eq_iff, none, some, List,
  [], ◌∷◌, All, All-mono, arith, Option-cases, inl, inr, Bool-cases, max,
}

-- Where an advance ends: where it began, or right after one of the matches.
past-reached {κ} :
    (P : MatchedReview → Type κ) (front : ℕ) (ms : List MatchedReview)
    → All P ms
    → (past front ms ≡ front)
      ⊎ ((mt : MatchedReview) × (P mt × (past front ms ≡ mt.event.offset + 1)))
unfolding past
past-reached P front [] a = inl refl
past-reached P front (mt ∷ ms) (h, a) =
    elim (past-reached P (max front (mt.event.offset + 1)) ms a) [
      | inr later ↦ inr later
      | inl e ↦ elim (Bool-cases (leb (mt.event.offset + 1) front)) [
        | inl behind ↦ inl (ground (arith, e, behind))
        | inr ahead ↦ inr (mt, (h, ground (arith, e, ahead)))
      ]
    ]

-- The row of a creator, and those of the others: the front does not move back, and where it moves it
-- stands right after an event of the queue that a decision names.
pub record IsAt (creator : String) (ds : List Decision) (queue : List QueuedReview)
    (rows rows' : Rows) (part from : ℕ) : Type 0 where
  pub front : ℕ
  pub placed : place_of (lookup creator rows') ≡ some (part, front)
  pub forward : from ≤ front
  pub reached :
      (front ≡ from)
      ⊎ ((mt : MatchedReview) × (IsMatched ds queue mt × (front ≡ mt.event.offset + 1)))
  pub others :
      (other : String) → str_eq creator other ≡ false → lookup other rows' ≡ lookup other rows

module _ (k : Codec) (rd : Reader) (pt : Partitioner) (ft : Faults) (acked : Deletion → Bool)
    (now : ℕ) (creator : String) where
  stays :
      (ds : List Decision) (queue : List QueuedReview) (rows : Rows) (c : Cursor)
      → lookup creator rows ≡ some c
      → IsAt creator ds queue rows rows c.partition c.next_offset
  stays ds queue rows c there = record {
    front = c.next_offset;
    placed = rw there refl;
    forward = omega arith;
    reached = inl refl;
    others = λ other d. refl;
  }

  moves :
      (ds : List Decision) (queue : List QueuedReview) (rows : Rows) (c : Cursor) (to : ℕ)
      → c.next_offset ≤ to
      → (to ≡ c.next_offset)
        ⊎ ((mt : MatchedReview) × (IsMatched ds queue mt × (to ≡ mt.event.offset + 1)))
      → IsAt creator ds queue rows (insert creator (moved now to c) rows) c.partition c.next_offset
  moves ds queue rows c to h g = record {
    front = to;
    placed =
        ground
          (arith, lookup-insert creator creator (moved now to c) rows, str_eq_iff creator creator);
    forward = h;
    reached = g;
    others = λ other d. ground (arith, lookup-insert creator other (moved now to c) rows);
  }

  -- The transaction moves the row to its target or leaves it.
  apply_batch-cursors :
      (front to : ℕ) (cor : Correlation) (ds : List Decision) (s : State) (c : Cursor)
      → lookup creator s.cursors ≡ some c
      → ((apply_batch k rd pt ft acked now creator front to cor ds s).0.cursors ≡ s.cursors)
        ⊎ ((apply_batch k rd pt ft acked now creator front to cor ds s).0.cursors
            ≡ insert creator (moved now to c) s.cursors)
  apply_batch-cursors front to cor ds s c there =
      ground (arith, apply_batch_lem k rd pt ft acked now creator front to cor ds s)

  widened :
      (at : QueuePos) (ds : List Decision) (window : List QueuedReview)
      → All (λ q. In q (queue_of k rd pt ft acked now creator at)) window
      → (mt : MatchedReview) → IsMatched ds window mt
      → IsMatched ds (queue_of k rd pt ft acked now creator at) mt
  widened at ds window inside mt m = record {
    decision = m.decision;
    given = m.given;
    as_flagged = m.as_flagged;
    in_window =
        In-All (λ q. In q (queue_of k rd pt ft acked now creator at)) mt.event window m.in_window
          inside;
    on_message = m.on_message;
  }

  run_batch-IsAt :
      (at : QueuePos) (ds : List Decision) (s : State) (c : Cursor)
      → lookup creator s.cursors ≡ some c
      → c.next_offset ≡ at.front
      → IsAt creator ds
          (queue_of k rd pt ft acked now creator at)
          s.cursors
          (run_batch k rd pt ft acked now creator none ds (s, ok at)).0.cursors
          c.partition
          c.next_offset
  unfolding run_batch
  run_batch-IsAt at ds s c there still =
      let queue = queue_of k rd pt ft acked now creator at in
      elim (Option-cases (plan_batch k rd pt ft acked now creator at none ds)) [
        | inl e ↦ rw (run_batch, e) (stays ds queue s.cursors c there)
        | inr ((to, cor), e) ↦
            let p = plan_batch-IsPlanned k rd pt ft acked now creator at none ds to cor e in
            let ends : to ≡ past at.front cor.matches =
              unfold window_shape in p.target ∙ p.past_matches in
            let named : All (IsMatched ds queue) cor.matches = rw (p.matched) (
              All-mono (IsMatched ds p.window) (IsMatched ds queue) (matches_of p.window ds)
                (λ mt m. widened at ds p.window p.inside mt m) (matches_of-All p.window ds)) in
            let reached : (to ≡ c.next_offset)
                ⊎ ((mt : MatchedReview) × (IsMatched ds queue mt × (to ≡ mt.event.offset + 1))) =
              rw (ends, still) (past-reached (IsMatched ds queue) at.front cor.matches named) in
            let ahead : c.next_offset ≤ to = omega (arith, past_front at.front cor.matches) in
            rw (run_batch, e)
              (elim (apply_batch-cursors at.front to cor ds s c there) [
                | inl same ↦ rw same (stays ds queue s.cursors c there)
                | inr rows ↦ rw rows (moves ds queue s.cursors c to ahead reached)
              ])
      ]

  -- A POST without a cursor to a live queue, with an idempotency key or without one and whatever
  -- fails: it leaves the cursors of the others and never moves the front back, and where it moves the
  -- front, it moves it right after an event of the queue that one of its decisions names.
  pub post_reviews-IsAt :
      (ds : List Decision) (key : String) (s : State) (l : IsLive rd pt creator s)
      → IsAt creator ds
          (queue_of k rd pt ft acked now creator l.at)
          s.cursors
          (post_reviews k rd pt ft acked now creator (plain ds) key s).0.cursors
          l.at.part
          l.at.front
  unfolding post_reviews run_batch
  post_reviews-IsAt ds key s l =
      let queue = queue_of k rd pt ft acked now creator l.at in
      let still = stays ds queue s.cursors l.row l.is_row in
      subst₂
        (λ (a b : ℕ).
          IsAt creator ds queue s.cursors
            (post_reviews k rd pt ft acked now creator (plain ds) key s).0.cursors a b)
        l.on_partition l.at_front
        (elim (Option-cases (validate_decisions ds)) [
          | inr (e, bad) ↦ rw (post_reviews, bad) still
          | inl good ↦ elim (Option-cases (replayed k rd pt ft acked now creator key s)) [
            | inr (stored, there) ↦
                rw (plain_replay k rd pt ft acked now creator ds key s stored good there) still
            | inl new ↦
                rw
                  (
                    plain_post k rd pt ft acked now creator ds key s good new,
                    (finish_post-keeps k rd pt ft acked now creator key (
                        run_batch k rd pt ft acked now creator none ds
                          (resolve_queue ft now creator rd pt s))).0,
                    resolve_queue-live ft now creator rd pt s l,
                  )
                  (elim (Bool-cases (ft.insert_fails || ft.select_fails)) [
                    | inl down ↦ simp down still
                    | inr up ↦ simp up (run_batch-IsAt l.at ds s l.row l.is_row l.at_front)
                  ])
          ]
        ])
