-- ===== src/Review/Applying/Replays.antt =====
-- A batch that is posted again.
use dabet.Review.Applying.Plain.{plain_post, plain_replay, plain_run, finish_post-keeps, plain}
use dabet.Review.Applying.Accounts.{accounted_for}
use dabet.Review.Decisions.Accepting.{validate_decisions_iff}
use dabet.Contracts.{Deletion}
use dabet.Prelude.Dict.{lookup, insert, string_eq, lookup-insert}
use dabet.Review.Applying.{
  replayed, post_reviews, run_batch, finish_post, plan_batch, apply_batch, all_ignored, apply_batch,
  window_shape,
}
use dabet.Review.Applying.Behind.{none_left, DistinctEvents, IsHit, matches_of-IsHit, nothing_found}
use dabet.Review.Applying.Matches.{past_front, past_all}
use dabet.Review.Applying.Outcomes.{queue_of, IsPlanned, plan_batch-IsPlanned, apply_batch_lem}
use dabet.Review.Cursors.{Cursor, moved}
use dabet.Review.Decisions.{MatchedReview, Decision, Correlation, all_ids, correlate}
use dabet.Review.Decisions.Matching.{first_event, past, correlate_lem}
use dabet.Review.Handler.{State, Faults, Codec, PostResponse, ok, QueuePos, max_limit}
use dabet.Review.Handler.Reading.{IsLive, resolve_queue-live}
use mathlib.Core.Path.{subst}
use dabet.Review.Queue.{IsReader, Reader, Partitioner}
use dabet.Review.Window.{QueuedReview}
use dabet.Review.Window.Following.{waiting-later, waiting}
use dabet.Review.Window.Pages.{collect-page}
use dabet.Prelude.{
  In, str_eq_iff, ℕ, ◌≤◌, ◌<◌, ◌≡◌, refl, sym, ap, ◌∙◌, Bool, false, String, none, some, List, [],
  length, take, All, arith, Option-cases, inl, inr,
}

abbrev pub nothing_matched : List Decision → ℕ → Correlation
nothing_matched ds front = record {
  matches = [];
  ignored = all_ids ds;
  advance = front;
  deletion = 0;
}

nothing_correlated :
    (front : ℕ) (window : List QueuedReview) (ds : List Decision)
    → All (λ d. first_event d.message_id window ≡ none) ds
    → correlate front window ds ≡ nothing_matched ds front
unfolding past
nothing_correlated front window ds h =
    let (m, i) = nothing_found window ds h in correlate_lem window front ds ∙ rw (m, i) refl

module _ (k : Codec) (rd : Reader) (pt : Partitioner) (ft : Faults) (acked : Deletion → Bool)
    (now : ℕ) (creator : String) where
  idle_plan :
      (at : QueuePos) (ds : List Decision)
      → (rd.scan at.part at.front).fails ≡ false
      → All
          (λ d.
            first_event d.message_id
              (take max_limit (waiting k.decode_flagged rd at.part creator at.front))
            ≡ none)
          ds
      → plan_batch k rd pt ft acked now creator at none ds
        ≡ some (at.front, nothing_matched ds at.front)
  unfolding plan_batch window_shape
  idle_plan at ds reads h =
      let evs = waiting k.decode_flagged rd at.part creator at.front in
      rw
        (
          plan_batch,
          collect-page k.decode_flagged rd at.part at.front creator max_limit (omega arith) reads,
        )
        (ap (λ (c : Correlation). some (c.advance, c))
          (nothing_correlated at.front (take max_limit evs) ds h))

  -- A batch none of whose messages waits from the front on changes nothing.
  idle_batch :
      (at : QueuePos) (ds : List Decision) (s : State)
      → (rd.scan at.part at.front).fails ≡ false
      → All
          (λ d.
            first_event d.message_id
              (take max_limit (waiting k.decode_flagged rd at.part creator at.front))
            ≡ none)
          ds
      → run_batch k rd pt ft acked now creator none ds (s, ok at) ≡ (s, ok (all_ignored ds))
  unfolding run_batch
  idle_batch at ds s reads h =
      rw (run_batch, idle_plan at ds reads h)
        (apply_batch_lem k rd pt ft acked now creator at.front at.front
          (nothing_matched ds at.front) ds s)

  -- What a batch that was applied leaves: the row at its target, past each of its matches.
  record IsApplied (at : QueuePos) (ds : List Decision) (s' : State) : Type 0 where
    to : ℕ
    ahead : at.front ≤ to
    window : List QueuedReview
    inside : All (λ q. In q (queue_of k rd pt ft acked now creator at)) window
    hits : All (IsHit window to) ds
    row : Cursor
    same_partition : row.partition ≡ at.part
    is_row : lookup creator s'.cursors ≡ some row
    at_target : row.next_offset ≡ to

  -- A batch that was answered, and that ignored nothing, has moved the row.
  row_moved :
      (at : QueuePos) (ds : List Decision) (s s' : State) (resp : PostResponse) (c : Cursor)
      (to : ℕ) (cor : Correlation)
      → lookup creator s.cursors ≡ some c
      → c.next_offset ≡ at.front
      → IsPlanned k rd pt ft acked now creator at none ds to cor
      → apply_batch k rd pt ft acked now creator at.front to cor ds s ≡ (s', ok resp)
      → resp.ignored ≡ []
      → 1 ≤ length ds
      → (s'.cursors ≡ insert creator (moved now to c) s.cursors) × (cor.ignored ≡ [])
  row_moved at ds s s' resp c to cor there still p h none_ignored some_given = ground (
    arith,
    apply_batch_lem k rd pt ft acked now creator at.front to cor ds s,
    accounted_for k rd pt ft acked now creator at none ds to cor p,
  )

  applied :
      (at : QueuePos) (ds : List Decision) (s s' : State) (resp : PostResponse) (c : Cursor)
      → lookup creator s.cursors ≡ some c
      → c.partition ≡ at.part
      → c.next_offset ≡ at.front
      → run_batch k rd pt ft acked now creator none ds (s, ok at) ≡ (s', ok resp)
      → resp.ignored ≡ []
      → 1 ≤ length ds
      → IsApplied at ds s'
  unfolding run_batch
  applied at ds s s' resp c there on_part still h none_ignored some_given =
      elim (Option-cases (plan_batch k rd pt ft acked now creator at none ds)) [
        | inl e ↦ let h' = rw (run_batch, e) at h in absurd (cc)
        | inr ((to, cor), e) ↦
            let h' = rw (run_batch, e) at h in
            let p = plan_batch-IsPlanned k rd pt ft acked now creator at none ds to cor e in
            let (rows, left) =
              row_moved at ds s s' resp c to cor there still p h' none_ignored some_given in
            let reached : to ≡ past at.front cor.matches =
              unfold window_shape in p.target ∙ p.past_matches in
            record {
              to = to;
              ahead = rw reached (past_front at.front cor.matches);
              window = p.window;
              inside = p.inside;
              hits =
                  matches_of-IsHit p.window to ds
                    (subst (λ (ms : List MatchedReview). All (λ mt. mt.event.offset < to) ms)
                      p.matched
                      (subst (λ (t : ℕ). All (λ mt. mt.event.offset < t) cor.matches) (sym reached)
                        (past_all at.front cor.matches)))
                    (sym p.left ∙ left);
              row = moved now to c;
              same_partition = on_part;
              is_row = ground (
                arith,
                rows,
                lookup-insert creator creator (moved now to c) s.cursors,
                str_eq_iff creator creator,
              );
              at_target = refl;
            }
      ]

module _ (k : Codec) (rd : Reader) (pt : Partitioner) (creator : String) where
  -- The live queue that an applied batch leaves.
  moved_queue :
      (ft : Faults) (acked : Deletion → Bool) (now : ℕ) (s t s' : State) (ds : List Decision)
      (l : IsLive rd pt creator s)
      → IsApplied k rd pt ft acked now creator l.at ds t
      → s'.cursors ≡ t.cursors
      → IsLive rd pt creator s'
  moved_queue ft acked now s t s' ds l a rows = record {
    count = l.count;
    counted = l.counted;
    at = record l.at { front = a.to };
    mapped = l.mapped;
    bounds = l.bounds;
    row = a.row;
    is_row = ap (lookup creator) rows ∙ a.is_row;
    on_partition = a.same_partition;
    at_front = a.at_target;
    retained = omega (arith, l.retained, a.ahead);
  }

  -- Where the log can be read and each message waits once, a batch without a cursor that was applied
  -- to a live queue without ignoring a decision, and not answered from a stored response, does
  -- nothing when it is posted again, under the same key, another or none, whatever was asked of the
  -- database and the broker before: the rows, the deletions and the lost windows stay, and the answer
  -- is the response stored under its key, where there is one, and otherwise ignores every decision.
  pub post_reviews-again :
      (ft ft' : Faults) (acked acked' : Deletion → Bool) (now now' : ℕ) (ds : List Decision)
      (key key' : String) (s s' : State) (status : ℕ) (resp : PostResponse)
      (l : IsLive rd pt creator s)
      → IsReader rd
      → ((from : ℕ) → (rd.scan l.at.part from).fails ≡ false)
      → DistinctEvents (waiting k.decode_flagged rd l.at.part creator l.at.front)
      → replayed k rd pt ft acked now creator key s ≡ none
      → post_reviews k rd pt ft acked now creator (plain ds) key s ≡ (s', ok (status, resp))
      → resp.ignored ≡ []
      → ft'.insert_fails ≡ false
      → ft'.select_fails ≡ false
      → (let again = post_reviews k rd pt ft' acked' now' creator (plain ds) key' s' in
          ((again.0.cursors ≡ s'.cursors)
            × (again.0.produced ≡ s'.produced)
            × (again.0.windows_lost ≡ s'.windows_lost))
          × (again.1
              ≡ ok (elim (replayed k rd pt ft' acked' now' creator key' s') [
                | some stored ↦ stored
                | none ↦ (200, all_ignored ds)
              ])))
  unfolding finish_post
  post_reviews-again ft ft' acked acked' now now' ds key key' s s' status resp l v reads d new h
        none_ignored up up' =
      let (good, t, ran, rows) =
        plain_run k rd pt ft acked now creator ds key s s' status resp l new h in
      let (some_given, _, _, _) = (validate_decisions_iff ds).0 good in
      let a =
        applied k rd pt ft acked now creator l.at ds s t resp l.row l.is_row l.on_partition
          l.at_front ran none_ignored some_given in
      let l' = moved_queue ft acked now s t s' ds l a rows in
      let evs = waiting k.decode_flagged rd l.at.part creator l.at.front in
      let gone : All
          (λ x.
            first_event x.message_id
              (take max_limit (waiting k.decode_flagged rd l.at.part creator a.to))
            ≡ none)
          ds =
        rw (waiting-later k.decode_flagged rd l.at.part creator l.at.front a.to v a.ahead)
          (none_left evs a.window a.to max_limit ds d a.inside a.hits) in
      let idle =
        ap (run_batch k rd pt ft' acked' now' creator none ds)
          (resolve_queue-live ft' now' creator rd pt s' l' ∙ ground arith)
        ∙ idle_batch k rd pt ft' acked' now' creator (record l.at { front = a.to }) ds s'
            (reads a.to) gone in
      elim (Option-cases (replayed k rd pt ft' acked' now' creator key' s')) [
        | inr (stored, there) ↦
            rw (plain_replay k rd pt ft' acked' now' creator ds key' s' stored good there, there)
              ((refl, refl, refl), refl)
        | inl fresh ↦
            rw (plain_post k rd pt ft' acked' now' creator ds key' s' good fresh, idle, fresh)
              (
                finish_post-keeps k rd pt ft' acked' now' creator key' (s', ok (all_ignored ds)),
                refl,
              )
      ]
