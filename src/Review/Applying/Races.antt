-- ===== src/Review/Applying/Races.antt =====
-- The front of the queue after a batch, and two batches that found the same front.
use dabet.Contracts.{Deletion}
use dabet.Prelude.Dict.{lookup, insert, string_eq, lookup-insert}
use dabet.Review.Applying.{apply_batch, all_ignored, window_shape}
use dabet.Review.Applying.Matches.{IsMatched, matches_of-All, past_all}
use dabet.Review.Applying.Outcomes.{queue_of, IsPlanned, apply_batch_lem}
use dabet.Review.Cursors.{Cursor, moved}
use dabet.Review.Decisions.{Decision, Correlation, MatchedReview}
use dabet.Review.Decisions.Matching.{past, matches_of}
use dabet.Review.Handler.{State, Faults, Codec, CursorToken, PostResponse, ok, QueuePos}
use mathlib.Core.Path.{subst}
use dabet.Review.Applying.{plan_batch}
use dabet.Review.Applying.Outcomes.{plan_batch-IsPlanned}
use dabet.Review.Queue.{Reader, Partitioner, IsReader}
use dabet.Review.Window.{QueuedReview}
use dabet.Review.Window.Following.{Ascending, own_events-Ascending}
use dabet.Prelude.{
  In, In-All, ℕ, ◌+◌, ◌≤◌, ◌<◌, ◌≡◌, sym, Bool, false, String, str_eq_iff, Option, some, List, [],
  ◌∷◌, length, All, All-mono, arith, Option-cases, inl, inr,
}

All-Ascending : (lo : ℕ) (qs : List QueuedReview) → Ascending lo qs → All (λ q. lo ≤ q.offset) qs
All-Ascending lo [] a = tt
All-Ascending lo (q ∷ qs) (h, a) = (
  h,
  All-mono (λ x. q.offset + 1 ≤ x.offset) (λ x. lo ≤ x.offset) qs (λ x g. omega arith)
      (All-Ascending (q.offset + 1) qs a),
)

head_bounds :
    (front to : ℕ) (ms : List MatchedReview)
    → 0 < length ms
    → All (λ mt. front ≤ mt.event.offset) ms
    → All (λ mt. mt.event.offset < to) ms
    → front < to
head_bounds front to [] h a b = absurd (omega arith)
head_bounds front to (mt ∷ ms) h (a, _) (b, _) = omega arith

module _ (k : Codec) (rd : Reader) (pt : Partitioner) (ft : Faults) (acked : Deletion → Bool)
    (now : ℕ) (creator : String) where
  -- What waits lies at the front or after it.
  pub queue_of-from :
      (at : QueuePos)
      → IsReader rd
      → All (λ q. at.front ≤ q.offset) (queue_of k rd pt ft acked now creator at)
  queue_of-from at v =
      let (high, w) = v.in_order at.part at.front in
      All-Ascending at.front (queue_of k rd pt ft acked now creator at) (
        own_events-Ascending k.decode_flagged creator at.front high
          (rd.scan at.part at.front).records w)

  match_bounds :
      (at : QueuePos) (pinned : Option CursorToken) (ds : List Decision) (to : ℕ)
      (cor : Correlation)
      → IsReader rd
      → (p : IsPlanned k rd pt ft acked now creator at pinned ds to cor)
      → All (λ mt. at.front ≤ mt.event.offset) cor.matches
  match_bounds at pinned ds to cor v p = rw (p.matched) (
      All-mono (IsMatched ds p.window) (λ mt. at.front ≤ mt.event.offset) (matches_of p.window ds)
        (λ mt m.
          In-All (λ q. at.front ≤ q.offset) mt.event (queue_of k rd pt ft acked now creator at)
            (In-All (λ q. In q (queue_of k rd pt ft acked now creator at)) mt.event p.window
              m.in_window p.inside)
            (queue_of-from at v))
        (matches_of-All p.window ds))

  target_past :
      (at : QueuePos) (pinned : Option CursorToken) (ds : List Decision) (to : ℕ)
      (cor : Correlation)
      → (p : IsPlanned k rd pt ft acked now creator at pinned ds to cor)
      → All (λ mt. mt.event.offset < to) cor.matches
  target_past at pinned ds to cor p = elim (Option-cases (window_shape at pinned).scan_end) [
    | inl open_end ↦
        let reached : to ≡ past at.front cor.matches = ground (arith, p.target, p.past_matches) in
        subst (λ (t : ℕ). All (λ mt. mt.event.offset < t) cor.matches) (sym reached)
          (past_all at.front cor.matches)
    | inr (e, pinned_end) ↦
        let reached : to ≡ e = ground (arith, p.target) in
        rw (reached, p.matched)
          (All-mono (IsMatched ds p.window) (λ mt. mt.event.offset < e) (matches_of p.window ds)
            (λ mt m.
              In-All (λ q. q.offset < e) mt.event p.window m.in_window (p.bounded e pinned_end))
            (matches_of-All p.window ds))
  ]

  target-lt :
      (at : QueuePos) (pinned : Option CursorToken) (ds : List Decision) (to : ℕ)
      (cor : Correlation)
      → IsReader rd
      → IsPlanned k rd pt ft acked now creator at pinned ds to cor
      → 0 < length cor.matches
      → at.front < to
  target-lt at pinned ds to cor v p h =
      head_bounds at.front to cor.matches h (match_bounds at pinned ds to cor v p)
        (target_past at pinned ds to cor p)

  -- The transaction of a batch that matched something, without a fault.
  won :
      (front to : ℕ) (cor : Correlation) (ds : List Decision) (s : State) (c : Cursor)
      → lookup creator s.cursors ≡ some c
      → c.next_offset ≡ front
      → (s' : State) (resp : PostResponse)
      → apply_batch k rd pt ft acked now creator front to cor ds s ≡ (s', ok resp)
      → 0 < length cor.matches
      → s'.cursors ≡ insert creator (moved now to c) s.cursors
  won front to cor ds s c there still s' resp h some_matched =
      ground (arith, apply_batch_lem k rd pt ft acked now creator front to cor ds s)

module _ (k : Codec) (rd : Reader) (pt : Partitioner) (creator : String) where
  -- Of two batches that found the same front and both matched events, the second to be applied
  -- after one that was answered changes nothing, sends nothing and ignores all its decisions.
  pub apply_batch-apply_batch :
      (ft ft' : Faults) (acked acked' : Deletion → Bool) (now now' : ℕ) (at : QueuePos)
      (pinned : Option CursorToken) (ds ds' : List Decision) (to to' : ℕ) (cor cor' : Correlation)
      (s s' : State) (c : Cursor) (resp : PostResponse)
      → IsReader rd
      → lookup creator s.cursors ≡ some c
      → c.next_offset ≡ at.front
      → plan_batch k rd pt ft acked now creator at pinned ds ≡ some (to, cor)
      → 0 < length cor.matches
      → apply_batch k rd pt ft acked now creator at.front to cor ds s ≡ (s', ok resp)
      → 0 < length cor'.matches
      → ft'.advance_fails ≡ false
      → apply_batch k rd pt ft' acked' now' creator at.front to' cor' ds' s'
        ≡ (s', ok (all_ignored ds'))
  apply_batch-apply_batch ft ft' acked acked' now now' at pinned ds ds' to to' cor cor' s s' c resp
        v there still planned m h m' up =
      let ahead =
        target-lt k rd pt ft acked now creator at pinned ds to cor v
          (plan_batch-IsPlanned k rd pt ft acked now creator at pinned ds to cor planned) m in
      let rows = won k rd pt ft acked now creator at.front to cor ds s c there still s' resp h m in
      ground (
        arith,
        rows,
        ahead,
        lookup-insert creator creator (moved now to c) s.cursors,
        str_eq_iff creator creator,
        apply_batch_lem k rd pt ft' acked' now' creator at.front to' cor' ds' s',
      )
