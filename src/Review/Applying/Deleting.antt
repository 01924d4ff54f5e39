-- ===== src/Review/Applying/Deleting.antt =====
-- What a batch sends to deletions.v1.
use mathlib.Core.List.{append_assoc, append-nil}
use dabet.Contracts.{Deletion, Flagged}
use dabet.Review.Applying.{deletion_of, produce_flagged}
use dabet.Review.Decisions.{MatchedReview}
use dabet.Review.Decisions.Matching.{flagged_count}
use dabet.Review.Queue.{Record, Reader}
use dabet.Review.Window.{QueuedReview, Collected, collect, at_end}
use dabet.Review.Window.Following.{own_event_offset, waiting}
use dabet.Review.Window.Pages.{own_event, own_events, before_end, collect_lem}
use dabet.Prelude.{
  leb, ℕ, zero, suc, ◌<◌, ◌≡◌, refl, inl, inr, Bool, true, if◌then◌else◌, String, Option, some,
  List, [], ◌∷◌, ◌++◌, take, length, All, arith, all, Bool-cases, Option-cases,
}

pub All-take {ℓ κ} :
    {A : Type ℓ} (P : A → Type κ) (n : ℕ) (xs : List A) → All P xs → All P (take n xs)
All-take P zero xs a = tt
All-take P (suc n) [] a = tt
All-take P (suc n) (x ∷ xs) (h, a) = (h, All-take P n xs a)

module _ {κ} (decode : List ℕ → Option Flagged) (creator : String) (P : QueuedReview → Type κ) where
  -- What holds of the events of a log, and of those before the end that lie there, holds of the
  -- events before the end.
  own_events-before_end :
      (end : Option ℕ) (rs : List Record)
      → All P (own_events decode creator rs)
      → All P (own_events decode creator (before_end end rs))
  unfolding own_events before_end
  own_events-before_end end [] a = tt
  own_events-before_end end (r ∷ rs) a = elim (Bool-cases (at_end end r.offset)) [
    | inl over ↦ rw (before_end, over) tt
    | inr more ↦ elim (Option-cases (own_event decode creator r)) [
      | inl other ↦
          rw (before_end, more)
            (rw (own_events, other) (own_events-before_end end rs (rw (own_events, other) at a)))
      | inr (q, own) ↦
          let a' = rw (own_events, own) at a in
          rw (before_end, more) (rw (own_events, own) (a'.0, own_events-before_end end rs a'.1))
    ]
  ]

  -- The events of a window are among those that wait.
  pub collect-waiting :
      (rd : Reader) (part from : ℕ) (end : Option ℕ) (limit : ℕ) (c : Collected)
      → 0 < limit
      → collect decode rd part from end limit creator ≡ some c
      → All P (waiting decode rd part creator from)
      → All P c.items
  collect-waiting rd part from end limit c h e a =
      let evs = own_events decode creator (before_end end (rd.scan part from).records) in
      let items : c.items ≡ take limit evs =
        ground (arith, collect_lem decode rd part from creator end limit h) in
      rw items (All-take P limit evs (own_events-before_end end (rd.scan part from).records a))

module _ (decode : List ℕ → Option Flagged) (creator : String) where
  own_events_bounded :
      (e : ℕ) (rs : List Record)
      → All (λ q. q.offset < e) (own_events decode creator (before_end (some e) rs))
  unfolding own_events before_end
  own_events_bounded e [] = tt
  own_events_bounded e (r ∷ rs) = elim (Bool-cases (leb e r.offset)) [
    | inl over ↦ rw (before_end, over) tt
    | inr more ↦ elim (Option-cases (own_event decode creator r)) [
      | inl other ↦ rw (before_end, more) (rw (own_events, other) (own_events_bounded e rs))
      | inr (q, own) ↦
          rw (before_end, more)
            (rw (own_events, own)
              (ground (arith, own_event_offset decode creator r q own), own_events_bounded e rs))
    ]
  ]

  -- The events of a pinned window lie before its end.
  pub collect_bounded :
      (rd : Reader) (part from e limit : ℕ) (c : Collected)
      → 0 < limit
      → collect decode rd part from (some e) limit creator ≡ some c
      → All (λ q. q.offset < e) c.items
  collect_bounded rd part from e limit c h is =
      let evs = own_events decode creator (before_end (some e) (rd.scan part from).records) in
      let items : c.items ≡ take limit evs =
        ground (arith, collect_lem decode rd part from creator (some e) limit h) in
      rw items
        (All-take (λ q. q.offset < e) limit evs (own_events_bounded e (rd.scan part from).records))

module _ (creator : String) (now : ℕ) where
  -- The deletions of the matches that are flagged.
  unfoldable pub deletions_of : List MatchedReview → List Deletion
  deletions_of [] = []
  deletions_of (mt ∷ ms) =
      let rest = deletions_of ms in
      if mt.flagged then deletion_of creator now mt.event ∷ rest else rest

  pub length-deletions_of : (ms : List MatchedReview) → length (deletions_of ms) ≡ flagged_count ms
  unfolding deletions_of
  length-deletions_of [] = refl
  length-deletions_of (mt ∷ ms) = ground (arith, length-deletions_of ms)

  pub deletions_of-All {κ} :
      (P : Deletion → Type κ) (ms : List MatchedReview)
      → All (λ mt. mt.flagged ≡ true → P (deletion_of creator now mt.event)) ms
      → All P (deletions_of ms)
  unfolding deletions_of
  deletions_of-All P [] a = tt
  deletions_of-All P (mt ∷ ms) (h, a) = elim (Bool-cases mt.flagged) [
    | inl flagged' ↦ rw (deletions_of, flagged') (h flagged', deletions_of-All P ms a)
    | inr kept' ↦ rw (deletions_of, kept') (deletions_of-All P ms a)
  ]

  module _ (acked : Deletion → Bool) where
    -- The deletions before the first that the broker refuses.
    unfoldable pub sent : List Deletion → List Deletion
    sent [] = []
    sent (d ∷ ds) = let rest = sent ds in if acked d then d ∷ rest else []

    pub sent_all : (ds : List Deletion) → all acked ds ≡ true → sent ds ≡ ds
    unfolding sent
    sent_all [] h = refl
    sent_all (d ∷ ds) h = ground (arith, sent_all ds)

    pub sent-All {κ} : (P : Deletion → Type κ) (ds : List Deletion) → All P ds → All P (sent ds)
    unfolding sent
    sent-All P [] a = tt
    sent-All P (d ∷ ds) (h, a) = elim (Bool-cases (acked d)) [
      | inl flagged' ↦ rw (sent, flagged') (h, sent-All P ds a)
      | inr kept' ↦ rw (sent, kept') tt
    ]

    -- The broker gets the deletions in their order, up to the first that it refuses.
    pub produce_flagged_lem :
        (ms : List MatchedReview) (out : List Deletion)
        → produce_flagged acked creator now ms out
          ≡ (out ++ sent (deletions_of ms), all acked (deletions_of ms))
    unfolding produce_flagged deletions_of sent
    produce_flagged_lem [] out = ground (arith, append-nil out)
    produce_flagged_lem (mt ∷ ms) out =
        let d = deletion_of creator now mt.event in
        ground (
          arith,
          append-nil out,
          produce_flagged_lem ms out,
          produce_flagged_lem ms (out ++ d ∷ []),
          append_assoc out (d ∷ []) (sent (deletions_of ms)),
        )
