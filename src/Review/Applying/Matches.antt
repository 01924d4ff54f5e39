-- ===== src/Review/Applying/Matches.antt =====
-- Where the matches of a batch come from, and the deletions that it may send.
use mathlib.Core.Option.{some-injective}
use dabet.Contracts.{Deletion}
use dabet.Review.Applying.{deletion_of}
use dabet.Review.Applying.Deleting.{deletions_of, deletions_of-All}
use dabet.Review.Decisions.{Decision, MatchedReview, is_flagged}
use dabet.Review.Decisions.Matching.{first_event, matches_of, past}
use dabet.Review.Window.{QueuedReview}
use dabet.Prelude.{
  In-All, In-all, In, ℕ, ◌+◌, ◌≤◌, ◌<◌, ◌≡◌, refl, sym, ◌∙◌, inl, inr, true, String, str_eq,
  str_eq_iff, some, List, [], ◌∷◌, All, All-mono, arith, Bool-cases, Option-cases, max,
}

-- A match is a decision of the batch with an event of the window, on the same message.
pub record IsMatched (ds : List Decision) (window : List QueuedReview) (mt : MatchedReview)
    : Type 0 where
  pub decision : Decision
  pub given : In decision ds
  pub as_flagged : is_flagged decision ≡ mt.flagged
  pub in_window : In mt.event window
  pub on_message : mt.event.item.message_id ≡ decision.message_id

pub first_event_lem :
    (id : String) (qs : List QueuedReview) (q : QueuedReview)
    → first_event id qs ≡ some q
    → In q qs × (q.item.message_id ≡ id)
unfolding first_event
first_event_lem id [] q h = absurd (cc)
first_event_lem id (x ∷ qs) q h = elim (Bool-cases (str_eq x.item.message_id id)) [
  | inl here ↦
      let is : x ≡ q = some-injective x q (rw (first_event, here) at h) in
      (inl (sym is), rw (sym is) ((str_eq_iff x.item.message_id id).0 here))
  | inr later ↦ let (p, e) = first_event_lem id qs q (rw (first_event, later) at h) in (inr p, e)
]

module _ (window : List QueuedReview) (given : List Decision) where
  matches_of-IsMatched :
      (ds : List Decision)
      → All (λ d. In d given) ds
      → All (IsMatched given window) (matches_of window ds)
  unfolding matches_of
  matches_of-IsMatched [] a = tt
  matches_of-IsMatched (d ∷ ds) (h, a) = elim (Option-cases (first_event d.message_id window)) [
    | inl out ↦ rw (matches_of, out) (matches_of-IsMatched ds a)
    | inr (q, found) ↦
        let (p, e) = first_event_lem d.message_id window q found in
        rw (matches_of, found)
          (
            record { decision = d; given = h; as_flagged = refl; in_window = p; on_message = e },
            matches_of-IsMatched ds a,
          )
  ]

-- Each match of a batch is one of its decisions with an event of the window.
pub matches_of-All :
    (window : List QueuedReview) (ds : List Decision)
    → All (IsMatched ds window) (matches_of window ds)
matches_of-All window ds = matches_of-IsMatched window ds ds (In-all ds)

-- A deletion that a decision of the batch asks for, of an event that waits.
pub record IsDecided (creator : String) (now : ℕ) (ds : List Decision) (waiting : List QueuedReview)
    (del : Deletion) : Type 0 where
  pub decision : Decision
  pub given : In decision ds
  pub to_delete : decision.flagged ≡ some true
  pub event : QueuedReview
  pub waits : In event waiting
  pub on_message : event.item.message_id ≡ decision.message_id
  pub is_deletion : del ≡ deletion_of creator now event

is_flagged_lem : (d : Decision) → is_flagged d ≡ true → d.flagged ≡ some true
is_flagged_lem d h = ground arith

module _ (creator : String) (now : ℕ) where
  pub deletions_of-IsDecided :
      (ds : List Decision) (window waiting : List QueuedReview)
      → All (λ q. In q waiting) window
      → All (IsDecided creator now ds waiting) (deletions_of creator now (matches_of window ds))
  deletions_of-IsDecided ds window waiting inside =
      deletions_of-All creator now (IsDecided creator now ds waiting) (matches_of window ds) (
        All-mono (IsMatched ds window)
          (λ mt.
            mt.flagged ≡ true → IsDecided creator now ds waiting (deletion_of creator now mt.event))
          (matches_of window ds)
          (λ mt m f. record {
            decision = m.decision;
            given = m.given;
            to_delete = is_flagged_lem m.decision (m.as_flagged ∙ f);
            event = mt.event;
            waits = In-All (λ q. In q waiting) mt.event window m.in_window inside;
            on_message = m.on_message;
            is_deletion = refl;
          })
          (matches_of-All window ds))

-- The front after the matches lies past each of them.
pub past_front : (front : ℕ) (ms : List MatchedReview) → front ≤ past front ms
unfolding past
past_front front [] = omega arith
past_front front (mt ∷ ms) = omega (arith, past_front (max front (mt.event.offset + 1)) ms)

pub past_all :
    (front : ℕ) (ms : List MatchedReview) → All (λ mt. mt.event.offset < past front ms) ms
unfolding past
past_all front [] = tt
past_all front (mt ∷ ms) =
    let f = max front (mt.event.offset + 1) in (omega (arith, past_front f ms), past_all f ms)
