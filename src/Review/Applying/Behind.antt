-- ===== src/Review/Applying/Behind.antt =====
-- The events behind a front that has moved: what a second batch of the same decisions finds.
use mathlib.Core.Path.{subst}
use dabet.Review.Applying.Deleting.{All-take}
use dabet.Review.Decisions.{Decision, all_ids}
use dabet.Review.Decisions.Matching.{first_event, matches_of, ignored_of}
use dabet.Review.Applying.Matches.{first_event_lem}
use dabet.Review.Window.{QueuedReview}
use dabet.Prelude.{
  In-All, In, take, ℕ, ◌<◌, ◌≡◌, refl, sym, ap, Bool, false, leb, String, str_eq, str_eq_iff, none,
  some, List, [], ◌∷◌, keep, All, arith, Bool-cases, Option-cases, inl, inr,
}

-- No two events on one message.
abbrev pub DistinctEvents : List QueuedReview → Type 0
DistinctEvents [] = Unit
DistinctEvents (q ∷ qs) =
    All (λ x. str_eq x.item.message_id q.item.message_id ≡ false) qs × DistinctEvents qs

first_event-none :
    (id : String) (qs : List QueuedReview)
    → All (λ x. str_eq x.item.message_id id ≡ false) qs
    → first_event id qs ≡ none
unfolding first_event
first_event-none id [] a = refl
first_event-none id (q ∷ qs) (h, a) = rw (first_event, h) (first_event-none id qs a)

keep-All {κ} :
    (P : QueuedReview → Type κ) (t : QueuedReview → Bool) (qs : List QueuedReview)
    → All P qs
    → All P (keep t qs)
keep-All P t [] a = tt
keep-All P t (q ∷ qs) (h, a) = elim (Bool-cases (t q)) [
  | inl kept ↦ rw kept (h, keep-All P t qs a)
  | inr gone ↦ rw gone (keep-All P t qs a)
]

In-differs :
    (id : String) (q : QueuedReview) (qs : List QueuedReview)
    → In q qs
    → All (λ x. str_eq x.item.message_id id ≡ false) qs
    → str_eq q.item.message_id id ≡ false
In-differs id q [] p a = elim p [ ]
In-differs id q (x ∷ qs) (inl e) (h, a) = rw e h
In-differs id q (x ∷ qs) (inr p) (h, a) = In-differs id q qs p a

-- The only event of a message lies behind the front.
behind :
    (to : ℕ) (q : QueuedReview) (qs : List QueuedReview)
    → q.offset < to
    → DistinctEvents qs
    → In q qs
    → All (λ x. str_eq x.item.message_id q.item.message_id ≡ false) (keep (λ x. leb to x.offset) qs)
behind to q [] h d p = elim p [ ]
behind to q (x ∷ qs) h (a, d) (inl e) =
    let before : leb to x.offset ≡ false = ground arith in
    rw before (
      keep-All (λ y. str_eq y.item.message_id q.item.message_id ≡ false) (λ y. leb to y.offset) qs
        (subst
          (λ (z : QueuedReview). All (λ y. str_eq y.item.message_id z.item.message_id ≡ false) qs)
          (sym e) a))
behind to q (x ∷ qs) h (a, d) (inr p) =
    let differs = In-differs x.item.message_id q qs p a in
    let differs' : str_eq x.item.message_id q.item.message_id ≡ false = ground (
      arith,
      str_eq_iff x.item.message_id q.item.message_id,
      str_eq_iff q.item.message_id x.item.message_id,
    ) in
    let later = behind to q qs h d p in
    elim (Bool-cases (leb to x.offset)) [
      | inl kept ↦ rw kept (differs', later)
      | inr gone ↦ rw gone later
    ]

-- A decision whose message has an event in the window, behind a bound.
pub record IsHit (window : List QueuedReview) (to : ℕ) (d : Decision) : Type 0 where
  pub event : QueuedReview
  pub found : first_event d.message_id window ≡ some event
  pub before : event.offset < to

pub matches_of-IsHit :
    (window : List QueuedReview) (to : ℕ) (ds : List Decision)
    → All (λ mt. mt.event.offset < to) (matches_of window ds)
    → ignored_of window ds ≡ []
    → All (IsHit window to) ds
unfolding matches_of ignored_of
matches_of-IsHit window to [] a e = tt
matches_of-IsHit window to (d ∷ ds) a e = elim (Option-cases (first_event d.message_id window)) [
  | inl out ↦ let e' = rw (ignored_of, out) at e in absurd (cc)
  | inr (q, found) ↦
      let e' = rw (ignored_of, found) at e in
      let a' = rw (matches_of, found) at a in
      (record { event = q; found = found; before = a'.0 }, matches_of-IsHit window to ds a'.1 e')
]

pub nothing_found :
    (window : List QueuedReview) (ds : List Decision)
    → All (λ d. first_event d.message_id window ≡ none) ds
    → (matches_of window ds ≡ []) × (ignored_of window ds ≡ all_ids ds)
unfolding matches_of ignored_of
nothing_found window [] a = (refl, refl)
nothing_found window (d ∷ ds) (h, a) =
    let (m, i) = nothing_found window ds a in
    (rw (matches_of, h) m, rw (ignored_of, h) (ap (λ l. d.message_id ∷ l) i))

-- Where each decision had an event behind the new front, a window past it has none of them.
pub none_left :
    (evs window : List QueuedReview) (to n : ℕ) (ds : List Decision)
    → DistinctEvents evs
    → All (λ q. In q evs) window
    → All (IsHit window to) ds
    → All (λ d. first_event d.message_id (take n (keep (λ x. leb to x.offset) evs)) ≡ none) ds
none_left evs window to n [] d inside hits = tt
none_left evs window to n (x ∷ ds) d inside (hit, hits) =
    let left = keep (λ y. leb to y.offset) evs in
    let (p, same_id) = first_event_lem x.message_id window hit.event hit.found in
    let gone =
      behind to hit.event evs hit.before d (In-All (λ q. In q evs) hit.event window p inside) in
    (
      first_event-none x.message_id (take n left) (
          All-take (λ y. str_eq y.item.message_id x.message_id ≡ false) n left
            (subst (λ (i : String). All (λ y. str_eq y.item.message_id i ≡ false) left) same_id
              gone)),
      none_left evs window to n ds d inside hits,
    )
