-- ===== src/Review/Window/Following.antt =====
-- The page that follows on a page: a scan from the end of a window.
use dabet.Contracts.{Flagged}
use dabet.Review.Queue.{Record, Reader, IsReader, Within}
use dabet.Review.Window.{QueuedReview, end_of}
use dabet.Review.Window.Pages.{own_event, own_events}
use dabet.Prelude.{
  ℕ, zero, suc, ◌+◌, ◌≤◌, ◌≡◌, refl, ap, ◌∙◌, leb, String, Option, some, List, [], ◌∷◌, take, drop,
  keep, arith, Option-cases, inl, inr,
}

-- Events in the order of their offsets, from a bound on.
abbrev pub Ascending : ℕ → List QueuedReview → Type 0
Ascending lo [] = Unit
Ascending lo (q ∷ qs) = (lo ≤ q.offset) × Ascending (q.offset + 1) qs

Ascending-mono : (lo hi : ℕ) (qs : List QueuedReview) → lo ≤ hi → Ascending hi qs → Ascending lo qs
Ascending-mono lo hi [] h a = tt
Ascending-mono lo hi (q ∷ qs) h (b, a) = (omega arith, a)

pub le-end_of : (lo n : ℕ) (qs : List QueuedReview) → Ascending lo qs → lo ≤ end_of lo (take n qs)
le-end_of lo zero qs a = omega arith
le-end_of lo (suc n) [] a = omega arith
le-end_of lo (suc n) (q ∷ qs) (h, a) = omega (arith, le-end_of (q.offset + 1) n qs a)

keep_all : (lo : ℕ) (qs : List QueuedReview) → Ascending lo qs → keep (λ q. leb lo q.offset) qs ≡ qs
keep_all lo [] a = refl
keep_all lo (q ∷ qs) (h, a) =
    ground (arith, keep_all lo qs (Ascending-mono lo (q.offset + 1) qs (omega arith) a))

-- Past the window of the first n events lie the others.
keep-end_of :
    (lo n : ℕ) (qs : List QueuedReview)
    → Ascending lo qs
    → keep (λ q. leb (end_of lo (take n qs)) q.offset) qs ≡ drop n qs
keep-end_of lo zero qs a = keep_all lo qs a
keep-end_of lo (suc n) [] a = refl
keep-end_of lo (suc n) (q ∷ qs) (h, a) =
    ground (arith, le-end_of (q.offset + 1) n qs a, keep-end_of (q.offset + 1) n qs a)

module _ (decode : List ℕ → Option Flagged) (creator : String) where
  pub own_event_offset :
      (r : Record) (q : QueuedReview) → own_event decode creator r ≡ some q → q.offset ≡ r.offset
  unfolding own_event
  own_event_offset r q h = ground arith

  own_events-keep :
      (w : ℕ) (rs : List Record)
      → own_events decode creator (keep (λ r. leb w r.offset) rs)
        ≡ keep (λ q. leb w q.offset) (own_events decode creator rs)
  unfolding own_events
  own_events-keep w [] = refl
  own_events-keep w (r ∷ rs) = elim (Option-cases (own_event decode creator r)) [
    | inl other ↦ ground (arith, other, own_events-keep w rs)
    | inr (q, own) ↦ ground (arith, own, own_event_offset r q own, own_events-keep w rs)
  ]

  pub own_events-Ascending :
      (lo hi : ℕ) (rs : List Record) → Within lo hi rs → Ascending lo (own_events decode creator rs)
  unfolding own_events
  own_events-Ascending lo hi [] w = tt
  own_events-Ascending lo hi (r ∷ rs) (h, w) = elim (Option-cases (own_event decode creator r)) [
    | inl other ↦
        rw (own_events, other)
          (Ascending-mono lo (r.offset + 1) (own_events decode creator rs) (omega arith)
            (own_events-Ascending (r.offset + 1) hi rs w))
    | inr (q, own) ↦
        rw (own_events, own)
          (
            omega (arith, own_event_offset r q own),
            rw (own_event_offset r q own) (own_events-Ascending (r.offset + 1) hi rs w),
          )
  ]

module _ (decode : List ℕ → Option Flagged) (rd : Reader) (part : ℕ) (creator : String) where
  abbrev pub waiting : ℕ → List QueuedReview
  waiting from = own_events decode creator (rd.scan part from).records

  pub waiting-later :
      (from later : ℕ)
      → IsReader rd
      → from ≤ later
      → waiting later ≡ keep (λ q. leb later q.offset) (waiting from)
  waiting-later from later v h =
      ap (own_events decode creator) (v.later part from later h)
      ∙ own_events-keep decode creator later (rd.scan part from).records

  -- From the end of a page on, the events that the page has left.
  pub waiting-end_of :
      (from n : ℕ)
      → IsReader rd
      → waiting (end_of from (take n (waiting from))) ≡ drop n (waiting from)
  waiting-end_of from n v =
      let (high, w) = v.in_order part from in
      let a = own_events-Ascending decode creator from high (rd.scan part from).records w in
      let past = end_of from (take n (waiting from)) in
      waiting-later from past v (le-end_of from n (waiting from) a)
      ∙ keep-end_of from n (waiting from) a
