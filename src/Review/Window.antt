-- ===== src/Review/Window.antt =====
-- services/review-service/internal/api/handler.go, collect: the scan of a window of the queue. How
-- a value decodes is a parameter; none is a value that does not.
use dabet.Contracts.{Flagged, Detector, Action, auto_delete, review}
use dabet.Review.Queue.{Record, Reading, Reader}
use dabet.Prelude.{
  ℕ, suc, ◌+◌, Bool, true, false, not, ◌&&◌, ◌||◌, leb, if◌then◌else◌, String, str_eq, Runes,
  Option, none, some, List, [], ◌∷◌, ◌++◌, length,
}
pub mod Pages
pub mod Following

pub record PendingReview : Type 0 where
  pub message_id : String
  pub content_id : String
  pub text : Runes
  pub detector : Detector
  pub policy_id : String
  pub flagged_at : ℕ

pub record QueuedReview : Type 0 where
  pub offset : ℕ
  pub item : PendingReview

-- none is a failed read. window_end is the offset after the last item.
pub record Collected : Type 0 where
  pub items : List QueuedReview
  pub window_end : ℕ
  pub exhausted : Bool

abbrev pub is_review : Action → Bool
is_review review = true
is_review auto_delete = false

abbrev pub item_of : Flagged → PendingReview
item_of f = record {
  message_id = f.message_id;
  content_id = f.content_id;
  text = f.text;
  detector = f.detector;
  policy_id = f.policy_id;
  flagged_at = f.flagged_at;
}

-- No end is a scan without one.
abbrev pub at_end : Option ℕ → ℕ → Bool
at_end none offset = false
at_end (some e) offset = leb e offset

-- The offset after the last item, or where the scan began.
abbrev pub end_of : ℕ → List QueuedReview → ℕ
end_of from [] = from
end_of from (q ∷ items) = end_of (q.offset + 1) items

module _ (decode : List ℕ → Option Flagged) where
  -- What the callback of Scan does with one record: the items, and whether the scan goes on.
  unfoldable pub visit :
      Option ℕ → ℕ → String → List QueuedReview → Record → List QueuedReview × Bool
  visit end limit creator items rec =
      if at_end end rec.offset then (items, false) else elim (decode rec.value) [
        | none ↦ (items, true)
        | some f ↦
            if not (str_eq f.creator_id creator) || not (is_review f.action)
            then (items, true)
            else let items' = items ++ record { offset = rec.offset; item = item_of f } ∷ [] in
              (items', not (leb limit (length items')))
      ]

  -- The scan, and whether it stopped before its records were over.
  unfoldable pub scan_records :
      Option ℕ → ℕ → String → List QueuedReview → List Record → List QueuedReview × Bool
  scan_records end limit creator items [] = (items, false)
  scan_records end limit creator items (r ∷ rs) =
      let (items', on) = visit end limit creator items r in
      elim on [ true ↦ scan_records end limit creator items' rs | false ↦ (items', true) ]

  unfoldable pub collect : Reader → ℕ → ℕ → Option ℕ → ℕ → String → Option Collected
  collect rd part from end limit creator =
      let reading = rd.scan part from in
      let (items, stopped) = scan_records end limit creator [] reading.records in
      if not stopped && reading.fails
      then none
      else some (record { items = items; window_end = end_of from items; exhausted = not stopped })
