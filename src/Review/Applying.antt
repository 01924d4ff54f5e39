-- ===== src/Review/Applying.antt =====
-- services/review-service/internal/api/handler.go, post: the batch of decisions is matched with the
-- window and applied in one transaction on the row of the creator. Whether the broker takes a
-- deletion is a parameter.
use dabet.Review.Idem.{put_response, get_response}
use Prim.Native.Char.{code}
use dabet.Contracts.{Deletion}
use dabet.Prelude.Int.{pos, pos_part, ltb_ℤ}
use dabet.Review.Cursors.{advance_row, advanced, stale, mid_failed}
use dabet.Review.Decisions.{
  validate_decisions, Decision, MatchedReview, Correlation, correlate, all_ids,
}
use dabet.Review.Handler.{
  resolve_queue, decisions_invalid, CursorToken, Codec, PostResponse, State, Faults, Answer, ok,
  error, QueuePos, max_limit, same_ℤ, unavailable, cursor_invalid,
}
use dabet.Review.Queue.{Reader, Partitioner}
use dabet.Review.Window.{QueuedReview, collect}
use dabet.Prelude.{
  ℕ, ◌-◌, ◌^◌, Bool, true, false, not, ◌&&◌, ◌==◌, if◌then◌else◌, String, str_eq, Runes, Option,
  none, some, List, [], ◌∷◌, ◌++◌, length,
}
pub mod Deleting
pub mod Matches
pub mod Outcomes
pub mod Accounts
pub mod Posting
pub mod Behind
pub mod Plain
pub mod Replays
pub mod Races
pub mod Fronts

abbrev pub codes : String → Runes
codes String.[] = []
codes (String.◌∷◌ c s) = code c ∷ codes s

pub record PostRequest : Type 0 where
  pub decisions : List Decision
  pub cursor : String

-- The window of a batch: its end, none where it has none, and how many events it holds at most.
pub record Shape : Type 0 where
  pub scan_end : Option ℕ
  pub max_match : ℕ

abbrev pub max_int : ℕ
max_int = 2 ^ 63 - 1

-- none is an empty cursor.
unfoldable pub pinned_token : Codec → String → Answer (Option CursorToken)
pinned_token k raw = if str_eq raw "" then ok none else elim (k.decode_cursor raw) [
  | none ↦ error cursor_invalid
  | some ct ↦ if ltb_ℤ ct.e ct.b then error cursor_invalid else ok (some ct)
]

-- The window is pinned where the token's base is the front.
unfoldable pub window_shape : QueuePos → Option CursorToken → Shape
window_shape at none = record { scan_end = none; max_match = max_limit }
window_shape at (some ct) =
    if same_ℤ ct.p (pos at.part) && same_ℤ ct.b (pos at.front)
    then record { scan_end = some (pos_part ct.e); max_match = max_int }
    else record { scan_end = none; max_match = max_limit }

-- Where the front goes: past the window that is pinned, or past the last event that was matched.
abbrev pub advance_to : Shape → Correlation → ℕ
advance_to w c = elim w.scan_end [ some e ↦ e | none ↦ c.advance ]

abbrev pub deletion_of : String → ℕ → QueuedReview → Deletion
deletion_of creator now q = record {
  message_id = q.item.message_id;
  content_id = q.item.content_id;
  creator_id = creator;
  reason = q.item.detector;
  issued_at = now;
}

module _ (acked : Deletion → Bool) (creator : String) (now : ℕ) where
  -- The deletions of the events that are flagged, up to the first that the broker refuses.
  unfoldable pub produce_flagged : List MatchedReview → List Deletion → List Deletion × Bool
  produce_flagged [] out = (out, true)
  produce_flagged (mt ∷ ms) out =
      let d = deletion_of creator now mt.event in
      let produced = if mt.flagged then out ++ d ∷ [] else out in
      let rest = produce_flagged ms produced in
      if mt.flagged && not (acked d) then (out, false) else rest

abbrev pub response_of : Correlation → PostResponse
response_of c = record { applied = length c.matches; deleted = c.deletion; ignored = c.ignored }

abbrev pub all_ignored : List Decision → PostResponse
all_ignored ds = record { applied = 0; deleted = 0; ignored = all_ids ds }

module _ (k : Codec) (rd : Reader) (pt : Partitioner) (ft : Faults) (acked : Deletion → Bool)
    (now : ℕ) (creator : String) where
  -- What a batch is to do, from the front that was resolved. none is a failed read.
  unfoldable pub plan_batch :
      QueuePos → Option CursorToken → List Decision → Option (ℕ × Correlation)
  plan_batch at pinned ds =
      let shape = window_shape at pinned in
      elim (collect k.decode_flagged rd at.part at.front shape.scan_end shape.max_match creator) [
        | none ↦ none
        | some c ↦ let cor = correlate at.front c.items ds in some (advance_to shape cor, cor)
      ]

  -- The transaction, for a batch that matched something.
  unfoldable pub apply_batch :
      ℕ → ℕ → Correlation → List Decision → State → State × Answer PostResponse
  apply_batch front to cor ds s =
      if length cor.matches == 0
      then (s, ok (response_of cor))
      else if ft.advance_fails
      then (s, error unavailable)
      else let (rows, out, res) =
          advance_row now creator front to (produce_flagged acked creator now cor.matches) s.cursors
            s.produced in
        let s' = record s { cursors = rows; produced = out } in
        elim res [
          | mid_failed ↦ (s', error unavailable)
          | stale ↦ (s', ok (all_ignored ds))
          | advanced ↦
              if ft.commit_fails
              then (record s { produced = out }, error unavailable)
              else (s', ok (response_of cor))
        ]

  -- A response is stored under the key of its request.
  unfoldable pub finish_post :
      String → State × Answer PostResponse → State × Answer (ℕ × PostResponse)
  finish_post key (s, error p) = (s, error p)
  finish_post key (s, ok resp) = (
    if str_eq key ""
        then s
        else record s { idem = put_response now (codes creator) (codes key) 200 resp s.idem },
    ok (200, resp),
  )

  unfoldable pub run_batch :
      Option CursorToken → List Decision → State × Answer QueuePos → State × Answer PostResponse
  run_batch pinned ds (s, error p) = (s, error p)
  run_batch pinned ds (s, ok at) = elim (plan_batch at pinned ds) [
    | none ↦ (s, error unavailable)
    | some (to, cor) ↦ apply_batch at.front to cor ds s
  ]

  abbrev pub replayed : String → State → Option (ℕ × PostResponse)
  replayed key s =
      if str_eq key "" then none else get_response now (codes creator) (codes key) s.idem

  -- POST /v1/reviews, with the decoded body and the idempotency key.
  unfoldable pub post_reviews : PostRequest → String → State → State × Answer (ℕ × PostResponse)
  post_reviews req key s = elim (validate_decisions req.decisions) [
    | some e ↦ (s, error decisions_invalid)
    | none ↦ elim (pinned_token k req.cursor) [
      | error p ↦ (s, error p)
      | ok pinned ↦ elim (replayed key s) [
        | some (status, body) ↦ (s, ok (status, body))
        | none ↦
            finish_post key (run_batch pinned req.decisions (resolve_queue ft now creator rd pt s))
      ]
    ]
  ]
