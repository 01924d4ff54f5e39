-- ===== src/Review/Handler.antt =====
-- services/review-service/internal/api/handler.go: the state of the service, resolve and list. A
-- request is answered on its own state of the log, the clock and the database; which calls of the
-- database fail is a parameter. Metrics are left out but for the count of lost windows; a token that
-- is absent is the empty text.
use dabet.Contracts.{Flagged, Deletion, flagged_key}
use dabet.Prelude.Int.{ℤ, pos, pos_part, ltb_ℤ}
use dabet.Review.Cursors.{Cursor, Rows, get_or_init, set_next_offset, reset_row}
use dabet.Review.Idem.{IdemEntry}
use dabet.Review.Queue.{Reader, Partitioner, partition}
use dabet.Review.Window.{PendingReview, QueuedReview, Collected, collect}
use dabet.Prelude.{
  ◌≡◌, ℕ, ◌-◌, Bool, true, false, not, ◌&&◌, ◌||◌, ◌==◌, ltb, if◌then◌else◌, String, str_eq, Runes,
  Option, none, some, List, [], ◌∷◌, map, Bool,
}
pub mod Reading
pub mod Paging

pub record CursorToken : Type 0 where
  pub p : ℤ
  pub b : ℤ
  pub e : ℤ

-- encoding/json, encoding/base64 and strconv. none is an error.
pub record Codec : Type 0 where
  pub decode_flagged : List ℕ → Option Flagged
  pub atoi : String → Option ℤ
  pub encode_cursor : CursorToken → String
  pub decode_cursor : String → Option CursorToken

-- A token that was encoded is decoded again, from a text that is not empty.
pub record IsCodec (k : Codec) (t : CursorToken) : Type 0 where
  pub decode_encode : k.decode_cursor (k.encode_cursor t) ≡ some t
  pub encoded : str_eq (k.encode_cursor t) "" ≡ false

pub record PostResponse : Type 0 where
  pub applied : ℕ
  pub deleted : ℕ
  pub ignored : List String

-- The rows, what went to deletions.v1, the creators that windows were lost of, and the responses.
pub record State : Type 0 where
  pub cursors : Rows
  pub produced : List Deletion
  pub windows_lost : List String
  pub idem : List (Runes × IdemEntry PostResponse)

-- The calls of the database that fail. The insert and the select of GetOrInit are two,
-- and so are the transaction of Advance before its call and its commit.
pub record Faults : Type 0 where
  pub insert_fails : Bool
  pub select_fails : Bool
  pub reset_fails : Bool
  pub snap_fails : Bool
  pub advance_fails : Bool
  pub commit_fails : Bool

-- The codes of an error's envelope.
pub data Problem : Type 0 where
  unavailable internal_error : Problem
  limit_invalid cursor_invalid decisions_invalid : Problem

pub data Answer {ℓ} (A : Type ℓ) : Type ℓ where
  ok : A → Answer A
  error : Problem → Answer A

pub record QueuePos : Type 0 where
  pub part : ℕ
  pub earliest : ℕ
  pub high : ℕ
  pub front : ℕ

module _ (ft : Faults) (now : ℕ) (creator : String) where
  -- The partition count changed under the stored cursor.
  unfoldable pub follow_partition : ℕ → ℕ → Cursor → State → State × Answer Cursor
  follow_partition part earliest cur s =
      if cur.partition == part
      then (s, ok cur)
      else let s' = record s { windows_lost = creator ∷ s.windows_lost } in
        if ft.reset_fails then (s', error unavailable) else (
          record s' { cursors = reset_row now creator part earliest s'.cursors },
          ok (record cur { partition = part; next_offset = earliest }),
        )

  -- The cursor fell behind retention. Whether the swap applied is not looked at.
  unfoldable pub snap_forward : ℕ → Cursor → State → State × Answer ℕ
  snap_forward earliest cur s =
      if not (ltb cur.next_offset earliest)
      then (s, ok cur.next_offset)
      else let s' = record s { windows_lost = creator ∷ s.windows_lost } in
        if ft.snap_fails then (s', error unavailable) else (
          record s' {
            cursors = (set_next_offset now creator cur.next_offset earliest s'.cursors).0;
          },
          ok earliest,
        )

  -- resolve, from the reading of the cursor on.
  unfoldable pub resolve_at : ℕ → ℕ → ℕ → State → State × Answer QueuePos
  resolve_at part earliest high s =
      let (rows, cur) = get_or_init now creator part earliest s.cursors in
      let s1 = record s { cursors = rows } in
      if ft.insert_fails
      then (s, error unavailable)
      else if ft.select_fails
      then (s1, error unavailable)
      else let (s2, followed) = follow_partition part earliest cur s1 in
        elim followed [
          | error p ↦ (s2, error p)
          | ok cur' ↦
              let (s3, snapped) = snap_forward earliest cur' s2 in
              elim snapped [
                | error p ↦ (s3, error p)
                | ok front ↦ (
                  s3,
                  ok (record { part = part; earliest = earliest; high = high; front = front }),
                )
              ]
        ]

  unfoldable pub resolve_queue : Reader → Partitioner → State → State × Answer QueuePos
  resolve_queue rd pt s = elim rd.partitions [
    | none ↦ (s, error unavailable)
    | some n ↦ elim (partition pt (flagged_key creator) n) [
      | none ↦ (s, error internal_error)
      | some part ↦ elim (rd.offsets part) [
        | none ↦ (s, error unavailable)
        | some (earliest, high) ↦ resolve_at part earliest high s
      ]
    ]
  ]

-- pkg/httpx/pagination.go.
abbrev pub default_limit : ℕ
default_limit = 50

abbrev pub max_limit : ℕ
max_limit = 200

-- none is the error of a limit that is not a positive integer.
unfoldable pub parse_limit : Codec → String → Option ℕ
parse_limit k raw = if str_eq raw "" then some default_limit else elim (k.atoi raw) [
  | none ↦ none
  | some n ↦
      if ltb_ℤ n (pos 1)
      then none
      else if ltb_ℤ (pos max_limit) n
      then some max_limit
      else some (pos_part n)
]

-- next_cursor is omitted where it is none.
pub record ListResponse : Type 0 where
  pub items : List PendingReview
  pub next_cursor : Option String

abbrev pub items_of : List QueuedReview → List PendingReview
items_of [] = []
items_of (q ∷ qs) = q.item ∷ items_of qs

abbrev pub same_ℤ : ℤ → ℤ → Bool
same_ℤ a b = not (ltb_ℤ a b) && not (ltb_ℤ b a)

-- Where a page begins: at the front, or at the end of the window of the client's cursor.
unfoldable pub scan_start : Codec → String → QueuePos → Answer ℕ
scan_start k raw pos' = if str_eq raw "" then ok pos'.front else elim (k.decode_cursor raw) [
  | none ↦ error cursor_invalid
  | some ct ↦
      if not (same_ℤ ct.p (pos pos'.part)) || ltb_ℤ ct.e ct.b
      then error cursor_invalid
      else if ltb_ℤ ct.e (pos pos'.earliest)
      then ok pos'.earliest
      else ok (pos_part ct.e)
]

-- The page from an offset on.
unfoldable pub render_page : Codec → ℕ → QueuePos → Collected → ListResponse
render_page k from pos' c = record {
  items = items_of c.items;
  next_cursor =
      if not c.exhausted && ltb c.window_end pos'.high
      then some (k.encode_cursor (record { p = pos pos'.part; b = pos from; e = pos c.window_end }))
      else none;
}

module _ (k : Codec) (rd : Reader) (pt : Partitioner) (ft : Faults) (now : ℕ) where
  -- GET /v1/reviews, with the raw limit and cursor of the query.
  unfoldable pub list_reviews : String → String → String → State → State × Answer ListResponse
  list_reviews creator raw_limit raw_cursor s = elim (parse_limit k raw_limit) [
    | none ↦ (s, error limit_invalid)
    | some limit ↦
        let (s', resolved) = resolve_queue ft now creator rd pt s in
        elim resolved [
          | error p ↦ (s', error p)
          | ok pos' ↦ elim (scan_start k raw_cursor pos') [
            | error p ↦ (s', error p)
            | ok from ↦ elim (collect k.decode_flagged rd pos'.part from none limit creator) [
              | none ↦ (s', error unavailable)
              | some c ↦ (s', ok (render_page k from pos' c))
            ]
          ]
        ]
  ]
