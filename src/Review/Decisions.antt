-- ===== src/Review/Decisions.antt =====
-- services/review-service/internal/api/handler.go: the decisions of a POST, their checks, and how
-- they are matched with the events of the window.
use Prim.Native.Char.{code}
use dabet.Prelude.Dict.{lookup, insert, string_eq}
use dabet.Review.Handler.{PostResponse, max_limit}
use dabet.Review.Window.{QueuedReview}
use dabet.Prelude.{
  ℕ, ◌+◌, Bool, true, false, not, ◌&&◌, ◌||◌, ◌==◌, ltb, if◌then◌else◌, String, str_eq, Option,
  none, some, List, [], ◌∷◌, ◌++◌, map, length, any,
}
pub mod Accepting
pub mod Matching

-- flagged is none where the field is absent.
pub record Decision : Type 0 where
  pub message_id : String
  pub flagged : Option Bool

-- len of a text: the bytes of its UTF-8.
abbrev pub rune_bytes : ℕ → ℕ
rune_bytes c = if ltb c 0x80 then 1 else if ltb c 0x800 then 2 else if ltb c 0x10000 then 3 else 4

abbrev pub byte_length : String → ℕ
byte_length String.[] = 0
byte_length (String.◌∷◌ c s) = rune_bytes (code c) + byte_length s

pub data DecisionError : Type 0 where
  no_decisions too_many bad_message_id no_flagged duplicate_id : DecisionError

-- The loop of validateDecisions, with the ids that were seen.
unfoldable pub check_decisions : List String → List Decision → Option DecisionError
check_decisions seen [] = none
check_decisions seen (d ∷ ds) =
    let rest = check_decisions (d.message_id ∷ seen) ds in
    if str_eq d.message_id "" || ltb 64 (byte_length d.message_id)
    then some bad_message_id
    else elim d.flagged [
      | none ↦ some no_flagged
      | some b ↦ if any (str_eq d.message_id) seen then some duplicate_id else rest
    ]

-- none where the decisions pass.
unfoldable pub validate_decisions : List Decision → Option DecisionError
validate_decisions ds =
    if length ds == 0
    then some no_decisions
    else if ltb max_limit (length ds)
    then some too_many
    else check_decisions [] ds

-- The first event of each message id.
unfoldable pub index_by_id :
    List (String × QueuedReview) → List QueuedReview → List (String × QueuedReview)
index_by_id m [] = m
index_by_id m (q ∷ qs) =
    index_by_id
      (elim (lookup q.item.message_id m) [ none ↦ insert q.item.message_id q m | some _ ↦ m ]) qs

pub record MatchedReview : Type 0 where
  pub event : QueuedReview
  pub flagged : Bool

pub record Correlation : Type 0 where
  pub matches : List MatchedReview
  pub ignored : List String
  pub advance : ℕ
  pub deletion : ℕ

-- *d.Flagged, which the checks have found to be set.
abbrev pub is_flagged : Decision → Bool
is_flagged d = elim d.flagged [ some b ↦ b | none ↦ false ]

unfoldable pub take_decision : List (String × QueuedReview) → Correlation → Decision → Correlation
take_decision by_id c d = elim (lookup d.message_id by_id) [
  | none ↦ record c { ignored = c.ignored ++ d.message_id ∷ [] }
  | some q ↦ record {
    matches = c.matches ++ record { event = q; flagged = is_flagged d } ∷ [];
    ignored = c.ignored;
    advance = if ltb c.advance (q.offset + 1) then q.offset + 1 else c.advance;
    deletion = if is_flagged d then c.deletion + 1 else c.deletion;
  }
]

unfoldable pub correlate_loop :
    List (String × QueuedReview) → Correlation → List Decision → Correlation
correlate_loop by_id c [] = c
correlate_loop by_id c (d ∷ ds) = correlate_loop by_id (take_decision by_id c d) ds

unfoldable pub correlate : ℕ → List QueuedReview → List Decision → Correlation
correlate front window ds =
    correlate_loop (index_by_id [] window)
      (record { matches = []; ignored = []; advance = front; deletion = 0 }) ds

abbrev pub all_ids : List Decision → List String
all_ids [] = []
all_ids (d ∷ ds) = d.message_id ∷ all_ids ds
