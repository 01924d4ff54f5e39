-- ===== src/Review/Cursors.antt =====
-- services/review-service/internal/store/store.go and memstore/memstore.go: the rows of the review
-- cursors. The Postgres store has the same operations, each in one transaction. mid is the call that
-- Advance makes while the row is locked; it works on a state of its own, and false is an error.
use dabet.Prelude.Dict.{lookup, insert, string_eq}
use dabet.Prelude.{ℕ, Bool, true, false, not, ◌==◌, if◌then◌else◌, String, none, some, List}
pub mod Lookups

pub record Cursor : Type 0 where
  pub creator_id : String
  pub partition : ℕ
  pub next_offset : ℕ
  pub updated_at : ℕ

abbrev pub Rows : Type 0
Rows = List (String × Cursor)

unfoldable pub get_or_init : ℕ → String → ℕ → ℕ → Rows → Rows × Cursor
get_or_init now creator p offset rows = elim (lookup creator rows) [
  | some c ↦ (rows, c)
  | none ↦
      let c : Cursor = record {
        creator_id = creator;
        partition = p;
        next_offset = offset;
        updated_at = now;
      } in
      (insert creator c rows, c)
]

abbrev pub moved : ℕ → ℕ → Cursor → Cursor
moved now to c = record c { next_offset = to; updated_at = now }

unfoldable pub set_next_offset : ℕ → String → ℕ → ℕ → Rows → Rows × Bool
set_next_offset now creator from to rows = elim (lookup creator rows) [
  | none ↦ (rows, false)
  | some c ↦
      if not (c.next_offset == from)
      then (rows, false)
      else (insert creator (moved now to c) rows, true)
]

unfoldable pub reset_row : ℕ → String → ℕ → ℕ → Rows → Rows
reset_row now creator p offset rows =
    insert creator
      (record { creator_id = creator; partition = p; next_offset = offset; updated_at = now }) rows

-- stale: the row is not where the caller saw it, and nothing ran.
pub data Advanced : Type 0 where
  advanced stale mid_failed : Advanced

unfoldable pub advance_row {ℓ} :
    {E : Type ℓ} → ℕ → String → ℕ → ℕ → (E → E × Bool) → Rows → E → Rows × E × Advanced
advance_row now creator from to mid rows e = elim (lookup creator rows) [
  | none ↦ (rows, e, stale)
  | some c ↦
      if not (c.next_offset == from)
      then (rows, e, stale)
      else let (e', ok) = mid e in
        if ok then (insert creator (moved now to c) rows, e', advanced) else (rows, e', mid_failed)
]
