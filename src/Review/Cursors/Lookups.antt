-- ===== src/Review/Cursors/Lookups.antt =====
-- What is found in the rows after each operation.
use dabet.Prelude.Dict.{lookup, insert, string_eq, lookup-insert}
use dabet.Review.Cursors.{
  Cursor, Rows, moved, get_or_init, set_next_offset, reset_row, advance_row, advanced, stale,
  mid_failed,
}
use dabet.Prelude.{
  refl, inr, inl, Option-cases, ℕ, ◌≡◌, Bool, ◌==◌, if◌then◌else◌, String, str_eq, str_eq_iff,
  Option, none, some, arith,
}

module _ (now : ℕ) (creator : String) (rows : Rows) where
  -- The row as it is once a missing one has been inserted.
  pub get_or_init_cursor :
      (part offset : ℕ)
      → (get_or_init now creator part offset rows).1 ≡ elim (lookup creator rows) [
        | some c ↦ c
        | none ↦ record {
          creator_id = creator;
          partition = part;
          next_offset = offset;
          updated_at = now;
        }
      ]
  unfolding get_or_init
  get_or_init_cursor part offset = ground arith

  pub lookup-get_or_init :
      (part offset : ℕ) (other : String)
      → lookup other (get_or_init now creator part offset rows).0 ≡ (
          if str_eq creator other
          then some (get_or_init now creator part offset rows).1
          else lookup other rows)
  unfolding get_or_init
  lookup-get_or_init part offset other = ground (
    arith,
    str_eq_iff creator other,
    lookup-insert creator other
        (record { creator_id = creator; partition = part; next_offset = offset; updated_at = now })
        rows,
  )

  pub lookup-reset_row :
      (part offset : ℕ) (other : String)
      → lookup other (reset_row now creator part offset rows) ≡ (
          if str_eq creator other
          then some (record {
            creator_id = creator;
            partition = part;
            next_offset = offset;
            updated_at = now;
          })
          else lookup other rows)
  unfolding reset_row
  lookup-reset_row part offset other = lookup-insert creator other _ rows

  abbrev pub swapped : ℕ → ℕ → Option Cursor → Option Cursor
  swapped from to none = none
  swapped from to (some c) = some (if c.next_offset == from then moved now to c else c)

  pub lookup-set_next_offset :
      (from to : ℕ) (other : String)
      → lookup other (set_next_offset now creator from to rows).0 ≡ (
          if str_eq creator other then swapped from to (lookup creator rows) else lookup other rows)
  unfolding set_next_offset
  lookup-set_next_offset from to other = elim (Option-cases (lookup creator rows)) [
    | inl absent ↦ ground (arith, absent, str_eq_iff creator other)
    | inr (c, there) ↦
        ground (
          arith,
          there,
          str_eq_iff creator other,
          lookup-insert creator other (moved now to c) rows,
        )
  ]

  -- An advance runs its call on the row that the caller saw, and moves the row where it succeeds.
  pub advance_row_lem {ℓ} :
      {E : Type ℓ} (from to : ℕ) (mid : E → E × Bool) (e : E) (c : Cursor)
      → lookup creator rows ≡ some c
      → advance_row now creator from to mid rows e ≡ (
          if c.next_offset == from
          then (if (mid e).1
              then (insert creator (moved now to c) rows, (mid e).0, advanced)
              else (rows, (mid e).0, mid_failed))
          else (rows, e, stale))
  unfolding advance_row
  advance_row_lem from to mid e c h = rw (advance_row, h) (ground arith)

  pub advance_row_absent {ℓ} :
      {E : Type ℓ} (from to : ℕ) (mid : E → E × Bool) (e : E)
      → lookup creator rows ≡ none
      → advance_row now creator from to mid rows e ≡ (rows, e, stale)
  unfolding advance_row
  advance_row_absent from to mid e h = rw (advance_row, h) refl
