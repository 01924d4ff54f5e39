-- ===== src/Review/Handler/Reading.antt =====
-- Where a request finds the front of the queue, and what the reading of the queue leaves as it is.
use dabet.Contracts.{flagged_key}
use dabet.Review.Queue.{Partitioner, Reader}
use dabet.Review.Cursors.Lookups.{
  lookup-set_next_offset, lookup-reset_row, lookup-get_or_init, get_or_init_cursor,
}
use dabet.Prelude.Dict.{lookup, string_eq}
use dabet.Review.Cursors.{Rows, Cursor, get_or_init, reset_row}
use dabet.Review.Queue.{Reader, Partitioner, partition}
use dabet.Review.Handler.{
  list_reviews, Codec, unavailable, error, resolve_queue, State, Faults, ok, QueuePos,
  follow_partition, snap_forward, resolve_at,
}
use dabet.Prelude.{
  sym, ◌∙◌, inr, inl, ◌||◌, Option-cases, refl, ◌&&◌, ℕ, ◌≤◌, ◌≡◌, Bool, true, false, not, ltb,
  ◌==◌, if◌then◌else◌, String, str_eq, str_eq_iff, Option, none, some, ◌∷◌, arith,
}

-- Whether the cursor of a creator stands on their partition, at an event that is retained.
abbrev pub is_live : ℕ → ℕ → Option Cursor → Bool
is_live part earliest none = true
is_live part earliest (some c) = (c.partition == part) && not (ltb c.next_offset earliest)

abbrev pub place_of : Option Cursor → Option (ℕ × ℕ)
place_of none = none
place_of (some c) = some (c.partition, c.next_offset)

-- Where the front is to be: at the cursor, where it stands on the partition at an event that is
-- retained, and at the earliest event otherwise.
abbrev pub start_of : ℕ → ℕ → Option Cursor → ℕ
start_of part earliest none = earliest
start_of part earliest (some c) = if is_live part earliest (some c) then c.next_offset else earliest

-- The queue of a creator as a request has resolved it, from state s to s'.
pub record IsResolved (creator : String) (s s' : State) (at : QueuePos) : Type 0 where
  pub placed : place_of (lookup creator s'.cursors) ≡ some (at.part, at.front)
  pub retained : at.earliest ≤ at.front
  pub lost : s'.windows_lost ≡ (
      if is_live at.part at.earliest (lookup creator s.cursors)
      then s.windows_lost
      else creator ∷ s.windows_lost)
  pub start : at.front ≡ start_of at.part at.earliest (lookup creator s.cursors)
  pub others :
      (other : String)
      → str_eq creator other ≡ false
      → lookup other s'.cursors ≡ lookup other s.cursors
  pub produced : s'.produced ≡ s.produced
  pub idem : s'.idem ≡ s.idem

module _ (ft : Faults) (now : ℕ) (creator : String) (part earliest high : ℕ) (s : State) where
  abbrev rows0 : Rows
  rows0 = (get_or_init now creator part earliest s.cursors).0

  abbrev rows1 : Rows
  rows1 = reset_row now creator part earliest rows0

  -- What is found in the rows at each step.
  resolve_at-lookup :
      (other : String) (s' : State) (at : QueuePos)
      → resolve_at ft now creator part earliest high s ≡ (s', ok at)
      → (lookup other s'.cursors
          ≡ (if str_eq creator other then lookup creator s'.cursors else lookup other s.cursors))
        × (place_of (lookup creator s'.cursors) ≡ some (at.part, at.front))
  unfolding resolve_at follow_partition snap_forward
  resolve_at-lookup other s' at h =
      let c0 = (get_or_init now creator part earliest s.cursors).1 in
      ground (
        arith,
        str_eq_iff creator other,
        str_eq_iff creator creator,
        get_or_init_cursor now creator s.cursors part earliest,
        lookup-get_or_init now creator s.cursors part earliest other,
        lookup-get_or_init now creator s.cursors part earliest creator,
        lookup-reset_row now creator rows0 part earliest other,
        lookup-reset_row now creator rows0 part earliest creator,
        lookup-set_next_offset now creator rows0 c0.next_offset earliest other,
        lookup-set_next_offset now creator rows0 c0.next_offset earliest creator,
      )

  resolve_at-IsResolved :
      (s' : State) (at : QueuePos)
      → resolve_at ft now creator part earliest high s ≡ (s', ok at)
      → IsResolved creator s s' at
  unfolding resolve_at follow_partition snap_forward
  resolve_at-IsResolved s' at h = record {
    placed = (resolve_at-lookup creator s' at h).1;
    retained = ground arith;
    lost = ground (arith, get_or_init_cursor now creator s.cursors part earliest);
    start = ground (arith, get_or_init_cursor now creator s.cursors part earliest);
    others = λ other d. ground (arith, (resolve_at-lookup other s' at h).0);
    produced = ground arith;
    idem = ground arith;
  }

  -- The position has the partition and the offsets that were asked for.
  resolve_at-bounds :
      (s' : State) (at : QueuePos)
      → resolve_at ft now creator part earliest high s ≡ (s', ok at)
      → ((at.part ≡ part) × (at.earliest ≡ earliest)) × (at.high ≡ high)
  unfolding resolve_at follow_partition snap_forward
  resolve_at-bounds s' at h = ground arith

-- The queue of a creator with a live cursor: their partition, its offsets, and the row.
pub record IsLive (rd : Reader) (pt : Partitioner) (creator : String) (s : State) : Type 0 where
  pub count : ℕ
  pub counted : rd.partitions ≡ some count
  pub at : QueuePos
  pub mapped : partition pt (flagged_key creator) count ≡ some at.part
  pub bounds : rd.offsets at.part ≡ some (at.earliest, at.high)
  pub row : Cursor
  pub is_row : lookup creator s.cursors ≡ some row
  pub on_partition : row.partition ≡ at.part
  pub at_front : row.next_offset ≡ at.front
  pub retained : at.earliest ≤ at.front

module _ (ft : Faults) (now : ℕ) (creator : String) (rd : Reader) (pt : Partitioner)
    (s : State) where
  resolve_steps :
      (n part earliest high : ℕ)
      → rd.partitions ≡ some n
      → partition pt (flagged_key creator) n ≡ some part
      → rd.offsets part ≡ some (earliest, high)
      → resolve_queue ft now creator rd pt s ≡ resolve_at ft now creator part earliest high s
  unfolding resolve_queue
  resolve_steps n part earliest high a b c = rw (resolve_queue, a) (rw b (rw c refl))

  same_bounds :
      (at : QueuePos) (part earliest high : ℕ)
      → rd.offsets part ≡ some (earliest, high)
      → ((at.part ≡ part) × (at.earliest ≡ earliest)) × (at.high ≡ high)
      → rd.offsets at.part ≡ some (at.earliest, at.high)
  same_bounds at part earliest high c ((p, e), h) = rw (p, e, h) c

  -- A request that resolves the queue of a creator, between the offsets of a partition, finds the
  -- front exactly where their cursor stands, or at the earliest event where the cursor is missing, on
  -- another partition or behind; only the last two count a lost window; and the rows of the others
  -- stay as they are.
  pub resolve_queue-IsResolved :
      (s' : State) (at : QueuePos)
      → resolve_queue ft now creator rd pt s ≡ (s', ok at)
      → IsResolved creator s s' at × (rd.offsets at.part ≡ some (at.earliest, at.high))
  unfolding resolve_queue
  resolve_queue-IsResolved s' at h = elim (Option-cases rd.partitions) [
    | inl e ↦ let h' = rw (resolve_queue, e) at h in absurd (cc)
    | inr (n, a) ↦ elim (Option-cases (partition pt (flagged_key creator) n)) [
      | inl e ↦ let h' = rw (resolve_queue, a) at h in let h2 = rw e at h' in absurd (cc)
      | inr (part, b) ↦ elim (Option-cases (rd.offsets part)) [
        | inl e ↦
            let h' = rw (resolve_queue, a) at h in
            let h2 = rw b at h' in let h3 = rw e at h2 in absurd (cc)
        | inr ((earliest, high), c) ↦
            let h' = sym (resolve_steps n part earliest high a b c) ∙ h in
            (
              resolve_at-IsResolved ft now creator part earliest high s s' at h',
              same_bounds at part earliest high c
                  (resolve_at-bounds ft now creator part earliest high s s' at h'),
            )
      ]
    ]
  ]

  found_row :
      (part earliest : ℕ) (c : Cursor)
      → lookup creator s.cursors ≡ some c
      → get_or_init now creator part earliest s.cursors ≡ (s.cursors, c)
  unfolding get_or_init
  found_row part earliest c h = rw (get_or_init, h) refl

  -- A live cursor is found as it is, whatever fails.
  pub resolve_queue-live :
      (l : IsLive rd pt creator s)
      → resolve_queue ft now creator rd pt s
        ≡ (s, if ft.insert_fails || ft.select_fails then error unavailable else ok l.at)
  unfolding resolve_at follow_partition snap_forward
  resolve_queue-live l =
      resolve_steps l.count l.at.part l.at.earliest l.at.high l.counted l.mapped l.bounds
      ∙ ground (arith, found_row l.at.part l.at.earliest l.row l.is_row)

module _ (k : Codec) (rd : Reader) (pt : Partitioner) (ft : Faults) (now : ℕ)
    (creator : String) where
  -- A reading of the queue changes nothing where the cursor is live, whatever is asked for and
  -- whatever fails.
  pub list_reviews-live :
      (raw_limit raw_cursor : String) (s : State)
      → IsLive rd pt creator s
      → (list_reviews k rd pt ft now creator raw_limit raw_cursor s).0 ≡ s
  unfolding list_reviews
  list_reviews-live raw_limit raw_cursor s l =
      ground (arith, resolve_queue-live ft now creator rd pt s l)
