-- ===== src/Review/Window/Pages.antt =====
-- What a scan of the queue collects: the creator's own events that wait for a review, in the order
-- of the log.
use mathlib.Core.List.{append_assoc, append-nil}
use dabet.Contracts.{Flagged}
use dabet.Review.Queue.{Record, Reader}
use dabet.Review.Window.{
  QueuedReview, Collected, item_of, is_review, at_end, visit, scan_records, end_of, collect,
}
use dabet.Prelude.{
  ◌∙◌, any, ◌||◌, ℕ, suc, zero, ◌+◌, ◌<◌, ◌≡◌, refl, ap, Bool, true, false, not, ◌&&◌, leb,
  if◌then◌else◌, String, str_eq, Option, none, some, List, [], ◌∷◌, ◌++◌, length, take, arith,
  Bool-cases, Option-cases, inl, inr, length-append,
}

module _ (decode : List ℕ → Option Flagged) where
  -- The event of a record that a creator has to review.
  unfoldable pub own_event : String → Record → Option QueuedReview
  own_event creator rec = elim (decode rec.value) [
    | none ↦ none
    | some f ↦
        if str_eq f.creator_id creator && is_review f.action
        then some (record { offset = rec.offset; item = item_of f })
        else none
  ]

  unfoldable pub own_events : String → List Record → List QueuedReview
  own_events creator [] = []
  own_events creator (r ∷ rs) = elim (own_event creator r) [
    | none ↦ own_events creator rs
    | some q ↦ q ∷ own_events creator rs
  ]

-- The records before the end of a window.
unfoldable pub before_end : Option ℕ → List Record → List Record
before_end end [] = []
before_end end (r ∷ rs) = if at_end end r.offset then [] else r ∷ before_end end rs

module _ (decode : List ℕ → Option Flagged) (end : Option ℕ) (limit : ℕ) (creator : String) where
  -- The scan after a record that gave v.
  abbrev go_on : List Record → List QueuedReview × Bool → List QueuedReview × Bool
  go_on rs v = elim v.1 [
    | true ↦ scan_records decode end limit creator v.0 rs
    | false ↦ (v.0, true)
  ]

  abbrev seen : List QueuedReview → Option QueuedReview → List QueuedReview × Bool
  seen items none = (items, true)
  seen items (some q) = (items ++ q ∷ [], not (leb limit (length (items ++ q ∷ []))))

  -- One record, in terms of the event that it holds.
  visit_lem :
      (items : List QueuedReview) (r : Record)
      → visit decode end limit creator items r ≡ (
          if at_end end r.offset then (items, false) else elim (own_event decode creator r) [
            | none ↦ (items, true)
            | some q ↦ (items ++ q ∷ [], not (leb limit (length (items ++ q ∷ []))))
          ])
  unfolding visit own_event
  visit_lem items r = ground arith

  scan_records_step :
      (items : List QueuedReview) (r : Record) (rs : List Record)
      → scan_records decode end limit creator items (r ∷ rs)
        ≡ go_on rs (
            if at_end end r.offset then (items, false) else seen items (own_event decode creator r))
  unfolding scan_records
  scan_records_step items r rs = ap (go_on rs) (visit_lem items r)

  -- The events before the end, record by record.
  abbrev events : List Record → List QueuedReview
  events rs = own_events decode creator (before_end end rs)

  events_over : (r : Record) (rs : List Record) → at_end end r.offset ≡ true → events (r ∷ rs) ≡ []
  unfolding own_events before_end
  events_over r rs h = rw h refl

  events_skip :
      (r : Record) (rs : List Record)
      → at_end end r.offset ≡ false
      → own_event decode creator r ≡ none
      → events (r ∷ rs) ≡ events rs
  unfolding own_events before_end
  events_skip r rs h k = rw h (rw (k, own_events) refl)

  events_add :
      (r : Record) (rs : List Record) (q : QueuedReview)
      → at_end end r.offset ≡ false
      → own_event decode creator r ≡ some q
      → events (r ∷ rs) ≡ q ∷ events rs
  unfolding own_events before_end
  events_add r rs q h k = rw h (rw (k, own_events) refl)

  full :
      (items : List QueuedReview) (q : QueuedReview)
      → limit ≡ suc (length items + 0)
      → leb limit (length (items ++ q ∷ [])) ≡ true
  full items q h = ground (arith, length-append items (q ∷ []))

  not_full :
      (items : List QueuedReview) (q : QueuedReview) (room : ℕ)
      → limit ≡ suc (length items + suc room)
      → leb limit (length (items ++ q ∷ [])) ≡ false
  not_full items q room h = ground (arith, length-append items (q ∷ []))

  -- The items are those at hand and as many of the events before the end as there is room for; the
  -- scan stops where the room is used up or the end is met.
  pub scan_records_lem :
      (room : ℕ) (items : List QueuedReview) (rs : List Record)
      → limit ≡ suc (length items + room)
      → scan_records decode end limit creator items rs ≡ (
        items ++ take (suc room) (own_events decode creator (before_end end rs)),
        leb (suc room) (length (own_events decode creator (before_end end rs)))
            || any (λ r. at_end end r.offset) rs,
      )
  unfolding scan_records own_events before_end
  scan_records_lem room items [] h = ground (arith, append-nil items)
  scan_records_lem zero items (r ∷ rs) h = elim (Bool-cases (at_end end r.offset)) [
    | inl over ↦
        rw (scan_records_step items r rs, events_over r rs over, over)
          (ground (arith, append-nil items))
    | inr more ↦ elim (Option-cases (own_event decode creator r)) [
      | inl other ↦
          rw (scan_records_step items r rs, events_skip r rs more other, more, other)
            (scan_records_lem zero items rs h)
      | inr (q, own) ↦
          rw (scan_records_step items r rs, events_add r rs q more own, more, own, full items q h)
            (ground arith)
    ]
  ]
  scan_records_lem (suc room) items (r ∷ rs) h = elim (Bool-cases (at_end end r.offset)) [
    | inl over ↦
        rw (scan_records_step items r rs, events_over r rs over, over)
          (ground (arith, append-nil items))
    | inr more ↦ elim (Option-cases (own_event decode creator r)) [
      | inl other ↦
          rw (scan_records_step items r rs, events_skip r rs more other, more, other)
            (scan_records_lem (suc room) items rs h)
      | inr (q, own) ↦
          rw
            (
              scan_records_step items r rs,
              events_add r rs q more own,
              more,
              own,
              not_full items q room h,
            )
            (ground (
              arith,
              scan_records_lem room (items ++ q ∷ []) rs
                  (omega (arith, length-append items (q ∷ []))),
              append_assoc items (q ∷ []) (take (suc room) (events rs)),
            ))
    ]
  ]

-- What follows on a scan.
abbrev finished_scan : Reader → ℕ → ℕ → List QueuedReview × Bool → Option Collected
finished_scan rd part from v =
    if not v.1 && (rd.scan part from).fails
    then none
    else some (record { items = v.0; window_end = end_of from v.0; exhausted = not v.1 })

before_end-none : (rs : List Record) → before_end none rs ≡ rs
unfolding before_end
before_end-none [] = refl
before_end-none (r ∷ rs) = ap (λ l. r ∷ l) (before_end-none rs)

any-none : (rs : List Record) → any (λ r. at_end none r.offset) rs ≡ false
any-none [] = refl
any-none (r ∷ rs) = any-none rs

module _ (decode : List ℕ → Option Flagged) (rd : Reader) (part from : ℕ) (creator : String) where
  -- What a scan is to collect, from the events of the window.
  abbrev pub page_of : Option ℕ → ℕ → Option Collected
  page_of end limit =
      let reading = rd.scan part from in
      let evs = own_events decode creator (before_end end reading.records) in
      let stopped = leb limit (length evs) || any (λ r. at_end end r.offset) reading.records in
      if not stopped && reading.fails
      then none
      else some (record {
        items = take limit evs;
        window_end = end_of from (take limit evs);
        exhausted = not stopped;
      })

  -- A scan collects the creator's events that wait for a review, in the order of the log: the first
  -- ones up to the limit, before the end of the window. It is exhausted where neither the limit nor
  -- the end was met, and only then does a failing read fail it.
  pub collect_lem :
      (end : Option ℕ) (limit : ℕ)
      → 0 < limit
      → collect decode rd part from end limit creator ≡ page_of end limit
  unfolding collect
  collect_lem end zero h = absurd (omega arith)
  collect_lem end (suc room) h = ap (finished_scan rd part from) (
      scan_records_lem decode end (suc room) creator room [] (rd.scan part from).records
        (omega arith))

  -- Without an end the window is the rest of the log.
  pub page_of-none :
      (limit : ℕ)
      → page_of none limit ≡ (
          let reading = rd.scan part from in
          let evs = own_events decode creator reading.records in
          if not (leb limit (length evs)) && reading.fails
          then none
          else some (record {
            items = take limit evs;
            window_end = end_of from (take limit evs);
            exhausted = not (leb limit (length evs));
          }))
  page_of-none limit =
      let recs = (rd.scan part from).records in
      rw (before_end-none recs, any-none recs) (ground arith)

  -- A page of a log that can be read.
  pub collect-page :
      (limit : ℕ)
      → 0 < limit
      → (rd.scan part from).fails ≡ false
      → collect decode rd part from none limit creator ≡ (
          let evs = own_events decode creator (rd.scan part from).records in
          some (record {
            items = take limit evs;
            window_end = end_of from (take limit evs);
            exhausted = not (leb limit (length evs));
          }))
  collect-page limit h reads = collect_lem none limit h ∙ page_of-none limit ∙ ground (arith, reads)
