-- ===== src/Review/Handler/Paging.antt =====
-- The pages of the queue, one after the other.
use dabet.Prelude.Int.{pos}
use native.Mathlib.Nat.{suc-add}
use dabet.Review.Handler.{
  CursorToken, QueuePos, ListResponse, IsCodec, Codec, State, Faults, ok, parse_limit, scan_start,
  render_page, items_of, list_reviews,
}
use dabet.Review.Handler.Reading.{IsLive, resolve_queue-live}
use dabet.Review.Queue.{IsReader, Reader, Partitioner}
use dabet.Review.Window.{QueuedReview, Collected, collect, end_of}
use dabet.Review.Window.Following.{waiting-end_of, own_events-Ascending, le-end_of, waiting}
use dabet.Review.Window.Pages.{collect-page}
use dabet.Prelude.{
  sym, ◌⊎◌, ℕ, zero, suc, ◌+◌, ◌≤◌, ◌<◌, ◌≡◌, refl, ap, ◌∙◌, false, not, leb, String, none, some,
  List, [], ◌∷◌, ◌++◌, take, drop, length, arith,
}

items_of-append : (xs ys : List QueuedReview) → items_of (xs ++ ys) ≡ items_of xs ++ items_of ys
items_of-append [] ys = refl
items_of-append (x ∷ xs) ys = ap (λ l. x.item ∷ l) (items_of-append xs ys)

take-nil {ℓ} : {A : Type ℓ} (n : ℕ) → take {A = A} n [] ≡ []
take-nil zero = refl
take-nil (suc n) = refl

take-drop {ℓ} :
    {A : Type ℓ} (n m : ℕ) (xs : List A) → take n xs ++ take m (drop n xs) ≡ take (n + m) xs
take-drop zero m xs = ground arith
take-drop {A = A} (suc n) m [] = ground (arith, take-nil {A = A} (suc n + m), take-nil {A = A} m)
take-drop (suc n) m (x ∷ xs) = rw (suc-add n m) (ap (λ l. x ∷ l) (take-drop n m xs))

take_short {ℓ} : {A : Type ℓ} (n : ℕ) (xs : List A) → length xs < n → take n xs ≡ xs
take_short zero xs h = absurd (omega arith)
take_short (suc n) [] h = refl
take_short (suc n) (x ∷ xs) h = ap (λ l. x ∷ l) (take_short n xs (omega arith))

-- The token of a page, and the start of the page that it asks for.
abbrev pub token_of : QueuePos → ℕ → ℕ → CursorToken
token_of at from end = record { p = pos at.part; b = pos from; e = pos end }

scan_start-encoded :
    (k : Codec) (at : QueuePos) (from end : ℕ)
    → IsCodec k (token_of at from end)
    → from ≤ end
    → at.earliest ≤ end
    → scan_start k (k.encode_cursor (token_of at from end)) at ≡ ok end
unfolding scan_start
scan_start-encoded k at from end kc h g = ground (arith, kc.encoded, kc.decode_encode)

-- A limit is at least one and at most two hundred.
pub parse_limit_bounds :
    (k : Codec) (raw : String) (n : ℕ) → parse_limit k raw ≡ some n → (1 ≤ n) × (n ≤ 200)
unfolding parse_limit
parse_limit_bounds k raw n h = ground arith

module _ (k : Codec) (rd : Reader) (pt : Partitioner) (ft : Faults) (now : ℕ) (creator : String)
    (s : State) (l : IsLive rd pt creator s) where
  scan_start-retained :
      (raw : String) (from : ℕ) → scan_start k raw l.at ≡ ok from → l.at.earliest ≤ from
  unfolding scan_start
  scan_start-retained raw from h = ground arith

  abbrev rest : ℕ → List QueuedReview
  rest from = waiting k.decode_flagged rd l.at.part creator from

  abbrev page : ℕ → ℕ → Collected
  page from limit = record {
    items = take limit (rest from);
    window_end = end_of from (take limit (rest from));
    exhausted = not (leb limit (length (rest from)));
  }

  module _ (raw_limit : String) (limit : ℕ) (parsed : parse_limit k raw_limit ≡ some limit)
      (up : ft.insert_fails ≡ false) (up' : ft.select_fails ≡ false)
      (reads : (from : ℕ) → (rd.scan l.at.part from).fails ≡ false) where
    collected :
        (from : ℕ)
        → collect k.decode_flagged rd l.at.part from none limit creator ≡ some (page from limit)
    collected from =
        let (positive, _) = parse_limit_bounds k raw_limit limit parsed in
        collect-page k.decode_flagged rd l.at.part from creator limit (omega arith) (reads from)

    -- A page has the first events of the creator that wait from its start on.
    list_page :
        (raw_cursor : String) (from : ℕ)
        → scan_start k raw_cursor l.at ≡ ok from
        → list_reviews k rd pt ft now creator raw_limit raw_cursor s
          ≡ (s, ok (render_page k from l.at (page from limit)))
    unfolding list_reviews
    list_page raw_cursor from h =
        ground (arith, resolve_queue-live ft now creator rd pt s l, collected from, parsed)

    -- The end of a page, and so the start of the next one.
    abbrev page_end : ℕ → ℕ
    page_end from = end_of from (take limit (rest from))

    page_end-le : (from : ℕ) → IsReader rd → from ≤ page_end from
    page_end-le from v =
        let (high, w) = v.in_order l.at.part from in
        le-end_of from limit (rest from) (
          own_events-Ascending k.decode_flagged creator from high (rd.scan l.at.part from).records
            w)

    -- The token of a page is the cursor of its end.
    next_start :
        (from : ℕ) (tok : String)
        → IsCodec k (token_of l.at from (page_end from))
        → IsReader rd
        → l.at.earliest ≤ from
        → (render_page k from l.at (page from limit)).next_cursor ≡ some tok
        → scan_start k tok l.at ≡ ok (page_end from)
    unfolding render_page
    next_start from tok kc v h e =
        let on = page_end-le from v in
        ground (arith, scan_start-encoded k l.at from (page_end from) kc on (omega arith))

    -- Two pages, the second by the token of the first, have the first events of the creator that
    -- wait from the start of the first, without a gap or a repetition.
    pub list_reviews-next :
        (raw_cursor tok : String) (from : ℕ) (r : ListResponse)
        → IsCodec k (token_of l.at from (page_end from))
        → IsReader rd
        → scan_start k raw_cursor l.at ≡ ok from
        → list_reviews k rd pt ft now creator raw_limit raw_cursor s ≡ (s, ok r)
        → r.next_cursor ≡ some tok
        → (r' : ListResponse) × (list_reviews k rd pt ft now creator raw_limit tok s ≡ (s, ok r'))
          × (r.items ++ r'.items ≡ items_of (take (limit + limit) (rest from)))
    unfolding render_page
    list_reviews-next raw_cursor tok from r kc v h listed e =
        let is_page : r ≡ render_page k from l.at (page from limit) =
          cc (list_page raw_cursor from h) in
        let start =
          next_start from tok kc v (scan_start-retained raw_cursor from h)
            (sym (ap (λ (x : ListResponse). x.next_cursor) is_page) ∙ e) in
        let items = ap (λ (x : ListResponse). x.items) is_page in
        (
          render_page k (page_end from) l.at (page (page_end from) limit),
          list_page tok (page_end from) start,
          rw (items, waiting-end_of k.decode_flagged rd l.at.part creator from limit v)
              (sym (items_of-append (take limit (rest from)) (take limit (drop limit (rest from))))
                ∙ ap items_of (take-drop limit limit (rest from))),
        )

    -- A page without a token has all of the creator's events that wait from its start on, but for
    -- those at the high watermark of the request or past it.
    pub list_reviews-last :
        (raw_cursor : String) (from : ℕ) (r : ListResponse)
        → scan_start k raw_cursor l.at ≡ ok from
        → list_reviews k rd pt ft now creator raw_limit raw_cursor s ≡ (s, ok r)
        → r.next_cursor ≡ none
        → (r.items ≡ items_of (rest from)) ⊎ (l.at.high ≤ page_end from)
    unfolding render_page
    list_reviews-last raw_cursor from r h listed e =
        let is_page : r ≡ render_page k from l.at (page from limit) =
          cc (list_page raw_cursor from h) in
        ground (arith, is_page, take_short limit (rest from))
