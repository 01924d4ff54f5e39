-- ===== src/Examples/Reviews.antt =====
-- The review queue at concrete inputs: one partition with three events of one creator.
use dabet.Review.Applying.Outcomes.{queue_of}
use dabet.Review.Applying.Plain.{plain}
use dabet.Review.Applying.Behind.{DistinctEvents}
use dabet.Review.Cursors.{advance_row, get_or_init}
use dabet.Contracts.{Flagged, Deletion, review, restricted_word}
use dabet.Prelude.Int.{pos}
use dabet.Review.Applying.{
  finish_post, produce_flagged, window_shape, plan_batch, run_batch, pinned_token, post_reviews,
  apply_batch, all_ignored,
}
use dabet.Review.Applying.Fronts.{post_reviews-IsAt, IsAt}
use dabet.Review.Applying.Posting.{post_reviews-IsPosted, IsPosted}
use dabet.Review.Applying.Races.{apply_batch-apply_batch}
use dabet.Review.Applying.Replays.{post_reviews-again}
use dabet.Review.Decisions.{
  Correlation, index_by_id, take_decision, correlate_loop, correlate, check_decisions, Decision,
  validate_decisions,
}
use dabet.Review.Decisions.Accepting.{validate_decisions_iff, IsDecision, DistinctIds}
use dabet.Review.Handler.{
  PostResponse, Answer, scan_start, parse_limit, snap_forward, follow_partition, resolve_at, Codec,
  State, Faults, QueuePos, ok, list_reviews, resolve_queue, ListResponse, items_of, render_page,
}
use dabet.Review.Handler.Paging.{list_reviews-next, token_of}
use dabet.Review.Handler.Reading.{IsLive, IsResolved, resolve_queue-IsResolved, list_reviews-live}
use dabet.Review.Idem.{get_response, put_response}
use dabet.Review.Idem.Replay.{get_response-put_response}
use dabet.Review.Window.Following.{waiting}
use dabet.Review.Queue.{
  partition, fake_offsets, fake_scan, Partitioner, FakeLog, fake_reader, append_record,
  new_fake_log, IsReader,
}
use dabet.Review.Queue.Logs.{fake_reader-IsReader, append_record-IsLog, new_fake_log-IsLog}
use dabet.Review.Window.{item_of, QueuedReview, visit, scan_records, collect}
use dabet.Review.Window.Pages.{own_event, own_events, collect_lem, page_of}
use dabet.Prelude.{
  ℕ, ◌≤◌, ◌≡◌, refl, Bool, true, false, String, Option, none, some, List, [], ◌∷◌, arith, take,
  length, ◌==◌, if◌then◌else◌, ◌↔◌, All,
}

abbrev waiting_event : String → Flagged
waiting_event id = record {
  message_id = id;
  content_id = "c";
  author_id = "a";
  creator_id = "u";
  text = [];
  detector = restricted_word;
  action = review;
  policy_id = "p";
  flagged_at = 5;
}

-- The first byte of a value names the message; a value without bytes does not decode.
abbrev decode_byte : List ℕ → Option Flagged
decode_byte [] = none
decode_byte (b ∷ _) = some (waiting_event (if b == 1 then "m1" else if b == 2 then "m2" else "m3"))

abbrev pos_at : ℕ → QueuePos
pos_at front = record { part = 0; earliest = 0; high = 4; front = front }

abbrev codec : Codec
codec = record {
  decode_flagged = decode_byte;
  atoi = λ _. some (pos 1);
  encode_cursor = λ _. "t";
  decode_cursor = λ _. some (token_of (pos_at 0) 0 1);
}

abbrev log : FakeLog
log =
    let l1 = (append_record (new_fake_log 1) 0 "u" (1 ∷ [])).0 in
    let l2 = (append_record l1 0 "u" []).0 in
    let l3 = (append_record l2 0 "u" (2 ∷ [])).0 in (append_record l3 0 "u" (3 ∷ [])).0

log-IsReader : IsReader (fake_reader log)
log-IsReader =
    let l0 = new_fake_log 1 in
    let l1 = (append_record l0 0 "u" (1 ∷ [])).0 in
    let l2 = (append_record l1 0 "u" []).0 in
    let l3 = (append_record l2 0 "u" (2 ∷ [])).0 in
    let w1 = append_record-IsLog l0 0 "u" (1 ∷ []) (new_fake_log-IsLog 1) in
    let w2 = append_record-IsLog l1 0 "u" [] w1 in
    let w3 = append_record-IsLog l2 0 "u" (2 ∷ []) w2 in
    fake_reader-IsReader log (append_record-IsLog l3 0 "u" (3 ∷ []) w3)

abbrev keyed : Partitioner
keyed = record { requires_consistency = λ _. true; by_backup = none; direct = λ _ _. 0 }

abbrev no_faults : Faults
no_faults = record {
  insert_fails = false;
  select_fails = false;
  reset_fails = false;
  snap_fails = false;
  advance_fails = false;
  commit_fails = false;
}

abbrev at_start : State
at_start = record {
  cursors = ("u", record { creator_id = "u"; partition = 0; next_offset = 0; updated_at = 1 }) ∷ [];
  produced = [];
  windows_lost = [];
  idem = [];
}

abbrev decision_on : String → Bool → Decision
decision_on id flag = record { message_id = id; flagged = some flag }

abbrev live : IsLive (fake_reader log) keyed "u" at_start
unfolding fake_reader append_record new_fake_log partition fake_offsets
live = record {
  count = 1;
  counted = refl;
  at = pos_at 0;
  mapped = refl;
  bounds = refl;
  row = record { creator_id = "u"; partition = 0; next_offset = 0; updated_at = 1 };
  is_row = refl;
  on_partition = refl;
  at_front = refl;
  retained = omega arith;
}

abbrev batch : List Decision
batch = decision_on "m1" true ∷ decision_on "m2" false ∷ []

-- The state after the batch has been applied at time 9.
abbrev after_batch : State
after_batch = record {
  cursors = ("u", record { creator_id = "u"; partition = 0; next_offset = 3; updated_at = 9 }) ∷ [];
  produced =
      record {
        message_id = "m1";
        content_id = "c";
        creator_id = "u";
        reason = restricted_word;
        issued_at = 9;
      }
      ∷ [];
  windows_lost = [];
  idem = [];
}

abbrev all_taken : Deletion → Bool
all_taken _ = true

posted :
    post_reviews codec (fake_reader log) keyed no_faults all_taken 9 "u" (plain batch) "" at_start
    ≡ (after_batch, ok (200, record { applied = 2; deleted = 1; ignored = [] }))
unfolding post_reviews validate_decisions check_decisions pinned_token resolve_queue partition
    resolve_at follow_partition snap_forward get_or_init run_batch plan_batch window_shape collect
    scan_records visit fake_reader fake_scan fake_offsets append_record new_fake_log correlate
    correlate_loop take_decision index_by_id apply_batch advance_row produce_flagged finish_post
posted = refl

post_reviews-IsPosted_example :
    IsPosted codec (fake_reader log) keyed no_faults all_taken 9 "u" (plain batch) "" at_start (
      post_reviews codec
        (fake_reader log)
        keyed
        no_faults
        all_taken
        9
        "u"
        (plain batch)
        ""
        at_start)
post_reviews-IsPosted_example =
    post_reviews-IsPosted codec (fake_reader log) keyed no_faults all_taken 9 "u" (plain batch) ""
      at_start

reads : (from : ℕ) → ((fake_reader log).scan 0 from).fails ≡ false
unfolding fake_reader fake_scan append_record new_fake_log
reads from = refl

distinct : DistinctEvents (waiting decode_byte (fake_reader log) 0 "u" 0)
unfolding fake_reader fake_scan append_record new_fake_log own_events own_event
distinct = ((refl, (refl, tt)), ((refl, tt), (tt, tt)))

abbrev second_post : State × Answer (ℕ × PostResponse)
second_post =
    post_reviews codec (fake_reader log) keyed no_faults all_taken 10 "u" (plain batch) "k"
      after_batch

post_reviews-again_example :
    ((second_post.0.cursors ≡ after_batch.cursors)
      × (second_post.0.produced ≡ after_batch.produced)
      × (second_post.0.windows_lost ≡ after_batch.windows_lost))
    × (second_post.1 ≡ ok (200, all_ignored batch))
unfolding live get_response
post_reviews-again_example =
    post_reviews-again codec (fake_reader log) keyed "u" no_faults no_faults all_taken all_taken 9
      10 batch "" "k" at_start after_batch 200 (record { applied = 2; deleted = 1; ignored = [] })
      live log-IsReader reads distinct refl posted refl refl refl

abbrev queued : ℕ → String → QueuedReview
queued offset id = record { offset = offset; item = item_of (waiting_event id) }

-- The plan of the batch.
abbrev first_two : Correlation
first_two = record {
  matches =
      record { event = queued 0 "m1"; flagged = true }
      ∷ record { event = queued 2 "m2"; flagged = false }
      ∷ [];
  ignored = [];
  advance = 3;
  deletion = 1;
}

apply_batch-apply_batch_example :
    apply_batch codec
      (fake_reader log)
      keyed
      no_faults
      all_taken
      10
      "u"
      0
      3
      first_two
      batch
      after_batch
    ≡ (after_batch, ok (all_ignored batch))
unfolding fake_reader fake_scan append_record new_fake_log plan_batch window_shape collect
    scan_records visit correlate correlate_loop take_decision index_by_id apply_batch advance_row
    produce_flagged
apply_batch-apply_batch_example =
    apply_batch-apply_batch codec (fake_reader log) keyed "u" no_faults no_faults all_taken
      all_taken 9 10 (pos_at 0) none batch batch 3 3 first_two first_two at_start after_batch
      (record { creator_id = "u"; partition = 0; next_offset = 0; updated_at = 1 })
      (record { applied = 2; deleted = 1; ignored = [] }) log-IsReader refl refl refl (omega arith)
      refl (omega arith) refl

post_reviews-IsAt_example :
    IsAt "u"
      (decision_on "m1" true ∷ [])
      (queue_of codec (fake_reader log) keyed no_faults all_taken 9 "u" (pos_at 0))
      at_start.cursors
      (post_reviews codec
        (fake_reader log)
        keyed
        no_faults
        all_taken
        9
        "u"
        (plain (decision_on "m1" true ∷ []))
        "k"
        at_start).0.cursors
      0
      0
unfolding live
post_reviews-IsAt_example =
    post_reviews-IsAt codec (fake_reader log) keyed no_faults all_taken 9 "u"
      (decision_on "m1" true ∷ []) "k" at_start live

list_reviews-next_example :
    (r : ListResponse) × (list_reviews codec
        (fake_reader log)
        keyed
        no_faults
        9
        "u"
        "1"
        "t"
        at_start
      ≡ (at_start, ok r))
    × (item_of (waiting_event "m1") ∷ r.items
        ≡ items_of (take 2 (waiting decode_byte (fake_reader log) 0 "u" 0)))
unfolding live list_reviews parse_limit resolve_queue partition resolve_at follow_partition
    snap_forward get_or_init scan_start collect scan_records visit fake_reader fake_scan
    fake_offsets append_record new_fake_log render_page own_events own_event
list_reviews-next_example =
    list_reviews-next codec (fake_reader log) keyed no_faults 9 "u" at_start live "1" 1 refl refl
      refl reads "" "t" 0
      (record { items = item_of (waiting_event "m1") ∷ []; next_cursor = some "t" })
      (record { decode_encode = refl; encoded = refl }) log-IsReader refl refl refl

collect_lem_example :
    collect decode_byte (fake_reader log) 0 0 (some 3) 1 "u"
    ≡ page_of decode_byte (fake_reader log) 0 0 "u" (some 3) 1
collect_lem_example = collect_lem decode_byte (fake_reader log) 0 0 "u" (some 3) 1 (omega arith)

resolve_queue-IsResolved_example :
    IsResolved "u" at_start at_start (pos_at 0) × ((fake_reader log).offsets 0 ≡ some (0, 4))
unfolding resolve_queue partition resolve_at follow_partition snap_forward get_or_init fake_reader
    fake_offsets append_record new_fake_log
resolve_queue-IsResolved_example =
    resolve_queue-IsResolved no_faults 9 "u" (fake_reader log) keyed at_start at_start (pos_at 0)
      refl

list_reviews-live_example :
    (list_reviews codec (fake_reader log) keyed no_faults 9 "u" "" "" at_start).0 ≡ at_start
list_reviews-live_example =
    list_reviews-live codec (fake_reader log) keyed no_faults 9 "u" "" "" at_start live

validate_decisions_iff_example :
    (validate_decisions batch ≡ none)
    ↔ ((1 ≤ length batch) × (length batch ≤ 200) × All IsDecision batch × DistinctIds batch)
validate_decisions_iff_example = validate_decisions_iff batch

get_response-put_response_example :
    get_response 20 (117 ∷ []) (49 ∷ []) (put_response 9 (117 ∷ []) (49 ∷ []) 200 true [])
    ≡ some (200, true)
get_response-put_response_example =
    get_response-put_response 9 20 (117 ∷ []) (49 ∷ []) (117 ∷ []) (49 ∷ []) 200 true []
      (omega arith) tt
