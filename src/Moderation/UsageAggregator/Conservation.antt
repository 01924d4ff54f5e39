-- ===== src/Moderation/UsageAggregator/Conservation.antt =====
-- Every processed message is billed once: it is counted, and then carried by one event.
use dabet.Prelude.{
  ℕ, ◌+◌, ◌≡◌, Bool, true, List, [], ◌∷◌, String, str_eq, if◌then◌else◌, arith, map, ap,
}
use dabet.Prelude.Dict.{lookup, total, total-insert}
use dabet.Contracts.{Usage}
use dabet.Moderation.UsageAggregator.{
  Window, window_eq, Aggregator, or_zero, minute_of, inc, split_due, flush_due, flush_all, event_of,
}

abbrev weight : String → Window → ℕ → ℕ
weight creator w n = if str_eq w.creator creator then n else 0

-- The messages of a creator that wait in the aggregator, and that events carry.
abbrev pub counted : String → Aggregator → ℕ
counted creator u = total (weight creator) u.counts

abbrev pub billed : String → List Usage → ℕ
billed creator [] = 0
billed creator (ev ∷ evs) =
    (if str_eq ev.creator_id creator then ev.quantity else 0) + billed creator evs

-- `Inc` counts one message, of its creator and of nobody else.
pub inc-counted :
    (u : Aggregator) (creator other : String) (now : ℕ)
    → counted other (inc u creator now) ≡ counted other u + (if str_eq creator other then 1 else 0)
unfolding inc
inc-counted u creator other now = ground (
  arith,
  total-insert (weight other) (record { minute = minute_of now; creator = creator })
      (or_zero (lookup (record { minute = minute_of now; creator = creator }) u.counts) + 1)
      u.counts,
)

split_due-total :
    (format : ℕ → String) (id creator : String) (test : Window → Bool) (m : List (Window × ℕ))
    → total (weight creator) (split_due test m).0
        + billed creator (map (event_of format id) (split_due test m).1)
      ≡ total (weight creator) m
unfolding split_due
split_due-total format id creator test [] = omega arith
split_due-total format id creator test ((w, n) ∷ m) =
    ground (arith, split_due-total format id creator test m)

-- A flush bills for a creator what it takes out of the count, message for message.
pub flush_due-counted :
    (format : ℕ → String) (u : Aggregator) (creator : String) (now : ℕ)
    → counted creator (flush_due format u now).0 + billed creator (flush_due format u now).1
      ≡ counted creator u
unfolding flush_due
flush_due-counted format u creator now = split_due-total format u.instance_id creator _ u.counts

split_due_all : (m : List (Window × ℕ)) → (split_due (λ _. true) m).0 ≡ []
unfolding split_due
split_due_all [] = λ i. []
split_due_all ((w, n) ∷ m) = split_due_all m

-- The flush at shutdown bills everything that is still counted.
pub flush_all-counted :
    (format : ℕ → String) (u : Aggregator) (creator : String)
    → ((flush_all format u).0.counts ≡ [])
      × (billed creator (flush_all format u).1 ≡ counted creator u)
unfolding flush_all
flush_all-counted format u creator = (
  split_due_all u.counts,
  omega (
    arith,
    split_due-total format u.instance_id creator (λ _. true) u.counts,
    ap (total (weight creator)) (split_due_all u.counts),
  ),
)
