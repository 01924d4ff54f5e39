-- ===== src/Moderation/UsageAggregator/Windows.antt =====
-- The events of an instance's life: how they bill its windows.
use dabet.Prelude.Dict.{
  AllEntries-mono, insert-DistinctKeys, DistinctKeys, insert-AllEntries, AllEntries,
}
use dabet.Prelude.{
  max, ltb, str_eq_iff, arith, All-mono, inr, All-append, map, inl, ◌<◌, ◌*◌, Bool-cases, true,
  false, Bool, ℕ, ◌≤◌, ◌≡◌, List, [], ◌∷◌, ◌++◌, All, String,
}
use dabet.Contracts.{Usage}
use dabet.Moderation.UsageAggregator.{
  new_aggregator, nanos_per_minute, event_of, Window, split_due, minute_of, window_eq, Aggregator,
  inc, flush_due, flush_all,
}

-- What an instance does until its shutdown: the sections under its lock, in their order, each with
-- the time that its caller had read before.
pub data Op : Type 0 where
  counts_one : String → ℕ → Op
  flushes : ℕ → Op

-- No message is counted in a minute before m, nor before the minute that a flush ahead of it read:
-- no flush that reads a later minute comes between the reading of a message's time and its count.
abbrev pub NoneBehind : ℕ → List Op → Type 0
NoneBehind m [] = Unit
NoneBehind m (counts_one creator now ∷ ops) = (m ≤ minute_of now) × NoneBehind m ops
NoneBehind m (flushes now ∷ ops) = NoneBehind (max m (minute_of now)) ops

-- The events of a life of the instance, the flush at shutdown last.
unfoldable pub life : (ℕ → String) → Aggregator → List Op → List Usage
life format u [] = (flush_all format u).1
life format u (counts_one creator now ∷ ops) = life format (inc u creator now) ops
life format u (flushes now ∷ ops) =
    let (u', out) = flush_due format u now in out ++ life format u' ops

-- No two events of the list bill one window of one creator.
abbrev pub Distinct : List Usage → Type 0
Distinct [] = Unit
Distinct (ev ∷ evs) =
    All (λ other. ev.creator_id ≡ other.creator_id → ev.window_start ≡ other.window_start → ⊥) evs
    × Distinct evs

-- Every window that is counted begins at minute `m` or later, and none is counted twice.
abbrev pub Ahead : ℕ → List (Window × ℕ) → Type 0
Ahead m counts = AllEntries (λ w _. m ≤ w.minute) counts × DistinctKeys counts

inc-Ahead :
    (m : ℕ) (u : Aggregator) (creator : String) (now : ℕ)
    → m ≤ minute_of now
    → Ahead m u.counts
    → Ahead m (inc u creator now).counts
unfolding inc
inc-Ahead m u creator now h (a, d) =
    (insert-AllEntries (λ w _. m ≤ w.minute) _ _ u.counts h a, insert-DistinctKeys _ _ u.counts d)

split_due-kept {μ} :
    (P : Window → ℕ → Type μ) (test : Window → Bool) (m : List (Window × ℕ))
    → AllEntries P m
    → AllEntries (λ w n. P w n × (test w ≡ false)) (split_due test m).0
unfolding split_due
split_due-kept P test [] a = tt
split_due-kept P test ((w, n) ∷ m) (h, a) = elim (Bool-cases (test w)) [
  | inl out ↦ rw out (split_due-kept P test m a)
  | inr stays ↦ rw stays ((h, stays), split_due-kept P test m a)
]

split_due-ready {μ} :
    (P : Window → ℕ → Type μ) (test : Window → Bool) (m : List (Window × ℕ))
    → AllEntries P m
    → AllEntries (λ w n. P w n × (test w ≡ true)) (split_due test m).1
unfolding split_due
split_due-ready P test [] a = tt
split_due-ready P test ((w, n) ∷ m) (h, a) = elim (Bool-cases (test w)) [
  | inl out ↦ rw out ((h, out), split_due-ready P test m a)
  | inr stays ↦ rw stays (split_due-ready P test m a)
]

AllEntries-fst {μ κ} :
    (P : Window → ℕ → Type μ) (Q : Window → ℕ → Type κ) (m : List (Window × ℕ))
    → AllEntries (λ w n. P w n × Q w n) m
    → AllEntries P m
AllEntries-fst P Q [] a = tt
AllEntries-fst P Q ((w, n) ∷ m) (h, a) = (h.0, AllEntries-fst P Q m a)

split_due-DistinctKeys :
    (test : Window → Bool) (m : List (Window × ℕ))
    → DistinctKeys m
    → DistinctKeys (split_due test m).0 × DistinctKeys (split_due test m).1
unfolding split_due
split_due-DistinctKeys test [] d = (tt, tt)
split_due-DistinctKeys test ((w, n) ∷ m) (a, d) =
    let rest = split_due-DistinctKeys test m d in
    elim (Bool-cases (test w)) [
      | inl out ↦ rw out (
        rest.0,
        (
          AllEntries-fst _ _ _ (split_due-ready (λ v _. window_eq.beq w v ≡ false) test m a),
          rest.1,
        ),
      )
      | inr stays ↦ rw stays (
        (AllEntries-fst _ _ _ (split_due-kept (λ v _. window_eq.beq w v ≡ false) test m a), rest.0),
        rest.1,
      )
    ]

-- The events of ready windows begin where their windows do, and bill them once each.
events-All {μ} :
    (P : Window → ℕ → Type μ) (Q : Usage → Type μ) (format : ℕ → String) (id : String)
    (m : List (Window × ℕ))
    → ((w : Window) (n : ℕ) → P w n → Q (event_of format id (w, n)))
    → AllEntries P m
    → All Q (map (event_of format id) m)
events-All P Q format id [] f a = tt
events-All P Q format id ((w, n) ∷ m) f (h, a) = (f w n h, events-All P Q format id m f a)

other_window :
    (w v : Window)
    → window_eq.beq w v ≡ false
    → w.creator ≡ v.creator
    → w.minute * nanos_per_minute ≡ v.minute * nanos_per_minute
    → ⊥
other_window w v h e f = ground (arith, str_eq_iff w.creator v.creator)

events-Distinct :
    (format : ℕ → String) (id : String) (m : List (Window × ℕ))
    → DistinctKeys m
    → Distinct (map (event_of format id) m)
events-Distinct format id [] d = tt
events-Distinct format id ((w, n) ∷ m) (a, d) = (
  events-All (λ v _. window_eq.beq w v ≡ false) _ format id m (λ v k h e f. other_window w v h e f)
      a,
  events-Distinct format id m d,
)

Distinct-append :
    (b : ℕ) (xs ys : List Usage)
    → All (λ ev. ev.window_start < b) xs
    → All (λ ev. b ≤ ev.window_start) ys
    → Distinct xs
    → Distinct ys
    → Distinct (xs ++ ys)
Distinct-append b [] ys l g d e = e
Distinct-append b (x ∷ xs) ys (h, l) g (a, d) e = (
  All-append _ xs ys a (All-mono _ _ ys (λ y k p q. absurd (omega arith)) g),
  Distinct-append b xs ys l g d e,
)

-- A flush at `t` bills windows before the minute of `t`, each once, and keeps the others.
flush_due-Ahead :
    (format : ℕ → String) (m t : ℕ) (u : Aggregator)
    → Ahead m u.counts
    → Ahead (max m (minute_of t)) (flush_due format u t).0.counts
      × All
          (λ ev.
            (m * nanos_per_minute ≤ ev.window_start)
            × (ev.window_start < max m (minute_of t) * nanos_per_minute))
          (flush_due format u t).1
      × Distinct (flush_due format u t).1
unfolding flush_due
flush_due-Ahead format m t u (a, d) = (
  (
    AllEntries-mono _ (λ w _. max m (minute_of t) ≤ w.minute) _ (λ w n p. ground (arith, p.0, p.1))
        (split_due-kept (λ w _. m ≤ w.minute) test u.counts a),
    keys.0,
  ),
  events-All (λ w _. (m ≤ w.minute) × (test w ≡ true)) _ format u.instance_id _
      (λ w n p. (omega (arith, p.0), ground (arith, p.0, p.1)))
      (split_due-ready (λ w _. m ≤ w.minute) test u.counts a),
  events-Distinct format u.instance_id _ keys.1,
)
  where
    test : Window → Bool
    test w = ltb w.minute (minute_of t)

    keys : DistinctKeys (split_due test u.counts).0 × DistinctKeys (split_due test u.counts).1
    keys = split_due-DistinctKeys test u.counts d

-- The life from any point of it: the events to come begin at minute `m` or later.
life_from :
    (format : ℕ → String) (m : ℕ) (u : Aggregator) (ops : List Op)
    → NoneBehind m ops
    → Ahead m u.counts
    → All (λ ev. m * nanos_per_minute ≤ ev.window_start) (life format u ops)
      × Distinct (life format u ops)
unfolding life flush_all
life_from format m u [] o (a, d) = (
  events-All (λ w _. (m ≤ w.minute) × ((λ (v : Window). true) w ≡ true)) _ format u.instance_id _
      (λ w n p. omega (arith, p.0)) (split_due-ready (λ w _. m ≤ w.minute) _ u.counts a),
  events-Distinct format u.instance_id _ (split_due-DistinctKeys _ u.counts d).1,
)
life_from format m u (counts_one creator t ∷ ops) (le, o) s =
    life_from format m (inc u creator t) ops o (inc-Ahead m u creator t le s)
life_from format m u (flushes t ∷ ops) o s =
    let f = flush_due-Ahead format m t u s in
    let n : ℕ = max m (minute_of t) in
    let rest = life_from format n (flush_due format u t).0 ops o f.0 in
    (
      All-append _ _ _ (All-mono _ _ _ (λ ev p. p.0) f.1) (
          All-mono (λ ev. n * nanos_per_minute ≤ ev.window_start) _ _ (λ ev p. omega (arith, p))
            rest.0),
      Distinct-append (n * nanos_per_minute) _ _ (All-mono _ _ _ (λ ev p. p.1) f.1) rest.0 f.2
          rest.1,
    )

pub life-Distinct :
    (format : ℕ → String) (instance_id : String) (ops : List Op)
    → NoneBehind 0 ops
    → Distinct (life format (new_aggregator instance_id) ops)
life-Distinct format instance_id ops o =
    (life_from format 0 (new_aggregator instance_id) ops o (unfold new_aggregator in (tt, tt))).1
