-- ===== src/Kafka/Keyed/Workers.antt =====
-- The workers of a keyed partition (route and runSub of keyed.go): a record goes to the channel of
-- its key's worker, and a worker takes its records one at a time.
use mathlib.Core.List.{append_assoc, append-nil}
use dabet.Prelude.{
  Option, none, some, ◌≤◌, keep-append, inr, ==_iff, ap, ◌∙◌, ◌&&◌, sym, inl, false, arith, ◌<◌,
  ◌∷◌, ◌≢◌, ◌∷◌, true, length, Bool-cases, ◌≡◌, keep, if◌then◌else◌, [], ◌==◌, ◌++◌, ℕ, List, Bool,
  refl,
}
use dabet.Kafka.Keyed.{KRecord, worker_for}

-- For each index, the records in a channel, or those that its worker has handled.
abbrev pub Subs : Type 0
Subs = ℕ → List KRecord

abbrev pub push_to : ℕ → KRecord → Subs → Subs
push_to i r subs j = if i == j then subs j ++ r ∷ [] else subs j

abbrev pub rest_at : ℕ → List KRecord → Subs → Subs
rest_at i rest subs j = if i == j then rest else subs j

abbrev pub busy_at : ℕ → Option KRecord → (ℕ → Option KRecord) → ℕ → Option KRecord
busy_at i o busy j = if i == j then o else busy j

-- The channels, the record that each worker is on, those that it has handled, and the records routed.
pub record Workers : Type 0 where
  pub subs : Subs
  pub busy : ℕ → Option KRecord
  pub handled : Subs
  pub routed : List KRecord

abbrev pub idle_workers : Workers
idle_workers = record { subs = λ _. []; busy = λ _. none; handled = λ _. []; routed = [] }

-- The workers of a partition with n channels of room for `depth` records each. `route` indexes the
-- channels with the worker of the key, and would panic out of their range; it waits while a channel
-- is full. A worker receives a record only when it is done with the one before.
pub data Ran (n depth : ℕ) : Workers → Type 0 where
  started : Ran n depth idle_workers
  sends :
      {w : Workers} (r : KRecord)
      → Ran n depth w
      → worker_for r.key n < n
      → length (w.subs (worker_for r.key n)) < depth
      → Ran n depth
          (record w { subs = push_to (worker_for r.key n) r w.subs; routed = w.routed ++ r ∷ [] })
  takes :
      {w : Workers} (i : ℕ) (r : KRecord) (rest : List KRecord)
      → Ran n depth w
      → w.busy i ≡ none
      → w.subs i ≡ r ∷ rest
      → Ran n depth (record w { subs = rest_at i rest w.subs; busy = busy_at i (some r) w.busy })
  finishes :
      {w : Workers} (i : ℕ) (r : KRecord)
      → Ran n depth w
      → w.busy i ≡ some r
      → Ran n depth (record w { busy = busy_at i none w.busy; handled = push_to i r w.handled })

abbrev pub on_it : Option KRecord → List KRecord
on_it none = []
on_it (some r) = r ∷ []

abbrev pub goes_to : ℕ → ℕ → KRecord → Bool
goes_to n i r = worker_for r.key n == i

abbrev pub same_key : List ℕ → List ℕ → Bool
same_key [] [] = true
same_key [] (b ∷ bs) = false
same_key (a ∷ k) [] = false
same_key (a ∷ k) (b ∷ bs) = a == b && same_key k bs

keep-keep {ℓ} :
    {A : Type ℓ} (p q : A → Bool) (xs : List A)
    → ((x : A) → p x ≡ true → q x ≡ true)
    → keep p (keep q xs) ≡ keep p xs
keep-keep p q [] h = refl
keep-keep p q (x ∷ xs) h = ground (arith, keep-keep p q xs h, h x)

same_key→≡ : (k l : List ℕ) → same_key k l ≡ true → k ≡ l
same_key→≡ [] [] h = refl
same_key→≡ [] (b ∷ bs) h = absurd (cc)
same_key→≡ (a ∷ k) [] h = absurd (cc)
same_key→≡ (a ∷ k) (b ∷ bs) h = ground (arith, same_key→≡ k bs)

keep-disjoint {ℓ} :
    {A : Type ℓ} (p q : A → Bool) (xs : List A)
    → ((x : A) → p x ≡ true → q x ≢ true)
    → keep p (keep q xs) ≡ []
keep-disjoint p q [] h = refl
keep-disjoint p q (x ∷ xs) h = ground (arith, keep-disjoint p q xs h, h x)

append_is_nil {ℓ} : {A : Type ℓ} (xs ys : List A) → xs ++ ys ≡ [] → xs ≡ []
append_is_nil [] ys h = refl
append_is_nil (x ∷ xs) ys h = absurd (cc)

-- Each worker's share: the records it has handled, then the one it is on, then those in its channel,
-- are the records routed whose keys are its own, in their order.
pub workers-in_order :
    (n depth : ℕ) {w : Workers}
    → Ran n depth w
    → (i : ℕ) → (w.handled i ++ on_it (w.busy i)) ++ w.subs i ≡ keep (goes_to n i) w.routed
workers-in_order n depth started i = refl
workers-in_order n depth (sends {w} r p inside room) i =
    elim (Bool-cases (worker_for r.key n == i)) [
      | inl own ↦ ground (
        arith,
        own,
        workers-in_order n depth p i,
        append_assoc (w.handled i ++ on_it (w.busy i)) (w.subs i) (r ∷ []),
        keep-append (goes_to n i) w.routed (r ∷ []),
      )
      | inr other ↦ ground (
        arith,
        other,
        workers-in_order n depth p i,
        keep-append (goes_to n i) w.routed (r ∷ []),
        append-nil (keep (goes_to n i) w.routed),
      )
    ]
workers-in_order n depth (takes {w} j r rest p idle h) i = elim (Bool-cases (j == i)) [
  | inl own ↦ ground (
    arith,
    own,
    workers-in_order n depth p i,
    idle,
    h,
    append-nil (w.handled i),
    append_assoc (w.handled i) (r ∷ []) rest,
  )
  | inr other ↦ ground (arith, other, workers-in_order n depth p i)
]
workers-in_order n depth (finishes {w} j r p on) i = elim (Bool-cases (j == i)) [
  | inl own ↦
      ground (arith, own, workers-in_order n depth p i, on, append-nil (w.handled i ++ r ∷ []))
  | inr other ↦ ground (arith, other, workers-in_order n depth p i)
]

-- The worker of every key is one of the n.
worker_for-inside : (key : List ℕ) (n : ℕ) → 1 ≤ n → worker_for key n < n
unfolding worker_for
worker_for-inside key n h = ground arith

-- The worker of a key is one of the n, whatever the key. It handles the records of the key one at a
-- time, in the order they were routed in: those it has handled, the one it is on and those in its
-- channel are the ones that were routed. No other worker handles one or is on one.
pub key-in_order :
    (n depth : ℕ) {w : Workers} (key : List ℕ)
    → 1 ≤ n
    → Ran n depth w
    → (worker_for key n < n)
      × (keep
              (λ r. same_key r.key key)
              (w.handled (worker_for key n) ++ on_it (w.busy (worker_for key n)))
            ++ keep (λ r. same_key r.key key) (w.subs (worker_for key n))
          ≡ keep (λ r. same_key r.key key) w.routed)
      × ((i : ℕ)
          → i ≢ worker_for key n
          → keep (λ r. same_key r.key key) (w.handled i ++ on_it (w.busy i)) ≡ [])
key-in_order n depth {w} key some_worker p = (
  worker_for-inside key n some_worker,
  sym (keep-append of_key (w.handled mine ++ on_it (w.busy mine)) (w.subs mine))
      ∙ ap (keep of_key) (workers-in_order n depth p mine)
      ∙ keep-keep of_key (goes_to n mine) w.routed (λ r same. (==_iff _ _).1 (own r same)),
  λ i other.
      append_is_nil (keep of_key (w.handled i ++ on_it (w.busy i))) (keep of_key (w.subs i)) (
        sym (keep-append of_key (w.handled i ++ on_it (w.busy i)) (w.subs i))
        ∙ ap (keep of_key) (workers-in_order n depth p i)
        ∙ keep-disjoint of_key (goes_to n i) w.routed
            (λ r same its. other (sym ((==_iff _ _).0 its) ∙ own r same))),
)
  where
    of_key : KRecord → Bool
    of_key r = same_key r.key key

    mine : ℕ
    mine = worker_for key n

    own : (r : KRecord) → of_key r ≡ true → worker_for r.key n ≡ mine
    own r same = ap (λ k. worker_for k n) (same_key→≡ r.key key same)
