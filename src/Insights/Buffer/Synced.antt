-- ===== src/Insights/Buffer/Synced.antt =====
-- The map and the list of the exclusion buffer (services/insights-service/internal/ingest/buffer.go)
-- agree, and no identifier is held twice.
use mathlib.Core.Path.{subst}
use dabet.Prelude.{
  false, true, inr, ap, inl, ◌==◌, Bool-cases, All-mono, ◌∙◌, sym, str_eq, if◌then◌else◌,
  All-append, ◌+◌, str_eq_iff, some, none, ◌≡◌, arith, Option, ◌<◌, ◌++◌, ℕ, String, List, All,
  refl, [], ◌∷◌,
}
use dabet.Prelude.Dict.{
  string_eq, lookup, delete, DistinctKeys, lookup-insert, lookup-delete, insert-DistinctKeys,
  delete-DistinctKeys,
}
use dabet.Insights.Buffer.{
  Buffer, BufferEntry, BufferedMessage, push_back, evict_oldest, remove_ref,
}

abbrev pub find_ref : String → List BufferEntry → Option ℕ
find_ref id [] = none
find_ref id (e ∷ es) = if str_eq e.msg.message_id id then some e.ref else find_ref id es

-- No identifier stands twice, and the elements are in the order in which they were made.
abbrev pub Ordered : List BufferEntry → Type 0
Ordered [] = Unit
Ordered (e ∷ es) =
    (find_ref e.msg.message_id es ≡ none) × (All (λ x. e.ref < x.ref) es × Ordered es)

abbrev pub Agree : List (String × ℕ) → List BufferEntry → Type 0
Agree m es = (id : String) → lookup id m ≡ find_ref id es

pub record IsSynced (b : Buffer) : Type 0 where
  pub agree : Agree b.entries b.order
  pub distinct : DistinctKeys b.entries
  pub ordered : Ordered b.order
  pub old_refs : All (λ e. e.ref < b.allocated) b.order

find_ref-append :
    (id : String) (es : List BufferEntry) (e : BufferEntry)
    → find_ref id (es ++ e ∷ []) ≡ elim (find_ref id es) [
      | some r ↦ some r
      | none ↦ if str_eq e.msg.message_id id then some e.ref else none
    ]
find_ref-append id [] e = refl
find_ref-append id (x ∷ es) e = ground (arith, find_ref-append id es e)

Ordered-append :
    (es : List BufferEntry) (e : BufferEntry)
    → Ordered es
    → find_ref e.msg.message_id es ≡ none
    → All (λ x. x.ref < e.ref) es
    → Ordered (es ++ e ∷ [])
Ordered-append [] e o new old = (refl, (tt, tt))
Ordered-append (x ∷ es) e (once, (after, o)) new (h, old) = (
  ground (
    arith,
    find_ref-append x.msg.message_id es e,
    str_eq_iff e.msg.message_id x.msg.message_id,
    str_eq_iff x.msg.message_id e.msg.message_id,
  ),
  (
    All-append (λ y. x.ref < y.ref) es (e ∷ []) after (h, tt),
    Ordered-append es e o (ground (arith, new)) old,
  ),
)

-- A popped or evicted element.
pub front-Agree :
    (e : BufferEntry) (es : List BufferEntry) (m : List (String × ℕ))
    → Agree m (e ∷ es)
    → DistinctKeys m
    → Ordered (e ∷ es)
    → Agree (delete e.msg.message_id m) es
front-Agree e es m a d (once, _) id =
    ground (arith, lookup-delete e.msg.message_id id m d, a id, str_eq_iff e.msg.message_id id)

pub push_back-IsSynced :
    (b : Buffer) (msg : BufferedMessage) (now : ℕ)
    → IsSynced b
    → lookup msg.message_id b.entries ≡ none
    → IsSynced (push_back b msg now)
unfolding push_back
push_back-IsSynced b msg now s new =
    let e : BufferEntry = record { ref = b.allocated; msg = msg; deadline = now + b.window } in
    record {
      agree = λ id. ground (
        arith,
        lookup-insert msg.message_id id b.allocated b.entries,
        find_ref-append id b.order e,
        s.agree id,
        s.agree msg.message_id,
        new,
        str_eq_iff msg.message_id id,
      );
      distinct = insert-DistinctKeys msg.message_id b.allocated b.entries s.distinct;
      ordered = Ordered-append b.order e s.ordered (sym (s.agree msg.message_id) ∙ new) s.old_refs;
      old_refs =
          All-append (λ x. x.ref < b.allocated + 1) b.order (e ∷ [])
            (All-mono (λ x. x.ref < b.allocated) _ b.order (λ x h. omega arith) s.old_refs)
            (omega arith, tt);
    }

pub evict_oldest-IsSynced :
    (b : Buffer) (es : List BufferEntry) → b.order ≡ es → IsSynced b → IsSynced (evict_oldest b es)
unfolding evict_oldest
evict_oldest-IsSynced b [] h s = s
evict_oldest-IsSynced b (e ∷ es) h s =
    let (once, (after, o)) = subst Ordered h s.ordered in
    record {
      agree =
          front-Agree e es b.entries (subst (Agree b.entries) h s.agree) s.distinct
            (once, (after, o));
      distinct = delete-DistinctKeys e.msg.message_id b.entries s.distinct;
      ordered = o;
      old_refs = (subst (All (λ x. x.ref < b.allocated)) h s.old_refs).1;
    }

pub find_ref-after :
    (id : String) (r ref : ℕ) (es : List BufferEntry)
    → find_ref id es ≡ some ref
    → All (λ x. r < x.ref) es
    → r < ref
find_ref-after id r ref [] h a = absurd (cc)
find_ref-after id r ref (e ∷ es) h (k, a) = elim (Bool-cases (str_eq e.msg.message_id id)) [
  | inl here ↦ ground (arith, here, h, k)
  | inr later ↦ find_ref-after id r ref es (rw later at h) a
]

pub remove_ref-All {κ} :
    (P : BufferEntry → Type κ) (ref : ℕ) (es : List BufferEntry)
    → All P es
    → All P (remove_ref ref es)
unfolding remove_ref
remove_ref-All P ref [] a = tt
remove_ref-All P ref (e ∷ es) (h, a) = elim (Bool-cases (e.ref == ref)) [
  | inl gone ↦ subst (All P) (sym (ap (λ t. if t then es else e ∷ remove_ref ref es) gone)) a
  | inr stays ↦
      subst (All P) (sym (ap (λ t. if t then es else e ∷ remove_ref ref es) stays))
        (h, remove_ref-All P ref es a)
]

-- Removing the element of an identifier.
pub find_ref-remove :
    (id j : String) (ref : ℕ) (es : List BufferEntry)
    → Ordered es
    → find_ref id es ≡ some ref
    → find_ref j (remove_ref ref es) ≡ (if str_eq id j then none else find_ref j es)
unfolding remove_ref
find_ref-remove id j ref [] o h = absurd (cc)
find_ref-remove id j ref (e ∷ es) (once, (after, o)) h =
    elim (Bool-cases (str_eq e.msg.message_id id)) [
      | inl here ↦ ground (
        arith,
        here,
        h,
        once,
        str_eq_iff e.msg.message_id id,
        str_eq_iff e.msg.message_id j,
        str_eq_iff id j,
      )
      | inr later ↦ ground (
        arith,
        later,
        find_ref-after id e.ref ref es (rw later at h) after,
        find_ref-remove id j ref es o (rw later at h),
        str_eq_iff e.msg.message_id id,
        str_eq_iff e.msg.message_id j,
        str_eq_iff id j,
      )
    ]

pub remove_ref-Ordered :
    (id : String) (ref : ℕ) (es : List BufferEntry)
    → Ordered es
    → find_ref id es ≡ some ref
    → Ordered (remove_ref ref es)
unfolding remove_ref
remove_ref-Ordered id ref [] o h = tt
remove_ref-Ordered id ref (e ∷ es) (once, (after, o)) h =
    elim (Bool-cases (str_eq e.msg.message_id id)) [
      | inl here ↦
          let gone : (e.ref == ref) ≡ true = ground (arith, here, h) in
          subst Ordered (sym (ap (λ t. if t then es else e ∷ remove_ref ref es) gone)) o
      | inr later ↦
          let found : find_ref id es ≡ some ref = rw later at h in
          let stays : (e.ref == ref) ≡ false =
            ground (arith, find_ref-after id e.ref ref es found after) in
          subst Ordered (sym (ap (λ t. if t then es else e ∷ remove_ref ref es) stays)) (
            ground (arith, find_ref-remove id e.msg.message_id ref es o found, once),
            (
              remove_ref-All (λ x. e.ref < x.ref) ref es after,
              remove_ref-Ordered id ref es o found,
            ),
          )
    ]
