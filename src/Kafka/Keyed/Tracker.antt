-- ===== src/Kafka/Keyed/Tracker.antt =====
-- The tracker refines a queue of the records in flight: the array, its head and its compaction do not
-- show.
use native.Mathlib.Nat.{zero-add, suc-add}
use dabet.Kafka.Keyed.{
  complete, or_else, compact, begin, last_or, TrackEntry, KRecord, set_done, pop_done,
  OffsetTracker,
}
use dabet.Prelude.{
  drop_all, drop-append, ◌∙◌, Option-cases, sym, length-append, ◌-◌, false, inr, zero, not, inl, [],
  true, suc, if◌then◌else◌, arith, Bool-cases, ◌++◌, ◌+◌, ◌∷◌, ◌≡◌, some, none, map, length, drop,
  Bool, ◌≤◌, ℕ, Option, List, refl,
}
use dabet.Prelude.Dict.{insert, lookup, delete-AllEntries, delete, AllEntries, nat_eq}

-- What a tracker stands for.
pub record InFlight : Type 0 where
  pub flying : List TrackEntry
  pub index : List (ℕ × ℕ)
  pub next : Option ℕ
  pub slots : ℕ
  pub max_tracked : ℕ
  pub allocated : ℕ

abbrev pub view : OffsetTracker → InFlight
view t = record {
  flying = drop t.head t.q;
  index = t.index;
  next = t.next;
  slots = t.slots;
  max_tracked = t.max_tracked;
  allocated = t.allocated;
}

abbrev pub records : List TrackEntry → List KRecord
records es = map (λ (e : TrackEntry). e.krec) es

abbrev pub last_of : List KRecord → Option KRecord
last_of [] = none
last_of (r ∷ rs) = some (last_or (last_of rs) r)

abbrev pub is_waiting : List TrackEntry → Bool
is_waiting [] = true
is_waiting (e ∷ es) = not e.done

drop-set_done :
    (n ref : ℕ) (es : List TrackEntry) → drop n (set_done ref es) ≡ set_done ref (drop n es)
unfolding set_done
drop-set_done zero ref es = refl
drop-set_done (suc n) ref [] = refl
drop-set_done (suc n) ref (e ∷ es) = drop-set_done n ref es

pub length-set_done : (ref : ℕ) (es : List TrackEntry) → length (set_done ref es) ≡ length es
unfolding set_done
length-set_done ref [] = refl
length-set_done ref (e ∷ es) = omega (arith, length-set_done ref es)

pub records-set_done : (ref : ℕ) (es : List TrackEntry) → records (set_done ref es) ≡ records es
unfolding set_done
records-set_done ref [] = refl
records-set_done ref (e ∷ es) = ground (arith, records-set_done ref es)

-- The finished prefix of what is in flight, and the rest.
abbrev pub popped : List TrackEntry → List TrackEntry
popped [] = []
popped (e ∷ es) = if e.done then e ∷ popped es else []

abbrev pub unpopped : List TrackEntry → List TrackEntry
unpopped [] = []
unpopped (e ∷ es) = if e.done then unpopped es else e ∷ es

-- The operations on what is in flight.
unfoldable pub begin_flight : InFlight → KRecord → InFlight
begin_flight v r =
    let e : TrackEntry = record { ref = v.allocated; krec = r; done = false } in
    record v {
      flying = v.flying ++ e ∷ [];
      index = insert r.offset v.allocated v.index;
      next = or_else v.next r.offset;
      allocated = v.allocated + 1;
    }

unfoldable pub complete_flight : InFlight → ℕ → InFlight × Option KRecord
complete_flight v offset = elim (lookup offset v.index) [
  | none ↦ (v, none)
  | some ref ↦
      let es = set_done ref v.flying in
      elim (last_of (records (popped es))) [
        | none ↦ (record v { flying = es }, none)
        | some r ↦ (
          record v {
            flying = unpopped es;
            index = (pop_done es v.index).index;
            next = some (r.offset + 1);
            slots = v.slots - length (popped es);
          },
          some r,
        )
      ]
]

pub popped-append-unpopped : (es : List TrackEntry) → es ≡ popped es ++ unpopped es
popped-append-unpopped [] = refl
popped-append-unpopped (e ∷ es) = ground (arith, popped-append-unpopped es)

drop-popped : (es : List TrackEntry) → drop (length (popped es)) es ≡ unpopped es
drop-popped [] = refl
drop-popped (e ∷ es) = ground (arith, drop-popped es)

pub unpopped-waits : (es : List TrackEntry) → is_waiting (unpopped es) ≡ true
unpopped-waits [] = refl
unpopped-waits (e ∷ es) = ground (arith, unpopped-waits es)

pop_done_lem :
    (es : List TrackEntry) (index : List (ℕ × ℕ))
    → ((pop_done es index).freed ≡ length (popped es))
      × ((pop_done es index).last ≡ last_of (records (popped es)))
unfolding pop_done
pop_done_lem [] index = (refl, refl)
pop_done_lem (e ∷ es) index = ground (arith, pop_done_lem es (delete e.krec.offset index))

pub pop_done-AllEntries :
    (P : ℕ → ℕ → Type 0) (es : List TrackEntry) (index : List (ℕ × ℕ))
    → AllEntries P index
    → AllEntries P (pop_done es index).index
unfolding pop_done
pop_done-AllEntries P [] index a = a
pop_done-AllEntries P (e ∷ es) index a = elim (Bool-cases e.done) [
  | inl done ↦ rw done (
      pop_done-AllEntries P es (delete e.krec.offset index)
        (delete-AllEntries P e.krec.offset index a))
  | inr running ↦ rw running a
]

drop-nil {ℓ} : {A : Type ℓ} (n : ℕ) → drop {A = A} n [] ≡ []
drop-nil zero = refl
drop-nil (suc n) = refl

pub length-drop {ℓ} :
    {A : Type ℓ} (n : ℕ) (xs : List A) → n ≤ length xs → length (drop n xs) + n ≡ length xs
length-drop zero xs h = omega arith
length-drop (suc n) [] h = absurd (omega arith)
length-drop (suc n) (x ∷ xs) h = omega (arith, length-drop n xs)

length-popped : (es : List TrackEntry) → length (popped es) ≤ length es
length-popped [] = omega arith
length-popped (e ∷ es) = ground (arith, length-popped es)

drop-drop {ℓ} : {A : Type ℓ} (m n : ℕ) (xs : List A) → drop n (drop m xs) ≡ drop (m + n) xs
drop-drop zero n xs = rw zero-add refl
drop-drop (suc m) n [] = rw (drop-nil n, drop-nil (suc m + n)) refl
drop-drop (suc m) n (x ∷ xs) = rw suc-add (drop-drop m n xs)

compact-view :
    (t : OffsetTracker)
    → t.head ≤ length t.q
    → (view (compact t) ≡ view t) × ((compact t).head ≤ length (compact t).q)
unfolding compact
compact-view t h = ground (arith, drop_all t.q)

-- `begin` is the spec's, where the head is within the queue.
pub begin_refines :
    (t : OffsetTracker) (r : KRecord)
    → t.head ≤ length t.q
    → (view (begin t r) ≡ begin_flight (view t) r) × ((begin t r).head ≤ length (begin t r).q)
unfolding begin begin_flight
begin_refines t r h =
    let e : TrackEntry = record { ref = t.allocated; krec = r; done = false } in
    ground (arith, drop-append t.head t.q (e ∷ []) h, length-append t.q (e ∷ []))

-- What `complete` leaves of the array after the loop, before it is compacted.
module _ (t : OffsetTracker) (ref : ℕ) (h : t.head ≤ length t.q) where
  es : List TrackEntry
  es = set_done ref (drop t.head t.q)

  advanced : KRecord → OffsetTracker
  advanced r = record t {
    slots = t.slots - length (popped es);
    q = set_done ref t.q;
    head = t.head + length (popped es);
    index = (pop_done es t.index).index;
    next = some (r.offset + 1);
  }

  advanced-head : (r : KRecord) → (advanced r).head ≤ length (advanced r).q
  unfolding advanced es
  advanced-head r = omega (
    arith,
    length-popped (set_done ref (drop t.head t.q)),
    length-set_done ref (drop t.head t.q),
    length-set_done ref t.q,
    length-drop t.head t.q h,
  )

  advanced-flying : (r : KRecord) → drop (advanced r).head (advanced r).q ≡ unpopped es
  unfolding advanced es
  advanced-flying r =
      sym (drop-drop t.head (length (popped (set_done ref (drop t.head t.q)))) (set_done ref t.q))
      ∙ rw drop-set_done (drop-popped (set_done ref (drop t.head t.q)))

-- `complete` is the spec's, with the same result.
pub complete_refines :
    (t : OffsetTracker) (offset : ℕ)
    → t.head ≤ length t.q
    → (let (t', r) = complete t offset in (view t', r) ≡ complete_flight (view t) offset)
      × ((complete t offset).0.head ≤ length (complete t offset).0.q)
unfolding complete complete_flight advanced es
complete_refines t offset h = elim (Option-cases (lookup offset t.index)) [
  | inl unknown ↦ ground (arith, unknown)
  | inr (ref, found) ↦
      let es' = set_done ref (drop t.head t.q) in
      elim (Option-cases (last_of (records (popped es')))) [
        | inl nothing ↦ ground (
          arith,
          found,
          nothing,
          drop-set_done t.head ref t.q,
          pop_done_lem es' t.index,
          length-set_done ref t.q,
        )
        | inr (r, some_popped) ↦ ground (
          arith,
          found,
          some_popped,
          drop-set_done t.head ref t.q,
          pop_done_lem es' t.index,
          compact-view (advanced t ref h r) (advanced-head t ref h r),
          advanced-flying t ref h r,
        )
      ]
]
