-- ===== src/Kafka/Keyed.antt =====
-- pkg/kafkax/keyed.go: the routing of records to the workers of a partition, and the low-water mark
-- of its offsets. A method of the tracker that locks `mu` for its whole body is one function. The
-- broker's records are a parameter's data: an offset, an epoch and a key of bytes.
pub mod Tracker
pub mod Safety
pub mod Marking
pub mod Committing
pub mod Life
pub mod Workers
use dabet.Prelude.Int.{pos, ltb_ℤ, pos_part, ℤ}
use dabet.Prelude.{
  ◌&&◌, ◌%◌, ◌||◌, true, drop, [], ◌-◌, ◌+◌, ◌*◌, ◌∷◌, some, none, ltb, length, leb, ◌^◌, Bool,
  ◌==◌, ◌++◌, ℕ, if◌then◌else◌, false, Option, List,
}
use Prim.Native.Nat.{bit_xor}
use dabet.Prelude.Dict.{insert, delete, lookup, nat_eq}

abbrev pub u64_mod : ℕ
u64_mod = 2 ^ 64

abbrev pub fnv_offset_64 : ℕ
fnv_offset_64 = 14695981039346656037

abbrev pub fnv_prime_64 : ℕ
fnv_prime_64 = 1099511628211

-- FNV-1a: the loop over the bytes of a key, in uint64 arithmetic.
unfoldable pub hash_loop : ℕ → List ℕ → ℕ
hash_loop h [] = h
hash_loop h (b ∷ bs) = hash_loop (bit_xor h b * fnv_prime_64 % u64_mod) bs

unfoldable pub stable_hash : List ℕ → ℕ
unfolding hash_loop
stable_hash key = hash_loop fnv_offset_64 key

unfoldable pub worker_for : List ℕ → ℕ → ℕ
worker_for key n = if leb n 1 || length key == 0 then 0 else stable_hash key % n

pub record KRecord : Type 0 where
  pub offset : ℕ
  pub leader_epoch : ℕ
  pub key : List ℕ

-- `ref` is the identity of the entry: the queue and the index hold pointers to one object.
pub record TrackEntry : Type 0 where
  pub ref : ℕ
  pub krec : KRecord
  pub done : Bool

-- `slots` counts the slots that are taken, `allocated` the entries made so far; `next` is none for
-- -1. The entries below `head` are consumed: the code clears them for the garbage collector, and
-- nothing reads them.
pub record OffsetTracker : Type 0 where
  pub max_tracked : ℕ
  pub slots : ℕ
  pub q : List TrackEntry
  pub head : ℕ
  pub index : List (ℕ × ℕ)
  pub next : Option ℕ
  pub allocated : ℕ

unfoldable pub new_offset_tracker : ℤ → OffsetTracker
new_offset_tracker max_tracked = record {
  max_tracked = pos_part (if ltb_ℤ max_tracked (pos 1) then pos 1 else max_tracked);
  slots = 0;
  q = [];
  head = 0;
  index = [];
  next = none;
  allocated = 0;
}

-- none is a call that finds no slot: it waits for one, or returns false once the partition is torn
-- down.
unfoldable pub reserve : OffsetTracker → Option OffsetTracker
reserve t = if ltb t.slots t.max_tracked then some (record t { slots = t.slots + 1 }) else none

abbrev pub or_else : Option ℕ → ℕ → Option ℕ
or_else none n = some n
or_else (some m) n = some m

unfoldable pub begin : OffsetTracker → KRecord → OffsetTracker
begin t r =
    let e : TrackEntry = record { ref = t.allocated; krec = r; done = false } in
    record t {
      q = t.q ++ e ∷ [];
      index = insert r.offset t.allocated t.index;
      next = or_else t.next r.offset;
      allocated = t.allocated + 1;
    }

-- `e.done = true`, seen through the queue.
unfoldable pub set_done : ℕ → List TrackEntry → List TrackEntry
set_done ref [] = []
set_done ref (e ∷ es) = (if e.ref == ref then record e { done = true } else e) ∷ set_done ref es

pub record Popped : Type 0 where
  pub index : List (ℕ × ℕ)
  pub freed : ℕ
  pub last : Option KRecord

abbrev pub last_or : Option KRecord → KRecord → KRecord
last_or none r = r
last_or (some s) r = s

-- The loop over the entries from `head` on.
unfoldable pub pop_done : List TrackEntry → List (ℕ × ℕ) → Popped
pop_done [] index = record { index = index; freed = 0; last = none }
pop_done (e ∷ es) index =
    let rest = pop_done es (delete e.krec.offset index) in
    if e.done
    then record {
      index = rest.index;
      freed = rest.freed + 1;
      last = some (last_or rest.last e.krec);
    }
    else record { index = index; freed = 0; last = none }

unfoldable pub compact : OffsetTracker → OffsetTracker
compact t =
    if t.head == length t.q
    then record t { q = []; head = 0 }
    else if ltb 64 t.head && ltb (length t.q) (t.head * 2)
    then record t { q = drop t.head t.q; head = 0 }
    else t

-- The result is what MarkCommitRecords is called with. The slots are given back in the same step.
unfoldable pub complete : OffsetTracker → ℕ → OffsetTracker × Option KRecord
complete t offset = elim (lookup offset t.index) [
  | none ↦ (t, none)
  | some ref ↦
      let q' = set_done ref t.q in
      let p = pop_done (drop t.head q') t.index in
      elim p.last [
        | none ↦ (record t { q = q' }, none)
        | some r ↦ (
          compact (record t {
            slots = t.slots - p.freed;
            q = q';
            head = t.head + p.freed;
            index = p.index;
            next = some (r.offset + 1);
          }),
          some r,
        )
      ]
]

unfoldable pub mark : OffsetTracker → Option ℕ
mark t = t.next

unfoldable pub pending : OffsetTracker → ℕ
pending t = length t.q - t.head
