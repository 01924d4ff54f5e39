-- ===== src/Review/Queue.antt =====
-- services/review-service/internal/queue/queue.go: the direct read of a partition, as the answers of
-- a reader; queuetest/queuetest.go: the log in memory; internal/partition/partition.go: the mapping
-- of a key to its partition, where franz-go's partitioner is a parameter.
use dabet.Prelude.Dict.{lookup, insert, nat_eq}
use dabet.Prelude.{
  ◌≡◌, ◌≤◌, ℕ, ◌+◌, Bool, true, false, not, ◌&&◌, ◌==◌, ltb, leb, if◌then◌else◌, String, str_eq,
  Option, none, some, List, [], ◌∷◌, ◌++◌, keep,
}
pub mod Logs

pub record Record : Type 0 where
  pub offset : ℕ
  pub key : String
  pub value : List ℕ

-- What a scan passes on, in order, and whether it fails after that.
pub record Reading : Type 0 where
  pub records : List Record
  pub fails : Bool

-- The answers of a broker: the number of partitions, the earliest offset and the high watermark of
-- a partition, and the records of a partition from an offset. none is an error.
pub record Reader : Type 0 where
  pub partitions : Option ℕ
  pub offsets : ℕ → Option (ℕ × ℕ)
  pub scan : ℕ → ℕ → Reading

-- Records in the order of their offsets, from one bound on and below another.
abbrev pub Within : ℕ → ℕ → List Record → Type 0
Within lo hi [] = lo ≤ hi
Within lo hi (r ∷ rs) = (lo ≤ r.offset) × Within (r.offset + 1) hi rs

-- The contract of a reader: a scan passes on the records from its offset on, in order, and a scan
-- from a later offset is the end of it.
pub record IsReader (r : Reader) : Type 0 where
  pub in_order : (p from : ℕ) → (high : ℕ) × Within from high (r.scan p from).records
  pub later :
      (p a b : ℕ)
      → a ≤ b
      → (r.scan p b).records ≡ keep (λ rec. leb b rec.offset) (r.scan p a).records
  pub as_failing : (p a b : ℕ) → (r.scan p a).fails ≡ (r.scan p b).fails

-- Keys of one partition of a topic, as franz-go's partitioner answers.
pub record Partitioner : Type 0 where
  pub requires_consistency : String → Bool
  pub by_backup : Option (String → ℕ → ℕ)
  pub direct : String → ℕ → ℕ

abbrev pub placed_by : Partitioner → String → ℕ → ℕ
placed_by t key n = elim t.by_backup [ some f ↦ f key n | none ↦ t.direct key n ]

unfoldable pub partition : Partitioner → String → ℕ → Option ℕ
partition t key n =
    if str_eq key ""
    then none
    else if n == 0
    then none
    else if not (t.requires_consistency key)
    then none
    else some (placed_by t key n)

-- The topic in memory.
pub record FakeLog : Type 0 where
  pub parts : ℕ
  pub logs : List (ℕ × List Record)
  pub earliest : List (ℕ × ℕ)
  pub next : List (ℕ × ℕ)

abbrev pub log_of : List (ℕ × List Record) → ℕ → List Record
log_of m p = elim (lookup p m) [ some l ↦ l | none ↦ [] ]

-- A missing number is zero.
abbrev pub offset_of : List (ℕ × ℕ) → ℕ → ℕ
offset_of m p = elim (lookup p m) [ some n ↦ n | none ↦ 0 ]

unfoldable pub new_fake_log : ℕ → FakeLog
new_fake_log n = record { parts = n; logs = []; earliest = []; next = [] }

unfoldable pub append_record : FakeLog → ℕ → String → List ℕ → FakeLog × ℕ
append_record f p key value =
    let off = offset_of f.next p in
    (
      record f {
        logs =
            insert p (log_of f.logs p ++ record { offset = off; key = key; value = value } ∷ [])
              f.logs;
        next = insert p (off + 1) f.next;
      },
      off,
    )

unfoldable pub truncate : FakeLog → ℕ → ℕ → FakeLog
truncate f p new_earliest =
    let e = if ltb (offset_of f.next p) new_earliest then offset_of f.next p else new_earliest in
    record f {
      earliest = insert p e f.earliest;
      logs = insert p (keep (λ r. leb e r.offset) (log_of f.logs p)) f.logs;
    }

unfoldable pub fake_offsets : FakeLog → ℕ → Option (ℕ × ℕ)
fake_offsets f p = if leb f.parts p then none else some (offset_of f.earliest p, offset_of f.next p)

unfoldable pub fake_scan : FakeLog → ℕ → ℕ → Reading
fake_scan f p from = if leb f.parts p then record { records = []; fails = true } else record {
  records = keep (λ r. leb from r.offset && ltb r.offset (offset_of f.next p)) (log_of f.logs p);
  fails = false;
}

unfoldable pub fake_reader : FakeLog → Reader
fake_reader f = record { partitions = some f.parts; offsets = fake_offsets f; scan = fake_scan f }
