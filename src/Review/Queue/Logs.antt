-- ===== src/Review/Queue/Logs.antt =====
-- The log in memory as a reader. Its records stand in the order of their offsets, between the
-- earliest one and the next.
use mathlib.Core.Path.{subst}
use dabet.Prelude.Dict.{insert, lookup-insert, nat_eq}
use dabet.Prelude.{
  ℕ, ◌+◌, ◌≤◌, ◌≡◌, refl, inl, inr, true, Bool, ◌&&◌, leb, ltb, List, [], ◌∷◌, ◌++◌, keep, arith,
  Bool-cases, String, ==_iff, leb→le, ◌==◌, if◌then◌else◌, max,
}
use dabet.Review.Queue.{
  Record, Within, IsReader, FakeLog, log_of, offset_of, new_fake_log, append_record, truncate,
  fake_scan, fake_reader,
}

-- The records lie between the two offsets of their partition.
pub record IsLog (f : FakeLog) : Type 0 where
  pub ordered : (p : ℕ) → Within (offset_of f.earliest p) (offset_of f.next p) (log_of f.logs p)

Within-bounds : (lo hi : ℕ) (rs : List Record) → Within lo hi rs → lo ≤ hi
Within-bounds lo hi [] w = w
Within-bounds lo hi (r ∷ rs) (h, w) = omega (arith, Within-bounds (r.offset + 1) hi rs w)

Within-append :
    (lo hi : ℕ) (rs : List Record) (r : Record)
    → r.offset ≡ hi
    → Within lo hi rs
    → Within lo (hi + 1) (rs ++ r ∷ [])
Within-append lo hi [] r e w = (omega arith, omega arith)
Within-append lo hi (x ∷ rs) r e (h, w) = (h, Within-append (x.offset + 1) hi rs r e w)

-- Records that pass a test, which holds of none below m.
keep-Within :
    (t : Record → Bool) (m top lo hi : ℕ) (rs : List Record)
    → ((r : Record) → t r ≡ true → lo ≤ r.offset → m ≤ r.offset)
    → m ≤ top
    → hi ≤ top
    → Within lo hi rs
    → Within m top (keep t rs)
keep-Within t m top lo hi [] low mt ht w = mt
keep-Within t m top lo hi (r ∷ rs) low mt ht (h, w) = elim (Bool-cases (t r)) [
  | inl kept ↦ rw kept (
    low r kept h,
    keep-Within t (r.offset + 1) top (r.offset + 1) hi rs (λ x _ g. g)
        (omega (arith, Within-bounds (r.offset + 1) hi rs w, ht)) ht w,
  )
  | inr gone ↦
      rw gone (keep-Within t m top (r.offset + 1) hi rs (λ x k g. low x k (omega arith)) mt ht w)
]

keep-keep :
    (a b high : ℕ) (rs : List Record)
    → a ≤ b
    → keep (λ r. leb b r.offset && ltb r.offset high) rs
      ≡ keep (λ r. leb b r.offset) (keep (λ r. leb a r.offset && ltb r.offset high) rs)
keep-keep a b high [] h = refl
keep-keep a b high (r ∷ rs) h = ground (arith, keep-keep a b high rs h)

offset_of-insert :
    (p q v : ℕ) (m : List (ℕ × ℕ))
    → offset_of (insert p v m) q ≡ (if p == q then v else offset_of m q)
offset_of-insert p q v m = ground (arith, lookup-insert p q v m)

log_of-insert :
    (p q : ℕ) (v : List Record) (m : List (ℕ × List Record))
    → log_of (insert p v m) q ≡ (if p == q then v else log_of m q)
log_of-insert p q v m = ground (arith, lookup-insert p q v m)

-- A scan of a log in memory is what the contract of a reader asks for.
pub fake_reader-IsReader : (f : FakeLog) → IsLog f → IsReader (fake_reader f)
unfolding fake_reader fake_scan
fake_reader-IsReader f w = record {
  in_order = λ p from. elim (Bool-cases (leb f.parts p)) [
    | inl out ↦ (from, rw out (omega arith))
    | inr there ↦ (
      max from (offset_of f.next p),
      rw there (
          keep-Within (λ r. leb from r.offset && ltb r.offset (offset_of f.next p)) from
            (max from (offset_of f.next p)) (offset_of f.earliest p) (offset_of f.next p)
            (log_of f.logs p) (λ r k _. ground arith) (omega arith) (omega arith) (w.ordered p)),
    )
  ];
  later = λ p a b h. elim (Bool-cases (leb f.parts p)) [
    | inl out ↦ rw out refl
    | inr there ↦ rw there (keep-keep a b (offset_of f.next p) (log_of f.logs p) h)
  ];
  as_failing = λ p a b. ground arith;
}

pub new_fake_log-IsLog : (n : ℕ) → IsLog (new_fake_log n)
unfolding new_fake_log
new_fake_log-IsLog n = record { ordered = λ p. omega arith }

-- Appending a record keeps the log in order, and so does an expiry.
pub append_record-IsLog :
    (f : FakeLog) (p : ℕ) (key : String) (value : List ℕ)
    → IsLog f
    → IsLog (append_record f p key value).0
unfolding append_record
append_record-IsLog f p key value w = record {
  ordered = λ q.
      let off = offset_of f.next p in
      let log = log_of f.logs p ++ record { offset = off; key = key; value = value } ∷ [] in
      rw (offset_of-insert p q (off + 1) f.next, log_of-insert p q log f.logs)
        (elim (Bool-cases (p == q)) [
          | inl same ↦ rw same (
              subst (λ i. Within (offset_of f.earliest i) (off + 1) log) ((==_iff p q).0 same)
                (Within-append (offset_of f.earliest p) off (log_of f.logs p)
                  (record { offset = off; key = key; value = value }) refl (w.ordered p)))
          | inr other ↦ rw other (w.ordered q)
        ]);
}

pub truncate-IsLog : (f : FakeLog) (p e : ℕ) → IsLog f → IsLog (truncate f p e)
unfolding truncate
truncate-IsLog f p e w = record {
  ordered = λ q.
      let e' = if ltb (offset_of f.next p) e then offset_of f.next p else e in
      let log = keep (λ r. leb e' r.offset) (log_of f.logs p) in
      rw (offset_of-insert p q e' f.earliest, log_of-insert p q log f.logs)
        (elim (Bool-cases (p == q)) [
          | inl same ↦ rw same (
              subst (λ i. Within e' (offset_of f.next i) log) ((==_iff p q).0 same)
                (keep-Within (λ r. leb e' r.offset) e' (offset_of f.next p) (offset_of f.earliest p)
                  (offset_of f.next p) (log_of f.logs p) (λ r k _. leb→le e' r.offset k)
                  (ground arith) (omega arith) (w.ordered p)))
          | inr other ↦ rw other (w.ordered q)
        ]);
}
