-- ===== src/Moderation/Batcher/Bounds.antt =====
-- The sizes, ages and policies of the batches.
use dabet.Prelude.{
  All, Option-cases, ℕ, ◌+◌, ◌≤◌, ◌<◌, ◌≡◌, Bool, false, some, List, [], ◌∷◌, String, length,
  length-append, arith, leb, Bool-cases, inl, inr, refl,
}
use dabet.Prelude.Int.{ℤ}
use dabet.Prelude.Dict.{
  lookup, AllEntries, insert-AllEntries, delete-AllEntries, lookup-AllEntries, string_eq,
}
use dabet.Contracts.{Message, ResolvedPolicy}
use dabet.Moderation.Batcher.{
  Batch, Pending, Batcher, Trigger, slot, joined, add, due_loop, due, new_batcher, is_due,
  size_trigger, linger_trigger,
}

-- A policy that waits has some messages and fewer than a full batch, under its own id.
abbrev pub IsOpen : ℕ → String → Pending → Type 0
IsOpen max_size id p =
    (1 ≤ length p.messages) × (length p.messages < max_size) × (p.policy.policy_id ≡ id)

pub record IsBounded (b : Batcher) : Type 0 where
  pub size_pos : 1 ≤ b.max_size
  pub all_open : AllEntries (IsOpen b.max_size) b.pending

-- Bad settings are clamped.
pub new_batcher-IsBounded : (max_size linger : ℤ) → IsBounded (new_batcher max_size linger)
unfolding new_batcher
new_batcher-IsBounded m l = record { size_pos = ground arith; all_open = tt }

slot-IsOpen :
    (b : Batcher) (policy : ResolvedPolicy) (now : ℕ)
    → IsBounded b
    → let p = slot (lookup policy.policy_id b.pending) policy now in
      (length p.messages < b.max_size) × (p.policy.policy_id ≡ policy.policy_id)
slot-IsOpen b policy now v = elim (Option-cases (lookup policy.policy_id b.pending)) [
  | inl e ↦ rw e (v.size_pos, refl)
  | inr (p, e) ↦
      let h = lookup-AllEntries (IsOpen b.max_size) policy.policy_id p b.pending v.all_open e in
      rw e (h.1, h.2)
]

-- In a bounded batcher, a message that fills a batch releases exactly `max_size` messages, under its
-- policy, with the trigger of the size.
pub add-full :
    (b : Batcher) (msg : Message) (policy : ResolvedPolicy) (now : ℕ) (c : Batch)
    → IsBounded b
    → (add b msg policy now).1 ≡ some c
    → (length c.messages ≡ b.max_size)
      × (c.policy.policy_id ≡ policy.policy_id)
      × (c.trigger ≡ size_trigger)
unfolding add
add-full b msg policy now c v h = ground (
  arith,
  slot-IsOpen b policy now v,
  length-append (slot (lookup policy.policy_id b.pending) policy now).messages (msg ∷ []),
)

-- Adding keeps every waiting policy short of a full batch.
pub add-IsBounded :
    (b : Batcher) (msg : Message) (policy : ResolvedPolicy) (now : ℕ)
    → IsBounded b
    → IsBounded (add b msg policy now).0
unfolding add
add-IsBounded b msg policy now v = elim (Bool-cases (leb b.max_size (length p.messages))) [
  | inl full ↦ rw full (record {
    size_pos = v.size_pos;
    all_open = delete-AllEntries (IsOpen b.max_size) policy.policy_id b.pending v.all_open;
  })
  | inr room ↦ rw room (record {
    size_pos = v.size_pos;
    all_open =
        insert-AllEntries (IsOpen b.max_size) policy.policy_id p b.pending
          (omega (arith, more), ground (arith, more), (slot-IsOpen b policy now v).1) v.all_open;
  })
]
  where
    p : Pending
    p = joined (slot (lookup policy.policy_id b.pending) policy now) msg

    more :
        length p.messages
        ≡ length (slot (lookup policy.policy_id b.pending) policy now).messages + 1
    more = length-append (slot (lookup policy.policy_id b.pending) policy now).messages (msg ∷ [])

due_loop-AllEntries {μ} :
    (P : String → Pending → Type μ) (test : Pending → Bool) (t : Trigger)
    (m : List (String × Pending))
    → AllEntries P m
    → AllEntries (λ id p. P id p × (test p ≡ false)) (due_loop test t m).0
unfolding due_loop
due_loop-AllEntries P test t [] a = tt
due_loop-AllEntries P test t ((id, p) ∷ m) (h, a) = elim (Bool-cases (test p)) [
  | inl out ↦ rw out (due_loop-AllEntries P test t m a)
  | inr stays ↦ rw stays ((h, stays), due_loop-AllEntries P test t m a)
]

due_loop-All :
    (n : ℕ) (test : Pending → Bool) (t : Trigger) (m : List (String × Pending))
    → AllEntries (IsOpen n) m
    → All
        (λ c. (1 ≤ length c.messages) × (length c.messages < n) × (c.trigger ≡ t))
        (due_loop test t m).1
unfolding due_loop
due_loop-All n test t [] a = tt
due_loop-All n test t ((id, p) ∷ m) (h, a) = elim (Bool-cases (test p)) [
  | inl out ↦ rw out ((h.0, h.1, refl), due_loop-All n test t m a)
  | inr stays ↦ rw stays (due_loop-All n test t m a)
]

-- In a bounded batcher, a batch that the linger releases is neither empty nor full, and whatever still waits afterwards
-- is in bounds and younger than the linger.
pub due-batches :
    (b : Batcher) (now : ℕ)
    → IsBounded b
    → All
        (λ c.
          (1 ≤ length c.messages) × (length c.messages < b.max_size) × (c.trigger ≡ linger_trigger))
        (due b now).1
      × AllEntries (λ id p. IsOpen b.max_size id p × (is_due b now p ≡ false)) (due b now).0.pending
unfolding due
due-batches b now v = (
  due_loop-All b.max_size (is_due b now) linger_trigger b.pending v.all_open,
  due_loop-AllEntries (IsOpen b.max_size) (is_due b now) linger_trigger b.pending v.all_open,
)
