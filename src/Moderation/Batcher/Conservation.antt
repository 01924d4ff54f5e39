-- ===== src/Moderation/Batcher/Conservation.antt =====
-- No message is lost or doubled between the batcher and the batches that it releases.
use dabet.Prelude.{
  ℕ, ◌+◌, ◌≡◌, Bool, true, Option, none, some, List, [], ◌∷◌, String, length, length-append, arith,
  refl, ap,
}
use dabet.Prelude.Dict.{lookup, total, measure_at, total-insert, total-delete, string_eq}
use dabet.Contracts.{Message, ResolvedPolicy}
use dabet.Moderation.Batcher.{
  Batch, Pending, Batcher, Trigger, slot, joined, shutdown_trigger, add, due_loop, due, flush_all,
}

abbrev weight : String → Pending → ℕ
weight id p = length p.messages

-- How many messages wait in the batcher, and how many a result of it carries.
abbrev pub waiting : Batcher → ℕ
waiting b = total weight b.pending

abbrev pub carried : List Batch → ℕ
carried [] = 0
carried (c ∷ cs) = length c.messages + carried cs

abbrev pub carried_one : Option Batch → ℕ
carried_one none = 0
carried_one (some c) = length c.messages

slot-weight :
    (id : String) (o : Option Pending) (policy : ResolvedPolicy) (now : ℕ)
    → length (slot o policy now).messages ≡ measure_at weight id o
slot-weight id none policy now = refl
slot-weight id (some p) policy now = refl

-- A message that is added waits, or leaves at once with the batch that it fills.
pub add-waiting :
    (b : Batcher) (msg : Message) (policy : ResolvedPolicy) (now : ℕ)
    → waiting (add b msg policy now).0 + carried_one (add b msg policy now).1 ≡ waiting b + 1
unfolding add
add-waiting b msg policy now = ground (
  arith,
  slot-weight policy.policy_id (lookup policy.policy_id b.pending) policy now,
  length-append (slot (lookup policy.policy_id b.pending) policy now).messages (msg ∷ []),
  total-delete weight policy.policy_id b.pending,
  total-insert weight policy.policy_id
      (joined (slot (lookup policy.policy_id b.pending) policy now) msg) b.pending,
)

due_loop-waiting :
    (test : Pending → Bool) (t : Trigger) (m : List (String × Pending))
    → total weight (due_loop test t m).0 + carried (due_loop test t m).1 ≡ total weight m
unfolding due_loop
due_loop-waiting test t [] = omega arith
due_loop-waiting test t ((id, p) ∷ m) = ground (arith, due_loop-waiting test t m)

-- What `Due` releases is what no longer waits.
pub due-waiting :
    (b : Batcher) (now : ℕ) → waiting (due b now).0 + carried (due b now).1 ≡ waiting b
unfolding due
due-waiting b now = due_loop-waiting _ _ b.pending

due_loop_all : (t : Trigger) (m : List (String × Pending)) → (due_loop (λ _. true) t m).0 ≡ []
unfolding due_loop
due_loop_all t [] = refl
due_loop_all t ((id, p) ∷ m) = due_loop_all t m

-- `FlushAll` releases every message and leaves none.
pub flush_all-waiting :
    (b : Batcher) → ((flush_all b).0.pending ≡ []) × (carried (flush_all b).1 ≡ waiting b)
unfolding flush_all
flush_all-waiting b = (
  due_loop_all shutdown_trigger b.pending,
  omega (
    arith,
    due_loop-waiting (λ _. true) shutdown_trigger b.pending,
    ap (total weight) (due_loop_all shutdown_trigger b.pending),
  ),
)
