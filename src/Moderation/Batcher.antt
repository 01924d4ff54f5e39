-- ===== src/Moderation/Batcher.antt =====
-- services/moderation-service/internal/mod/llm.go, the batcher of stage 9: messages that share a
-- policy are released together, at `max_size` messages, after `linger`, or at shutdown. Each method
-- holds `mu` for its whole body.
pub mod Bounds
pub mod Conservation
use dabet.Prelude.{
  ℕ, ◌+◌, Bool, true, false, Option, none, some, List, [], ◌∷◌, ◌++◌, map, String, length, leb, ltb,
  if◌then◌else◌,
}
use dabet.Prelude.Dict.{lookup, insert, delete, string_eq}
use dabet.Prelude.Int.{ℤ, pos, ltb_ℤ, pos_part}
use dabet.Contracts.{Message, ResolvedPolicy}

pub data Trigger : Type 0 where
  size_trigger linger_trigger shutdown_trigger : Trigger

pub record Batch : Type 0 where
  pub policy : ResolvedPolicy
  pub messages : List Message
  pub trigger : Trigger

pub record Pending : Type 0 where
  pub policy : ResolvedPolicy
  pub messages : List Message
  pub oldest : ℕ

-- `pending` is keyed by policy_id.
pub record Batcher : Type 0 where
  pub max_size : ℕ
  pub linger : ℕ
  pub pending : List (String × Pending)

unfoldable pub new_batcher : ℤ → ℤ → Batcher
new_batcher max_size linger = record {
  max_size = pos_part (if ltb_ℤ max_size (pos 1) then pos 1 else max_size);
  linger = pos_part (if ltb_ℤ linger (pos 0) then pos 0 else linger);
  pending = [];
}

abbrev pub release : Trigger → Pending → Batch
release t p = record { policy = p.policy; messages = p.messages; trigger = t }

-- The entry of the message's policy, or a new one.
abbrev pub slot : Option Pending → ResolvedPolicy → ℕ → Pending
slot (some p) policy now = p
slot none policy now = record { policy = policy; messages = []; oldest = now }

abbrev pub joined : Pending → Message → Pending
joined p msg = record p { messages = p.messages ++ msg ∷ [] }

unfoldable pub add : Batcher → Message → ResolvedPolicy → ℕ → Batcher × Option Batch
add b msg policy now =
    let id = policy.policy_id in
    let p = joined (slot (lookup id b.pending) policy now) msg in
    if leb b.max_size (length p.messages)
    then (record b { pending = delete id b.pending }, some (release size_trigger p))
    else (record b { pending = insert id p b.pending }, none)

abbrev pub is_due : Batcher → ℕ → Pending → Bool
is_due b now p = leb (p.oldest + b.linger) now

-- The loop of `Due`: what stays, and the batches.
unfoldable pub due_loop :
    (Pending → Bool) → Trigger → List (String × Pending) → List (String × Pending) × List Batch
due_loop test t [] = ([], [])
due_loop test t ((id, p) ∷ m) =
    let (kept, out) = due_loop test t m in
    if test p then (kept, release t p ∷ out) else ((id, p) ∷ kept, out)

unfoldable pub due : Batcher → ℕ → Batcher × List Batch
unfolding due_loop
due b now =
    let (kept, out) = due_loop (is_due b now) linger_trigger b.pending in
    (record b { pending = kept }, out)

unfoldable pub flush_all : Batcher → Batcher × List Batch
unfolding due_loop
flush_all b =
    let (kept, out) = due_loop (λ _. true) shutdown_trigger b.pending in
    (record b { pending = kept }, out)
