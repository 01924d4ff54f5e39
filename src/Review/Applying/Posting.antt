-- ===== src/Review/Applying/Posting.antt =====
-- What a POST sends to deletions.v1, and how its answer counts the decisions.
use dabet.Review.Applying.Accounts.{apply_batch-IsOutcome, quiet, IsOutcome}
use mathlib.Core.List.{append-nil}
use dabet.Contracts.{Deletion, flagged_key}
use dabet.Review.Applying.{
  post_reviews, run_batch, finish_post, plan_batch, replayed, pinned_token, PostRequest,
}
use dabet.Review.Applying.Matches.{IsDecided}
use dabet.Review.Applying.Outcomes.{queue_of, plan_batch-IsPlanned}
use dabet.Review.Decisions.{Decision, validate_decisions}
use dabet.Review.Handler.{
  State, Faults, Codec, CursorToken, PostResponse, Answer, ok, error, QueuePos, resolve_queue,
  resolve_at, follow_partition, snap_forward, unavailable,
}
use dabet.Review.Handler.{Problem, decisions_invalid}
use dabet.Prelude.{◌⊎◌}
use dabet.Review.Queue.{Reader, Partitioner, partition}
use dabet.Prelude.{
  ℕ, ◌+◌, ◌≡◌, refl, sym, ap, ◌∙◌, Bool, String, Option, none, List, [], ◌++◌, length, All,
  All-mono, arith, Option-cases, inl, inr,
}

pub Answer-cases {ℓ} :
    {A : Type ℓ} (a : Answer A) → ((p : Problem) × (a ≡ error p)) ⊎ ((x : A) × (a ≡ ok x))
Answer-cases (error p) = inl (p, refl)
Answer-cases (ok x) = inr (x, refl)

-- The deletions do not depend on how the queue is resolved.
module _ (ft : Faults) (now : ℕ) (creator : String) where
  resolve_at-produced :
      (part earliest high : ℕ) (s : State)
      → (resolve_at ft now creator part earliest high s).0.produced ≡ s.produced
  unfolding resolve_at follow_partition snap_forward
  resolve_at-produced part earliest high s = ground arith

  resolve_queue-produced :
      (rd : Reader) (pt : Partitioner) (s : State)
      → (resolve_queue ft now creator rd pt s).0.produced ≡ s.produced
  unfolding resolve_queue
  resolve_queue-produced rd pt s = elim (Option-cases rd.partitions) [
    | inl e ↦ rw (resolve_queue, e) refl
    | inr (n, e) ↦
        rw (resolve_queue, e)
          (elim (Option-cases (partition pt (flagged_key creator) n)) [
            | inl e' ↦ rw e' refl
            | inr (part, e') ↦ rw e' (elim (Option-cases (rd.offsets part)) [
              | inl e2 ↦ rw e2 refl
              | inr ((earliest, high), e2) ↦ rw e2 (resolve_at-produced part earliest high s)
            ])
          ])
  ]

module _ (k : Codec) (rd : Reader) (pt : Partitioner) (ft : Faults) (acked : Deletion → Bool)
    (now : ℕ) (creator : String) where
  run_batch-IsOutcome :
      (at : QueuePos) (pinned : Option CursorToken) (ds : List Decision) (s : State)
      → IsOutcome k rd pt ft acked now creator at ds s
          (run_batch k rd pt ft acked now creator pinned ds (s, ok at))
  unfolding run_batch
  run_batch-IsOutcome at pinned ds s =
      elim (Option-cases (plan_batch k rd pt ft acked now creator at pinned ds)) [
        | inl e ↦
            rw (run_batch, e)
              (quiet k rd pt ft acked now creator at ds s (error unavailable)
                (λ resp h. absurd (cc)))
        | inr ((to, cor), e) ↦
            rw (run_batch, e)
              (apply_batch-IsOutcome k rd pt ft acked now creator at pinned ds to cor s
                (plan_batch-IsPlanned k rd pt ft acked now creator at pinned ds to cor e))
      ]

  -- A deletion that a decision of the request asks for, of an event that waits where the queue of
  -- the creator was resolved.
  pub record IsAsked (ds : List Decision) (s : State) (del : Deletion) : Type 0 where
    pub at : QueuePos
    pub found : (resolve_queue ft now creator rd pt s).1 ≡ ok at
    pub decided : IsDecided creator now ds (queue_of k rd pt ft acked now creator at) del

  pub record IsPosted (req : PostRequest) (key : String) (s : State)
      (out : State × Answer (ℕ × PostResponse)) : Type 0 where
    pub sent : List Deletion
    pub appended : out.0.produced ≡ s.produced ++ sent
    pub asked : All (IsAsked req.decisions s) sent
    pub accounted :
        (status : ℕ) (resp : PostResponse)
        → replayed k rd pt ft acked now creator key s ≡ none
        → out.1 ≡ ok (status, resp)
        → (resp.applied + length resp.ignored ≡ length req.decisions) × (resp.deleted ≡ length sent)

  -- A request that is answered before the queue is read.
  unread :
      (req : PostRequest) (key : String) (s : State) (ans : Answer (ℕ × PostResponse))
      → ((status : ℕ) (resp : PostResponse)
          → replayed k rd pt ft acked now creator key s ≡ none
          → ans ≡ ok (status, resp)
          → ⊥)
      → IsPosted req key s (s, ans)
  unread req key s ans h = record {
    sent = [];
    appended = sym (append-nil s.produced);
    asked = tt;
    accounted = λ status resp e g. absurd (h status resp e g);
  }

  finish_post-produced :
      (key : String) (out : State × Answer PostResponse)
      → (finish_post k rd pt ft acked now creator key out).0.produced ≡ out.0.produced
  unfolding finish_post
  finish_post-produced key (s, error p) = refl
  finish_post-produced key (s, ok resp) = ground arith

  finish_post-answer :
      (key : String) (out : State × Answer PostResponse) (status : ℕ) (resp : PostResponse)
      → (finish_post k rd pt ft acked now creator key out).1 ≡ ok (status, resp)
      → out.1 ≡ ok resp
  unfolding finish_post
  finish_post-answer key (s, error p) status resp h = absurd (cc)
  finish_post-answer key (s, ok r) status resp h = ground arith

  finished :
      (req : PostRequest) (key : String) (s s1 : State) (res : Answer QueuePos)
      (pinned : Option CursorToken)
      → resolve_queue ft now creator rd pt s ≡ (s1, res)
      → IsPosted req key s (
          finish_post k rd pt ft acked now creator key
            (run_batch k rd pt ft acked now creator pinned req.decisions (s1, res)))
  unfolding run_batch finish_post
  finished req key s s1 (error p) pinned h = record {
    sent = [];
    appended =
        ap (λ (r : State × Answer QueuePos). r.0.produced) (sym h)
        ∙ resolve_queue-produced ft now creator rd pt s
        ∙ sym (append-nil s.produced);
    asked = tt;
    accounted = λ status resp e g. absurd (cc);
  }
  finished req key s s1 (ok at) pinned h =
      let out = run_batch k rd pt ft acked now creator pinned req.decisions (s1, ok at) in
      let o = run_batch-IsOutcome at pinned req.decisions s1 in
      let kept : s1.produced ≡ s.produced =
        ap (λ (r : State × Answer QueuePos). r.0.produced) (sym h)
        ∙ resolve_queue-produced ft now creator rd pt s in
      record {
        sent = o.sent;
        appended = finish_post-produced key out ∙ o.appended ∙ ap (λ l. l ++ o.sent) kept;
        asked =
            All-mono
              (IsDecided creator now req.decisions (queue_of k rd pt ft acked now creator at))
              (IsAsked req.decisions s) o.sent
              (λ del d. record {
                at = at;
                found = ap (λ (r : State × Answer QueuePos). r.1) h;
                decided = d;
              })
              o.decided;
        accounted = λ status resp e g. o.accounted resp (finish_post-answer key out status resp g);
      }

  -- Every deletion that a POST sends is of an event that waits at the front of the creator's own
  -- queue or after it, that a decision of the request on its message flags. A POST that is not a
  -- replay and is answered has applied or ignored each decision, and reports the deletions it sent.
  pub post_reviews-IsPosted :
      (req : PostRequest) (key : String) (s : State)
      → IsPosted req key s (post_reviews k rd pt ft acked now creator req key s)
  unfolding post_reviews
  post_reviews-IsPosted req key s = elim (Option-cases (validate_decisions req.decisions)) [
    | inr (e, bad) ↦
        rw (post_reviews, bad) (unread req key s (error decisions_invalid) (λ _ _ _ g. cc))
    | inl good ↦
        rw (post_reviews, good)
          (elim (Answer-cases (pinned_token k req.cursor)) [
            | inl (p, bad) ↦ rw bad (unread req key s (error p) (λ _ _ _ g. cc))
            | inr (pinned, fine) ↦
                rw fine (elim (Option-cases (replayed k rd pt ft acked now creator key s)) [
                  | inr ((status, body), old) ↦
                      rw old (unread req key s (ok (status, body)) (λ _ _ e g. cc))
                  | inl new ↦ rw new (finished req key s _ _ pinned refl)
                ])
          ])
  ]
