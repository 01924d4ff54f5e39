-- ===== src/Review/Applying/Plain.antt =====
-- Requests without a cursor, to a live queue.
use dabet.Contracts.{Deletion}
use dabet.Prelude.Dict.{string_eq}
use dabet.Review.Applying.{
  replayed, post_reviews, run_batch, finish_post, pinned_token, PostRequest,
}
use dabet.Review.Decisions.{Decision, validate_decisions}
use dabet.Review.Handler.{State, Faults, Codec, PostResponse, Answer, ok, error, resolve_queue}
use dabet.Review.Handler.Reading.{IsLive, resolve_queue-live}
use dabet.Review.Queue.{Reader, Partitioner}
use dabet.Prelude.{
  ap, some, ◌∙◌, ℕ, ◌≡◌, refl, sym, ◌∙◌, Bool, String, none, List, arith, Option-cases, inl, inr,
}

-- A request without a cursor.
abbrev pub plain : List Decision → PostRequest
plain ds = record { decisions = ds; cursor = "" }

module _ (k : Codec) (rd : Reader) (pt : Partitioner) (ft : Faults) (acked : Deletion → Bool)
    (now : ℕ) (creator : String) where
  -- A request whose key has no response stored.
  pub plain_post :
      (ds : List Decision) (key : String) (s : State)
      → validate_decisions ds ≡ none
      → replayed k rd pt ft acked now creator key s ≡ none
      → post_reviews k rd pt ft acked now creator (plain ds) key s
        ≡ finish_post k rd pt ft acked now creator key
            (run_batch k rd pt ft acked now creator none ds (resolve_queue ft now creator rd pt s))
  unfolding post_reviews pinned_token
  plain_post ds key s good new = rw (post_reviews, good, new) refl

  -- One whose key has.
  pub plain_replay :
      (ds : List Decision) (key : String) (s : State) (stored : ℕ × PostResponse)
      → validate_decisions ds ≡ none
      → replayed k rd pt ft acked now creator key s ≡ some stored
      → post_reviews k rd pt ft acked now creator (plain ds) key s ≡ (s, ok stored)
  unfolding post_reviews pinned_token
  plain_replay ds key s stored good there = rw (post_reviews, good, there) refl

  -- Storing the response touches nothing else.
  pub finish_post-keeps :
      (key : String) (out : State × Answer PostResponse)
      → ((finish_post k rd pt ft acked now creator key out).0.cursors ≡ out.0.cursors)
        × ((finish_post k rd pt ft acked now creator key out).0.produced ≡ out.0.produced)
        × ((finish_post k rd pt ft acked now creator key out).0.windows_lost ≡ out.0.windows_lost)
  unfolding finish_post
  finish_post-keeps key (s, error p) = (refl, refl, refl)
  finish_post-keeps key (s, ok r) = ground arith

  plain_finish :
      (key : String) (out : State × Answer PostResponse) (s' : State) (status : ℕ)
      (resp : PostResponse)
      → finish_post k rd pt ft acked now creator key out ≡ (s', ok (status, resp))
      → out ≡ (out.0, ok resp)
  unfolding finish_post
  plain_finish key (s, error p) s' status resp h = absurd (cc)
  plain_finish key (s, ok r) s' status resp h = ground arith

  live_run :
      (ds : List Decision) (s s' : State) (resp : PostResponse) (l : IsLive rd pt creator s)
      → run_batch k rd pt ft acked now creator none ds (resolve_queue ft now creator rd pt s)
        ≡ (s', ok resp)
      → run_batch k rd pt ft acked now creator none ds (s, ok l.at) ≡ (s', ok resp)
  unfolding run_batch
  live_run ds s s' resp l h = ground (arith, resolve_queue-live ft now creator rd pt s l)

  -- The request that was answered had decisions, and its batch was run at the front of the queue.
  pub plain_run :
      (ds : List Decision) (key : String) (s s' : State) (status : ℕ) (resp : PostResponse)
      (l : IsLive rd pt creator s)
      → replayed k rd pt ft acked now creator key s ≡ none
      → post_reviews k rd pt ft acked now creator (plain ds) key s ≡ (s', ok (status, resp))
      → (validate_decisions ds ≡ none)
        × (t : State) × (run_batch k rd pt ft acked now creator none ds (s, ok l.at) ≡ (t, ok resp))
        × (s'.cursors ≡ t.cursors)
  unfolding post_reviews
  plain_run ds key s s' status resp l new h = elim (Option-cases (validate_decisions ds)) [
    | inr (e, bad) ↦ let h' = rw (post_reviews, bad) at h in absurd (cc)
    | inl good ↦
        let out =
          run_batch k rd pt ft acked now creator none ds (resolve_queue ft now creator rd pt s) in
        let h' = sym (plain_post ds key s good new) ∙ h in
        (
          good,
          out.0,
          live_run ds s out.0 resp l (plain_finish key out s' status resp h'),
          ap (λ (x : State × Answer (ℕ × PostResponse)). x.0.cursors) (sym h')
              ∙ (finish_post-keeps key out).0,
        )
  ]
