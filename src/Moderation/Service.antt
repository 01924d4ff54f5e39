-- ===== src/Moderation/Service.antt =====
-- services/moderation-service/internal/mod/pipeline.go: the batches that leave the batcher, their
-- dispatch to the model, the background loop and the shutdown.
use dabet.Moderation.Pipeline.Stages.{flag}
use dabet.Prelude.Int.{pos, ltb_ℤ, ℤ}
use dabet.Moderation.Pipeline.State.{skipped, clean, dependency_up, llm, fail_open, outcome, Effect}
use dabet.Moderation.Batcher.{Batch}
use dabet.Prelude.{
  true, [], suc, some, false, Bool, if◌then◌else◌, ◌∷◌, none, map, Option, ◌++◌, replicate, length,
  Runes, List, ℕ,
}
use dabet.Moderation.Classify.{Verdict, classify}
use dabet.Contracts.{
  restricted_content, action_review, Flagged, action_auto, review, auto_delete, Message, Action,
  RestrictedContentAction, ResolvedPolicy,
}
pub mod Conservation
pub mod Drain
pub mod Ending
pub mod Verdicts

-- What the model and the broker answer during one dispatch, and the times of the records of the
-- message at each position.
pub record Model : Type 0 where
  pub ask : ResolvedPolicy → List Runes → Option (List Verdict)
  pub flagged_acked : Flagged → Bool
  pub flagged_at : ℕ → ℕ
  pub issued_at : ℕ → ℕ

abbrev pub repeat_effect : ℕ → Effect → List Effect → List Effect
repeat_effect n e t = replicate n e ++ t

abbrev pub rc_action : RestrictedContentAction → Action
rc_action action_auto = auto_delete
rc_action action_review = review

-- The loop over the messages and their verdicts.
unfoldable pub judge :
    Model → ResolvedPolicy → ℕ → List Message → List ℤ → List Effect → List Effect
judge m policy i [] verdicts t = t
judge m policy i (msg ∷ msgs) [] t = t
judge m policy i (msg ∷ msgs) (v ∷ verdicts) t =
    let t' =
      if ltb_ℤ (pos 0) v
      then flag m.flagged_acked (m.flagged_at i) (m.issued_at i) msg restricted_content
          (rc_action policy.restricted_content_action) policy.policy_id t
      else outcome clean ∷ t in
    judge m policy (suc i) msgs verdicts t'

-- An error of the model lets the whole batch pass.
unfoldable pub dispatch : Model → Batch → List Effect → List Effect
unfolding judge classify
dispatch m batch t =
    let n = length batch.messages in
    elim (classify m.ask batch.policy (map (λ (msg : Message). msg.text) batch.messages)) [
      | none ↦
          repeat_effect n (outcome skipped)
            (repeat_effect n (fail_open llm) (dependency_up llm false ∷ t))
      | some verdicts ↦ judge m batch.policy 0 batch.messages verdicts (dependency_up llm true ∷ t)
    ]
