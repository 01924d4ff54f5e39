-- ===== src/Moderation/Service/Verdicts.antt =====
-- What a dispatch leaves of a batch.
use dabet.Moderation.Classify.Verdicts.{assemble_complete}
use dabet.Moderation.Batcher.{Batch}
use dabet.Moderation.Pipeline.Accounting.{
  is_auto_hit, is_deletion_record, is_flagged_record, is_flagged_outcome, is_hit, flag-IsConsistent,
  is_outcome, IsConsistent,
}
use dabet.Prelude.Int.{pos, ltb_ℤ, ℤ}
use dabet.Prelude.{
  ◌++◌, zero, replicate, refl, [], suc, ◌∙◌, true, false, String, Bool-cases, ◌∷◌, map, inr, ◌+◌,
  arith, Bool, inl, count, Option-cases, some, length, ◌≡◌, Option, ℕ, Runes, List,
}
use dabet.Moderation.Pipeline.Stages.{flag}
use dabet.Moderation.Pipeline.State.{
  skipped, clean, llm, fail_open, outcome, dependency_up, dependency_up, dependency_up, Effect,
  dependency_up, dependency_up, dependency_up, dependency_up, dependency_up,
}
use dabet.Contracts.{
  review, auto_delete, Action, Detector, Flagged, restricted_content, restricted_content,
  restricted_content, restricted_content, restricted_content, Message, restricted_content,
  restricted_content, restricted_content, ResolvedPolicy,
}
use dabet.Moderation.Service.{rc_action, repeat_effect, dispatch, Model, judge}
use dabet.Moderation.Classify.{Verdict, classify}

-- One verdict, one outcome.
flag_outcome :
    (acked : Flagged → Bool) (now issued : ℕ) (msg : Message) (det : Detector) (action : Action)
    (policy_id : String) (t : List Effect)
    → count is_outcome (flag acked now issued msg det action policy_id t) ≡ count is_outcome t + 1
unfolding flag
flag_outcome acked now issued msg det auto_delete policy_id t = ground arith
flag_outcome acked now issued msg det review policy_id t = ground arith

judge_outcomes :
    (m : Model) (policy : ResolvedPolicy) (i : ℕ) (msgs : List Message) (verdicts : List ℤ)
    (t : List Effect)
    → length verdicts ≡ length msgs
    → IsConsistent t
    → (count is_outcome (judge m policy i msgs verdicts t) ≡ count is_outcome t + length msgs)
      × IsConsistent (judge m policy i msgs verdicts t)
unfolding judge
judge_outcomes m policy i [] verdicts t e c = ground arith
judge_outcomes m policy i (msg ∷ msgs) [] t e c = absurd (ground arith)
judge_outcomes m policy i (msg ∷ msgs) (v ∷ verdicts) t e c = elim (Bool-cases (ltb_ℤ (pos 0) v)) [
  | inl hit ↦
      let t' =
        flag m.flagged_acked (m.flagged_at i) (m.issued_at i) msg restricted_content
          (rc_action policy.restricted_content_action) policy.policy_id t in
      rw hit (
        ground (
          arith,
          judge_outcomes m policy (suc i) msgs verdicts t' (ground arith) (
              flag-IsConsistent m.flagged_acked (m.flagged_at i) (m.issued_at i) msg
                restricted_content (rc_action policy.restricted_content_action) policy.policy_id t
                c),
          flag_outcome m.flagged_acked (m.flagged_at i) (m.issued_at i) msg restricted_content
              (rc_action policy.restricted_content_action) policy.policy_id t,
        ))
  | inr passed ↦ rw passed (
      ground (
        arith,
        judge_outcomes m policy (suc i) msgs verdicts (outcome clean ∷ t) (ground arith)
            (ground arith),
      ))
]

-- The model is asked about no more than it answers for.
classify-length :
    (ask : ResolvedPolicy → List Runes → Option (List Verdict)) (policy : ResolvedPolicy)
    (texts : List Runes) (out : List ℤ)
    → classify ask policy texts ≡ some out
    → length out ≡ length texts
unfolding classify
classify-length ask policy texts out e = elim (Option-cases (ask policy texts)) [
  | inl failed ↦ absurd (ground (arith, failed))
  | inr (rs, answered) ↦ (assemble_complete (length texts) rs out (ground (arith, answered))).0
]

repeat_effect-pass :
    (p : Effect → Bool) (n : ℕ) (e : Effect) (t : List Effect)
    → p e ≡ true
    → count p (repeat_effect n e t) ≡ count p t + n
repeat_effect-pass p zero e t h = ground arith
repeat_effect-pass p (suc n) e t h = ground (arith, repeat_effect-pass p n e t h)

repeat_effect-drop :
    (p : Effect → Bool) (n : ℕ) (e : Effect) (t : List Effect)
    → p e ≡ false
    → count p (repeat_effect n e t) ≡ count p t
repeat_effect-drop p zero e t h = ground arith
repeat_effect-drop p (suc n) e t h = ground (arith, repeat_effect-drop p n e t h)

length-map {ℓ κ} :
    {A : Type ℓ} {B : Type κ} (f : A → B) (xs : List A) → length (map f xs) ≡ length xs
length-map f [] = refl
length-map f (x ∷ xs) = omega (arith, length-map f xs)

skip_outcomes :
    (n : ℕ) (t : List Effect)
    → IsConsistent t
    → (let s = repeat_effect n (outcome skipped) (repeat_effect n (fail_open llm) t) in
        (count is_outcome s ≡ count is_outcome t + n) × IsConsistent s)
skip_outcomes n t c =
    let s = replicate n (fail_open llm) ++ t in
    ground (
      arith,
      repeat_effect-pass is_outcome n (outcome skipped) s,
      repeat_effect-drop is_outcome n (fail_open llm) t,
      repeat_effect-drop is_hit n (outcome skipped) s,
      repeat_effect-drop is_hit n (fail_open llm) t,
      repeat_effect-drop is_flagged_outcome n (outcome skipped) s,
      repeat_effect-drop is_flagged_outcome n (fail_open llm) t,
      repeat_effect-drop is_flagged_record n (outcome skipped) s,
      repeat_effect-drop is_flagged_record n (fail_open llm) t,
      repeat_effect-drop is_deletion_record n (outcome skipped) s,
      repeat_effect-drop is_deletion_record n (fail_open llm) t,
      repeat_effect-drop is_auto_hit n (outcome skipped) s,
      repeat_effect-drop is_auto_hit n (fail_open llm) t,
    )

-- A dispatch counts each message of its batch once, also when the model fails, and keeps the
-- records, hits and outcomes in step.
pub dispatch_outcomes :
    (m : Model) (batch : Batch) (t : List Effect)
    → IsConsistent t
    → (count is_outcome (dispatch m batch t) ≡ count is_outcome t + length batch.messages)
      × IsConsistent (dispatch m batch t)
unfolding dispatch
dispatch_outcomes m batch t c =
    let texts : List Runes = map (λ (msg : Message). msg.text) batch.messages in
    elim (Option-cases (classify m.ask batch.policy texts)) [
      | inl failed ↦
          ground
            (arith, failed, skip_outcomes (length batch.messages) (dependency_up llm false ∷ t))
      | inr (verdicts, answered) ↦ ground (
        arith,
        answered,
        judge_outcomes m batch.policy 0 batch.messages verdicts (dependency_up llm true ∷ t) (
            classify-length m.ask batch.policy texts verdicts answered
            ∙ length-map (λ (msg : Message). msg.text) batch.messages),
      )
    ]
