-- ===== src/Moderation/Classify.antt =====
-- services/moderation-service/internal/mod/llm.go, LLMClient.Classify after the model has answered:
-- the verdicts of a batch, assembled by index. The HTTP call and the JSON decoding are parameters.
use dabet.Prelude.Int.{ltb_ℤ, pos_part, pos, ℤ}
use dabet.Prelude.{
  [], ◌||◌, true, set, all, if◌then◌else◌, ◌-◌, false, ◌∷◌, length, some, replicate, none, Runes,
  Option, Bool, List, ℕ,
}
use dabet.Contracts.{ResolvedPolicy}
pub mod Verdicts

-- One element of "results".
pub record Verdict : Type 0 where
  pub i : ℤ
  pub violates : ℤ

-- The loop over the results: the verdicts and the flags of those that are there. An index out of
-- range is an error.
unfoldable pub place : ℕ → List Verdict → List ℤ → List Bool → Option (List ℤ × List Bool)
place n [] out seen = some (out, seen)
place n (r ∷ rs) out seen =
    let at = pos_part r.i - 1 in
    let rest = place n rs (set out at r.violates) (set seen at true) in
    if ltb_ℤ r.i (pos 1) || ltb_ℤ (pos n) r.i then none else rest

-- Every text needs a verdict.
unfoldable pub assemble : ℕ → List Verdict → Option (List ℤ)
unfolding place
assemble n results = elim (place n results (replicate n (pos 0)) (replicate n false)) [
  | none ↦ none
  | some (out, seen) ↦ if all (λ s. s) seen then some out else none
]

-- `ask` is the request and the decoding of its answer; none is any of their errors.
unfoldable pub classify :
    (ResolvedPolicy → List Runes → Option (List Verdict))
    → ResolvedPolicy
    → List Runes
    → Option (List ℤ)
unfolding assemble
classify ask policy texts = elim (ask policy texts) [
  | none ↦ none
  | some results ↦ assemble (length texts) results
]
