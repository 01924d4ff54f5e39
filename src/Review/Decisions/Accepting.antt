-- ===== src/Review/Decisions/Accepting.antt =====
-- Which decisions pass the checks.
use dabet.Review.Decisions.{Decision, byte_length, check_decisions, validate_decisions}
use dabet.Prelude.{
  ◌≤◌, ◌≡◌, ◌≢◌, ◌↔◌, refl, false, String, str_eq, none, List, [], ◌∷◌, length, any, All, arith,
}

-- One decision by itself: a message id of 1 to 64 bytes of its UTF-8 text, and an explicit flag.
pub record IsDecision (d : Decision) : Type 0 where
  pub named : str_eq d.message_id "" ≡ false
  pub short : byte_length d.message_id ≤ 64
  pub explicit : d.flagged ≢ none

-- No two decisions on one message.
abbrev pub DistinctIds : List Decision → Type 0
DistinctIds [] = Unit
DistinctIds (d ∷ ds) = All (λ x. str_eq x.message_id d.message_id ≡ false) ds × DistinctIds ds

-- Decisions on messages that were not seen.
abbrev Unseen : List String → List Decision → Type 0
Unseen seen [] = Unit
Unseen seen (d ∷ ds) = (any (str_eq d.message_id) seen ≡ false) × Unseen seen ds

Unseen-split :
    (id : String) (seen : List String) (ds : List Decision)
    → Unseen (id ∷ seen) ds
    → All (λ x. str_eq x.message_id id ≡ false) ds × Unseen seen ds
Unseen-split id seen [] u = (tt, tt)
Unseen-split id seen (d ∷ ds) (h, u) = ground (arith, Unseen-split id seen ds u)

Unseen-join :
    (id : String) (seen : List String) (ds : List Decision)
    → All (λ x. str_eq x.message_id id ≡ false) ds
    → Unseen seen ds
    → Unseen (id ∷ seen) ds
Unseen-join id seen [] a u = tt
Unseen-join id seen (d ∷ ds) (h, a) (k, u) = ground (arith, Unseen-join id seen ds a u)

check_head :
    (seen : List String) (d : Decision) (ds : List Decision)
    → check_decisions seen (d ∷ ds) ≡ none
    → IsDecision d
      × (any (str_eq d.message_id) seen ≡ false)
      × (check_decisions (d.message_id ∷ seen) ds ≡ none)
unfolding check_decisions
check_head seen d ds h = ground arith

check_sound :
    (seen : List String) (ds : List Decision)
    → check_decisions seen ds ≡ none
    → All IsDecision ds × DistinctIds ds × Unseen seen ds
check_sound seen [] h = (tt, tt, tt)
check_sound seen (d ∷ ds) h =
    let (good, fresh, rest) = check_head seen d ds h in
    let (a, b, u) = check_sound (d.message_id ∷ seen) ds rest in
    let (new, u') = Unseen-split d.message_id seen ds u in ((good, a), (new, b), (fresh, u'))

check_complete :
    (seen : List String) (ds : List Decision)
    → All IsDecision ds
    → DistinctIds ds
    → Unseen seen ds
    → check_decisions seen ds ≡ none
unfolding check_decisions
check_complete seen [] a b u = refl
check_complete seen (d ∷ ds) (good, a) (new, b) (fresh, u) =
    ground
      (arith, check_complete (d.message_id ∷ seen) ds a b (Unseen-join d.message_id seen ds new u))

Unseen-nil : (ds : List Decision) → Unseen [] ds
Unseen-nil [] = tt
Unseen-nil (d ∷ ds) = (refl, Unseen-nil ds)

-- A batch passes exactly where it has 1 to 200 decisions, each with a message id of 1 to 64 bytes
-- and an explicit flag, and no two on one message.
pub validate_decisions_iff :
    (ds : List Decision)
    → (validate_decisions ds ≡ none)
      ↔ ((1 ≤ length ds) × (length ds ≤ 200) × All IsDecision ds × DistinctIds ds)
unfolding validate_decisions
validate_decisions_iff ds = (
  λ h.
      let (some_there, few, checked) : (1 ≤ length ds)
          × (length ds ≤ 200)
          × (check_decisions [] ds ≡ none) =
        ground arith in
      let (a, b, _) = check_sound [] ds checked in (some_there, few, a, b),
  λ h. ground (arith, check_complete [] ds h.2 h.3 (Unseen-nil ds)),
)
