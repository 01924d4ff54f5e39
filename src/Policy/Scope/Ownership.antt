-- ===== src/Policy/Scope/Ownership.antt =====
-- A scope that is accepted belongs to the caller.
use dabet.Policy.Validate.Words.{runes_eq_iff}
use dabet.Policy.Validate.{ok}
use dabet.Policy.Scope.{is_platform, valid_scope, validate_scope, validate_platform, cut_prefix}
use dabet.Prelude.{
  inr, sym, inl, false, Option-cases, str_eq, [], ==_iff, ◌∷◌, ◌∷◌, str_eq_iff, arith, ◌++◌, true,
  some, ◌≡◌, Runes, String, refl,
}
use mathlib.Core.Path.{subst}

cut_prefix-append : (s p rest : Runes) → cut_prefix s p ≡ some rest → s ≡ p ++ rest
unfolding cut_prefix
cut_prefix-append s [] rest h = ground arith
cut_prefix-append [] (p ∷ ps) rest h = absurd (ground arith)
cut_prefix-append (a ∷ s) (p ∷ ps) rest h = ground (arith, ==_iff a p, cut_prefix-append s ps rest)

-- What a creator may name: its own identifier, or one of its platforms.
pub record IsOwn (s : String) (id creator_id : Runes) : Type 0 where
  pub known : valid_scope s ≡ true
  pub own_creator : s ≡ "creator" → id ≡ creator_id
  pub own_platform :
      s ≡ "platform"
      → (p : Runes) × ((id ≡ (creator_id ++ b':' ∷ []) ++ p) × (is_platform p ≡ true))

validate_platform-own :
    (id creator_id : Runes)
    → validate_platform id creator_id ≡ ok tt
    → (p : Runes) × ((id ≡ (creator_id ++ b':' ∷ []) ++ p) × (is_platform p ≡ true))
unfolding validate_platform
validate_platform-own id creator_id h =
    elim (Option-cases (cut_prefix id (creator_id ++ b':' ∷ []))) [
      | inl failed ↦ absurd (ground (arith, failed))
      | inr (p, cut) ↦
          (p, (cut_prefix-append id (creator_id ++ b':' ∷ []) p cut, ground (arith, cut)))
    ]

-- A policy is only accepted on a known scope, on the caller's own identifier, or on a known platform
-- under it; a content's identifier is opaque.
pub validate_scope-IsOwn :
    (s : String) (id creator_id : Runes)
    → validate_scope s id creator_id ≡ ok tt
    → IsOwn s id creator_id
unfolding validate_scope
validate_scope-IsOwn s id creator_id h = record {
  known = ground arith;
  own_creator = λ e. ground (arith, (str_eq_iff s "creator").1 e, runes_eq_iff id creator_id);
  own_platform = λ e. validate_platform-own id creator_id (
      ground (
        arith,
        (str_eq_iff s "platform").1 e,
        subst (λ x. str_eq x "creator" ≡ false) (sym e) refl,
      ));
}
