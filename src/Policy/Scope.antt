-- ===== src/Policy/Scope.antt =====
-- services/policy-service/internal/policy/validate.go, ValidateScope, and the scopes of policy.go. A
-- scope's identifier is the list of its runes.
use dabet.Policy.Validate.{ok, scope_id, scope, fail, runes_eq, Checked}
use dabet.Prelude.{
  ◌==◌, ◌||◌, not, none, false, true, str_eq, some, if◌then◌else◌, [], ◌++◌, ◌∷◌, Option, Bool,
  String, Runes,
}
pub mod Ownership

-- The keys of Platforms.
abbrev pub youtube : Runes
youtube = b'y' ∷ b'o' ∷ b'u' ∷ b't' ∷ b'u' ∷ b'b' ∷ b'e' ∷ []

abbrev pub twitch : Runes
twitch = b't' ∷ b'w' ∷ b'i' ∷ b't' ∷ b'c' ∷ b'h' ∷ []

abbrev pub discord : Runes
discord = b'd' ∷ b'i' ∷ b's' ∷ b'c' ∷ b'o' ∷ b'r' ∷ b'd' ∷ []

unfoldable pub is_platform : Runes → Bool
is_platform p = runes_eq p youtube || (runes_eq p twitch || runes_eq p discord)

unfoldable pub valid_scope : String → Bool
valid_scope s = str_eq s "creator" || (str_eq s "platform" || str_eq s "content")

-- strings.CutPrefix.
unfoldable pub cut_prefix : Runes → Runes → Option Runes
cut_prefix s [] = some s
cut_prefix [] (p ∷ ps) = none
cut_prefix (a ∷ s) (p ∷ ps) = let rest = cut_prefix s ps in if a == p then rest else none

abbrev pub is_empty : Runes → Bool
is_empty [] = true
is_empty (r ∷ rs) = false

unfoldable pub validate_platform : Runes → Runes → Checked (Unit {0})
unfolding cut_prefix is_platform
validate_platform id creator_id = elim (cut_prefix id (creator_id ++ b':' ∷ [])) [
  | none ↦ fail scope_id none
  | some rest ↦ if is_platform rest then ok tt else fail scope_id none
]

unfoldable pub validate_scope : String → Runes → Runes → Checked (Unit {0})
unfolding valid_scope validate_platform
validate_scope s id creator_id =
    if not (valid_scope s)
    then fail scope none
    else if is_empty id
    then fail scope_id none
    else if str_eq s "creator"
    then (if runes_eq id creator_id then ok tt else fail scope_id none)
    else if str_eq s "platform"
    then validate_platform id creator_id
    else ok tt
