-- ===== src/Policy/Resolver/Precedence.antt =====
-- Which policy resolver.go of services/policy-service/internal/resolver finds.
use dabet.Prelude.{
  ◌++◌, if◌then◌else◌, ◌∙◌, arith, str_eq, false, ap, ◌≢◌, none, sym, inr, ◌≡◌, some, String, Runes,
  refl, [], ◌∷◌,
}
use dabet.Prelude.Dict.{string_eq, lookup, delete}
use dabet.Policy.Store.{Mem, Policy, is_at, find_scope, create, get_by_scope, remove}
use dabet.Policy.Store.Lookups.{is_at-own, UniqueScopes, find-delete, create-find}
use dabet.Policy.Resolver.{candidates, candidates_loop, resolve_from_db, is_blank, content}

not_blank : (i : Runes) → i ≢ [] → is_blank i ≡ false
not_blank [] h = absurd (h refl)
not_blank (r ∷ rs) h = refl

-- A policy that is created for a content applies to it, whatever the creator has on the platform or
-- for everything.
pub create-resolve :
    (m m' : Mem) (p : Policy) (creator_id platform_id : Runes)
    → create m p ≡ inr m'
    → p.scope ≡ "content"
    → p.scope_id ≢ []
    → resolve_from_db (get_by_scope m') creator_id platform_id p.scope_id ≡ inr (some p, content)
unfolding resolve_from_db candidates candidates_loop get_by_scope
create-resolve m m' p creator_id platform_id h at named =
    let found : find_scope "content" p.scope_id m' ≡ some p =
      ap (λ s. find_scope s p.scope_id m') (sym at) ∙ create-find m m' p h in
    ground (arith, not_blank p.scope_id named, found)

-- Where no two policies stand at one scope: a policy of a content that is removed leaves the
-- content with what applies without it: the policy of the platform, or of the creator, or none.
pub remove-resolve :
    (m m' : Mem) (p : Policy) (id : String) (creator_id platform_id : Runes)
    → UniqueScopes m
    → lookup id m ≡ some p
    → p.scope ≡ "content"
    → remove m id ≡ inr m'
    → resolve_from_db (get_by_scope m') creator_id platform_id p.scope_id
      ≡ resolve_from_db (get_by_scope m) creator_id platform_id []
unfolding resolve_from_db candidates candidates_loop get_by_scope remove
remove-resolve m m' p id creator_id platform_id u there at h =
    let same : delete id m ≡ m' = ground (arith, there, h) in
    let elsewhere = λ (s : String) (i : Runes) (e : str_eq "content" s ≡ false).
      ap (find_scope s i) (sym same)
      ∙ find-delete id s i p m u there
      ∙ ap (λ t. if t then none else find_scope s i m) (off s i e) in
    let gone : find_scope "content" p.scope_id m' ≡ none =
      ap (find_scope "content" p.scope_id) (sym same)
      ∙ find-delete id "content" p.scope_id p m u there
      ∙ ap (λ t. if t then none else find_scope "content" p.scope_id m)
          (ap (λ s. is_at s p.scope_id p) (sym at) ∙ is_at-own p) in
    ground (
      arith,
      gone,
      elsewhere "platform" (creator_id ++ b':' ∷ platform_id) refl,
      elsewhere "creator" creator_id refl,
    )
  where
    off : (s : String) (i : Runes) → str_eq "content" s ≡ false → is_at s i p ≡ false
    off s i e = rw at (rw e refl)
