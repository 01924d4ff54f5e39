-- ===== src/Policy/Resolver.antt =====
-- services/policy-service/internal/resolver/resolver.go: which policy applies, behind a cache. The
-- cache and the decoding of its entries are a parameter: what Get answered for the key.
pub mod Precedence
pub mod Cached
use dabet.Prelude.{
  ◌++◌, some, none, if◌then◌else◌, true, inr, inl, false, List, ◌⊎◌, String, Runes, Option, Bool,
  [], ◌∷◌,
}
use dabet.Policy.Store.{unavailable, Mem, Policy, StoreError, get_by_scope, not_found, duplicate}

-- ResultContent and so on.
pub data ResultScope : Type 0 where
  content platform creator none_found : ResultScope

-- `found` is not read by the resolver.
pub record CacheEntry : Type 0 where
  pub found : Bool
  pub result : ResultScope
  pub policy : Option Policy

-- An entry that cannot be decoded is `corrupt`.
pub data CacheAnswer : Type 0 where
  hit : CacheEntry → CacheAnswer
  corrupt : CacheAnswer
  miss : CacheAnswer
  down : CacheAnswer

pub record Candidate : Type 0 where
  pub scope : String
  pub scope_id : Runes
  pub result : ResultScope

abbrev pub is_blank : Runes → Bool
is_blank [] = true
is_blank (r ∷ rs) = false

unfoldable pub candidates : Runes → Runes → Runes → List Candidate
candidates creator_id platform_id content_id =
    (if is_blank content_id
      then []
      else record { scope = "content"; scope_id = content_id; result = content } ∷ [])
    ++ (if is_blank platform_id
        then []
        else record {
          scope = "platform";
          scope_id = creator_id ++ b':' ∷ platform_id;
          result = platform;
        }
          ∷ [])
    ++ record { scope = "creator"; scope_id = creator_id; result = creator } ∷ []

-- GetByScope of a repository; absence is no error.
unfoldable pub candidates_loop :
    (String → Runes → StoreError ⊎ Policy)
    → List Candidate
    → StoreError ⊎ (Option Policy × ResultScope)
candidates_loop get [] = inr (none, none_found)
candidates_loop get (c ∷ cs) = elim (get c.scope c.scope_id) [
  | inr p ↦ inr (some p, c.result)
  | inl not_found ↦ candidates_loop get cs
  | inl duplicate ↦ inl duplicate
  | inl unavailable ↦ inl unavailable
]

unfoldable pub resolve_from_db :
    (String → Runes → StoreError ⊎ Policy)
    → Runes
    → Runes
    → Runes
    → StoreError ⊎ (Option Policy × ResultScope)
resolve_from_db get creator_id platform_id content_id =
    candidates_loop get (candidates creator_id platform_id content_id)

abbrev pub is_some : Option Policy → Bool
is_some none = false
is_some (some p) = true

-- What is returned, and what is set in the cache.
unfoldable pub read_through :
    StoreError ⊎ (Option Policy × ResultScope)
    → (StoreError ⊎ (Option Policy × ResultScope)) × Option CacheEntry
read_through (inl err) = (inl err, none)
read_through (inr (p, result)) =
    (inr (p, result), some (record { found = is_some p; result = result; policy = p }))

unfoldable pub resolve :
    CacheAnswer
    → (String → Runes → StoreError ⊎ Policy)
    → Runes
    → Runes
    → Runes
    → (StoreError ⊎ (Option Policy × ResultScope)) × Option CacheEntry
resolve (hit e) get creator_id platform_id content_id = (inr (e.policy, e.result), none)
resolve corrupt get creator_id platform_id content_id =
    read_through (resolve_from_db get creator_id platform_id content_id)
resolve miss get creator_id platform_id content_id =
    read_through (resolve_from_db get creator_id platform_id content_id)
resolve down get creator_id platform_id content_id =
    read_through (resolve_from_db get creator_id platform_id content_id)
