-- ===== src/Moderation/PolicyCache.antt =====
-- services/moderation-service/internal/mod/policycache.go: the LRU of resolved policies. The list of
-- entries, most recently used first, is the list of the code; its index by key is `lookup`. The two
-- critical sections of `Get` are functions of their own, since other callers run between them.
pub mod Lru
use dabet.Moderation.Match.{new_matcher}
use dabet.Prelude.Dict.{delete, lookup}
use dabet.Contracts.{ResolvedPolicy}
use dabet.Moderation.Normalize.{Unicode}
use dabet.Prelude.Dict.{string_eq}
use dabet.Prelude.{ltb, if◌then◌else◌, ◌∷◌, some, none, take, [], Option, List, ◌+◌, ℕ, String}
use dabet.Moderation.Pipeline.State.{CachedPolicy}
use Prim.Native.String.{◌++◌ as str_append}

pub record PolicyEntry : Type 0 where
  pub val : CachedPolicy
  pub expires : ℕ

pub record PolicyCache : Type 0 where
  pub ttl : ℕ
  pub max_size : ℕ
  pub entries : List (String × PolicyEntry)

unfoldable pub new_policy_cache : ℕ → ℕ → PolicyCache
new_policy_cache ttl max_size = record { ttl = ttl; max_size = max_size; entries = [] }

abbrev pub cache_key : String → String → String
cache_key creator_id content_id = str_append creator_id (str_append "\0" content_id)

-- The first section: an unexpired entry moves to the front, an expired one is removed.
unfoldable pub find : PolicyCache → String → ℕ → PolicyCache × Option CachedPolicy
find c key now = elim (lookup key c.entries) [
  | none ↦ (c, none)
  | some e ↦
      if ltb now e.expires
      then (record c { entries = (key, e) ∷ delete key c.entries }, some e.val)
      else (record c { entries = delete key c.entries }, none)
]

-- The second section: the answer goes to the front, and the oldest entries leave.
unfoldable pub store : PolicyCache → String → CachedPolicy → ℕ → PolicyCache
store c key val now =
    let e : PolicyEntry = record { val = val; expires = now + c.ttl } in
    record c { entries = take c.max_size ((key, e) ∷ delete key c.entries) }

-- What an answer of GetPolicy is cached as: no policy is cached too, and a policy's words are
-- compiled once.
unfoldable pub resolved : Unicode → Option ResolvedPolicy → CachedPolicy
resolved u none = record { policy = none; matcher = none }
resolved u (some pol) = record {
  policy = some pol;
  matcher = elim pol.restricted_words [ [] ↦ none | w ∷ ws ↦ some (new_matcher u (w ∷ ws)) ];
}

-- GetPolicy: none is an error, which caches nothing. `between` is what other callers do to the cache
-- while the call is under way.
unfoldable pub get :
    Unicode
    → (String → String → Option (Option ResolvedPolicy))
    → (PolicyCache → PolicyCache)
    → PolicyCache
    → String
    → String
    → ℕ
    → PolicyCache × Option CachedPolicy
unfolding find store resolved
get u client between c creator_id content_id now =
    let key = cache_key creator_id content_id in
    let (c1, hit) = find c key now in
    elim hit [
      | some val ↦ (c1, some val)
      | none ↦ elim (client creator_id content_id) [
        | none ↦ (between c1, none)
        | some answer ↦ (store (between c1) key (resolved u answer) now, some (resolved u answer))
      ]
    ]
