-- ===== src/Policy/Resolver/Cached.antt =====
-- services/policy-service/internal/resolver/resolver.go: Resolve behind a cache that other requests
-- fill (cachetest.go of internal/cache, whose map stands for the client of Memcached).
pub mod Answers
use dabet.Adapter.Ring.Bytes.{bytes_eq}
use dabet.Prelude.Dict.{lookup, insert, lookup-insert}
use dabet.Policy.Store.{Policy, StoreError}
use dabet.Policy.Resolver.{
  down, miss, corrupt, hit, resolve_from_db, resolve, read_through, CacheEntry, CacheAnswer,
  ResultScope, is_some,
}
use dabet.Prelude.{
  ◌++◌, if◌then◌else◌, ◌∙◌, arith, Bool, true, false, ap, ◌≢◌, none, some, sym, inr, inl, ◌≡◌, ◌⊎◌,
  String, Runes, Option, refl, List, [], ◌∷◌, All, Option-cases, map, Bool-cases,
}

abbrev pub key_prefix : Runes
key_prefix = b'p' ∷ b'o' ∷ b'l' ∷ b':' ∷ b'v' ∷ b'1' ∷ b':' ∷ []

pub record Request : Type 0 where
  pub creator_id : Runes
  pub platform_id : Runes
  pub content_id : Runes

unfoldable pub cache_key : Request → Runes
cache_key r = key_prefix ++ (r.creator_id ++ b'|' ∷ (r.platform_id ++ b'|' ∷ r.content_id))

abbrev pub Cache : Type 0
Cache = List (Runes × CacheEntry)

-- What a Get meets: the entry as it was set, none any more, one that does not decode, or an error.
pub data Retrieval : Type 0 where
  intact evicted garbled unreachable : Retrieval

pub record Weather : Type 0 where
  pub reading : Retrieval
  pub set_fails : Bool

unfoldable pub get_entry : Retrieval → Runes → Cache → CacheAnswer
get_entry intact key cache = elim (lookup key cache) [ none ↦ miss | some e ↦ hit e ]
get_entry evicted key cache = miss
get_entry garbled key cache = corrupt
get_entry unreachable key cache = down

unfoldable pub set_entry : Bool → Runes → Option CacheEntry → Cache → Cache
set_entry fails key none cache = cache
set_entry fails key (some e) cache = if fails then cache else insert key e cache

abbrev pub Found : Type 0
Found = StoreError ⊎ (Option Policy × ResultScope)

abbrev pub from_db : (String → Runes → StoreError ⊎ Policy) → Request → Found
from_db get r = resolve_from_db get r.creator_id r.platform_id r.content_id

-- Resolve, and the cache after it.
unfoldable pub resolve_cached :
    (String → Runes → StoreError ⊎ Policy) → Weather → Request → Cache → Found × Cache
resolve_cached get w r cache =
    let (found, set) =
      resolve (get_entry w.reading (cache_key r) cache) get r.creator_id r.platform_id
        r.content_id in
    (found, set_entry w.set_fails (cache_key r) set cache)

-- Requests one after the other, from a cache.
unfoldable pub run_resolves :
    (String → Runes → StoreError ⊎ Policy) → List (Weather × Request) → Cache → List Found × Cache
run_resolves get [] cache = ([], cache)
run_resolves get ((w, r) ∷ rs) cache =
    let (found, cache') = resolve_cached get w r cache in
    let (rest, last) = run_resolves get rs cache' in (found ∷ rest, last)

-- A creator id and a platform hold no bar, as a UUID and a word do not.
abbrev pub NoBar : Runes → Type 0
NoBar rs = All (λ c. c ≢ b'|') rs

abbrev pub IsRequest : Request → Type 0
IsRequest r = NoBar r.creator_id × NoBar r.platform_id
