-- ===== src/Policy/Resolver/Cached/Answers.antt =====
-- What requests are answered by services/policy-service/internal/resolver/resolver.go behind its
-- cache.
use dabet.Adapter.Ring.Bytes.{bytes_eq}
use dabet.Prelude.Dict.{lookup, insert, lookup-insert}
use dabet.Policy.Store.{Policy, StoreError}
use dabet.Policy.Resolver.{
  down, miss, corrupt, hit, resolve, read_through, CacheEntry, CacheAnswer, is_some,
}
use dabet.Prelude.{
  ◌++◌, ◌∙◌, arith, Bool, true, false, ap, none, some, sym, inr, inl, ◌≡◌, ◌⊎◌, String, Runes, refl,
  List, [], ◌∷◌, All, Option-cases, map, Bool-cases,
}
use dabet.Policy.Resolver.Cached.{
  Request, cache_key, Cache, Weather, get_entry, set_entry, Found, from_db, resolve_cached,
  run_resolves, NoBar, IsRequest, Retrieval, intact, evicted, garbled, unreachable,
}

bar_split :
    (c c' r r' : Runes) → NoBar c → NoBar c' → c ++ b'|' ∷ r ≡ c' ++ b'|' ∷ r' → (c ≡ c') × (r ≡ r')
bar_split [] [] r r' n n' h = ground arith
bar_split [] (x ∷ c') r r' n (k, n') h = ground arith
bar_split (x ∷ c) [] r r' (k, n) n' h = ground arith
bar_split (x ∷ c) (y ∷ c') r r' (k, n) (k', n') h = ground (arith, bar_split c c' r r' n n')

-- So two requests of one key are one request.
cache_key_unique :
    (r r' : Request) → IsRequest r → IsRequest r' → cache_key r ≡ cache_key r' → r ≡ r'
unfolding cache_key
cache_key_unique r r' (n, p) (n', p') h =
    let (c, rest) =
      bar_split r.creator_id r'.creator_id (r.platform_id ++ b'|' ∷ r.content_id)
        (r'.platform_id ++ b'|' ∷ r'.content_id) n n' (ground arith) in
    let (f, i) = bar_split r.platform_id r'.platform_id r.content_id r'.content_id p p' rest in
    ground arith

-- A resolve finds what the repository does, and leaves the cache or sets an entry of it.
abbrev Outcome : Found → Runes → Cache → Found × Cache → Type 0
Outcome found key cache out =
    (out ≡ (found, cache))
    ⊎ ((e : CacheEntry) × ((found ≡ inr (e.policy, e.result))
          × (out ≡ (found, insert key e cache))))

read_through-Outcome :
    (found : Found) (fails : Bool) (key : Runes) (cache : Cache)
    → Outcome found key cache
        ((read_through found).0, set_entry fails key (read_through found).1 cache)
unfolding read_through set_entry
read_through-Outcome (inl err) fails key cache = inl refl
read_through-Outcome (inr (p, result)) true key cache = inl refl
read_through-Outcome (inr (p, result)) false key cache =
    inr (record { found = is_some p; result = result; policy = p }, (refl, refl))

read_through-found : (found : Found) → (read_through found).0 ≡ found
unfolding read_through
read_through-found (inl err) = refl
read_through-found (inr (p, result)) = refl

module _ (get : String → Runes → StoreError ⊎ Policy) where
  -- Every entry is what the repository resolves for its request.
  abbrev IsCurrent : Cache → Type 0
  IsCurrent cache =
      (r : Request) (e : CacheEntry)
      → IsRequest r
      → lookup (cache_key r) cache ≡ some e
      → from_db get r ≡ inr (e.policy, e.result)

  answer-Outcome :
      (answer : CacheAnswer) (fails : Bool) (r : Request) (cache : Cache)
      → ((e : CacheEntry) → answer ≡ hit e → from_db get r ≡ inr (e.policy, e.result))
      → (let out = resolve answer get r.creator_id r.platform_id r.content_id in
          Outcome
            (from_db get r)
            (cache_key r)
            cache
            (out.0, set_entry fails (cache_key r) out.1 cache))
  unfolding resolve set_entry
  answer-Outcome (hit e) fails r cache h = inl (ap (λ (x : Found). (x, cache)) (sym (h e refl)))
  answer-Outcome corrupt fails r cache h =
      read_through-Outcome (from_db get r) fails (cache_key r) cache
  answer-Outcome miss fails r cache h =
      read_through-Outcome (from_db get r) fails (cache_key r) cache
  answer-Outcome down fails r cache h =
      read_through-Outcome (from_db get r) fails (cache_key r) cache

  get_entry-hit :
      (reading : Retrieval) (key : Runes) (cache : Cache) (e : CacheEntry)
      → get_entry reading key cache ≡ hit e
      → lookup key cache ≡ some e
  unfolding get_entry
  get_entry-hit intact key cache e h = ground (arith, h)
  get_entry-hit evicted key cache e h = absurd (cc)
  get_entry-hit garbled key cache e h = absurd (cc)
  get_entry-hit unreachable key cache e h = absurd (cc)

  resolve_cached-Outcome :
      (w : Weather) (r : Request) (cache : Cache)
      → IsRequest r
      → IsCurrent cache
      → Outcome (from_db get r) (cache_key r) cache (resolve_cached get w r cache)
  unfolding resolve_cached
  resolve_cached-Outcome w r cache v c =
      answer-Outcome (get_entry w.reading (cache_key r) cache) w.set_fails r cache
        (λ e h. c r e v (get_entry-hit w.reading (cache_key r) cache e h))

  set-IsCurrent :
      (r : Request) (e : CacheEntry) (cache : Cache)
      → IsRequest r
      → from_db get r ≡ inr (e.policy, e.result)
      → IsCurrent cache
      → IsCurrent (insert (cache_key r) e cache)
  set-IsCurrent r e cache v h c r' e' v' there =
      let found = sym (lookup-insert (cache_key r) (cache_key r') e cache) ∙ there in
      elim (Bool-cases (bytes_eq.beq (cache_key r) (cache_key r'))) [
        | inl same ↦
            let e≡ : e ≡ e' = ground (arith, found, same) in
            let r≡ = cache_key_unique r r' v v' ((bytes_eq.beq_iff _ _).0 same) in
            ap (from_db get) (sym r≡) ∙ h ∙ ap (λ (x : CacheEntry). inr (x.policy, x.result)) e≡
        | inr other ↦ c r' e' v' (ground (arith, found, other))
      ]

  resolve_cached-from_db :
      (w : Weather) (r : Request) (cache : Cache)
      → IsRequest r
      → IsCurrent cache
      → ((resolve_cached get w r cache).0 ≡ from_db get r)
        × IsCurrent (resolve_cached get w r cache).1
  resolve_cached-from_db w r cache v c = elim (resolve_cached-Outcome w r cache v c) [
    | inl e ↦ rw e (refl, c)
    | inr (x, (h, e)) ↦ rw e (refl, set-IsCurrent r x cache v h c)
  ]

  run_resolves-from_db :
      (rs : List (Weather × Request)) (cache : Cache)
      → All (λ (x : Weather × Request). IsRequest x.1) rs
      → IsCurrent cache
      → ((run_resolves get rs cache).0 ≡ map (λ (x : Weather × Request). from_db get x.1) rs)
        × IsCurrent (run_resolves get rs cache).1
  unfolding run_resolves
  run_resolves-from_db [] cache a c = (refl, c)
  run_resolves-from_db ((w, r) ∷ rs) cache (v, a) c =
      let (found, c') = resolve_cached-from_db w r cache v c in
      let (rest, c2) = run_resolves-from_db rs (resolve_cached get w r cache).1 a c' in
      (rw (found, rest) refl, c2)

abbrev pub fair : Weather
fair = record { reading = intact; set_fails = false }

fair_hit :
    (get : String → Runes → StoreError ⊎ Policy) (r : Request) (cache : Cache) (e : CacheEntry)
    → lookup (cache_key r) cache ≡ some e
    → resolve_cached get fair r cache ≡ (inr (e.policy, e.result), cache)
unfolding resolve_cached resolve get_entry set_entry
fair_hit get r cache e h = rw (resolve_cached, get_entry, h) refl

fair_miss :
    (get : String → Runes → StoreError ⊎ Policy) (r : Request) (cache : Cache)
    → lookup (cache_key r) cache ≡ none
    → resolve_cached get fair r cache ≡ (
      (read_through (from_db get r)).0,
      set_entry false (cache_key r) (read_through (from_db get r)).1 cache,
    )
unfolding resolve_cached resolve get_entry
fair_miss get r cache h = rw (resolve_cached, get_entry, h) refl

-- What the next resolve meets after one that found something new.
set_twice :
    (found : Found) (get' : String → Runes → StoreError ⊎ Policy) (r : Request) (cache : Cache)
    → lookup (cache_key r) cache ≡ none
    → (resolve_cached get' fair r (set_entry false (cache_key r) (read_through found).1 cache)).0
      ≡ elim found [ inl err ↦ from_db get' r | inr x ↦ inr x ]
unfolding read_through set_entry
set_twice (inl err) get' r cache h =
    ap (λ (x : Found × Cache). x.0) (fair_miss get' r cache h) ∙ read_through-found (from_db get' r)
set_twice (inr (p, result)) get' r cache h =
    let e : CacheEntry = record { found = is_some p; result = result; policy = p } in
    ap (λ (x : Found × Cache). x.0)
      (fair_hit get' r (insert (cache_key r) e cache) e (
        ground (
          arith,
          lookup-insert (cache_key r) (cache_key r) e cache,
          bytes_eq.beq_iff (cache_key r) (cache_key r),
        )))

-- An entry that was set is answered with, without a question to the repository.
fair_twice :
    (get get' : String → Runes → StoreError ⊎ Policy) (r : Request) (cache : Cache)
    → IsRequest r
    → IsCurrent get cache
    → (resolve_cached get' fair r (resolve_cached get fair r cache).1).0
      ≡ elim (from_db get r) [ inl err ↦ from_db get' r | inr found ↦ inr found ]
fair_twice get get' r cache v c = elim (Option-cases (lookup (cache_key r) cache)) [
  | inl absent ↦ rw (fair_miss get r cache absent) (set_twice (from_db get r) get' r cache absent)
  | inr (e, there) ↦
      rw (fair_hit get r cache e there, fair_hit get' r cache e there, c r e v there) refl
]

-- Where the repository does not change and no creator id or platform holds a bar: whatever the cache
-- loses, garbles or refuses on the way, requests from an empty cache on are answered as the repository
-- resolves them, errors included. After them, a resolve that meets no failure is answered again from
-- the cache alone, the absence of a policy too, whatever the repository holds by then; only an error
-- is not kept.
pub run_resolves_lem :
    (get get' : String → Runes → StoreError ⊎ Policy) (rs : List (Weather × Request)) (r : Request)
    → All (λ (x : Weather × Request). IsRequest x.1) rs
    → IsRequest r
    → ((run_resolves get rs []).0 ≡ map (λ (x : Weather × Request). from_db get x.1) rs)
      × ((resolve_cached get' fair r (resolve_cached get fair r (run_resolves get rs []).1).1).0
          ≡ elim (from_db get r) [ inl err ↦ from_db get' r | inr found ↦ inr found ])
run_resolves_lem get get' rs r a v =
    let (found, c) = run_resolves-from_db get rs [] a (λ x e y h. absurd (cc)) in
    (found, fair_twice get get' r (run_resolves get rs []).1 v c)
