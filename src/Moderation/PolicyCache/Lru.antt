-- ===== src/Moderation/PolicyCache/Lru.antt =====
-- The bound of the cache in policycache.go, its distinct keys, and the life of an entry.
use dabet.Prelude.Dict.{delete-AllEntries, lookup, delete, DistinctKeys, AllEntries}
use dabet.Moderation.Pipeline.State.{CachedPolicy}
use mathlib.Core.Path.{subst}
use dabet.Prelude.Dict.{string_eq}
use dabet.Prelude.{
  ◌-◌, refl, str_eq_iff, none, [], zero, ltb, Bool-cases, ◌∷◌, ◌∷◌, some, inr, if◌then◌else◌, false,
  ◌≡◌, suc, str_eq, inl, arith, ◌+◌, ◌≤◌, take, length, Option-cases, List, ℕ, String,
}
use dabet.Moderation.PolicyCache.{PolicyEntry, store, find, PolicyCache}

pub record IsBounded (c : PolicyCache) : Type 0 where
  pub few : length c.entries ≤ c.max_size
  pub one_each : DistinctKeys c.entries

length-delete : (k : String) (m : List (String × PolicyEntry)) → length (delete k m) ≤ length m
length-delete k [] = omega arith
length-delete k ((j, v) ∷ m) = ground (arith, length-delete k m)

length-delete_found :
    (k : String) (m : List (String × PolicyEntry)) (e : PolicyEntry)
    → lookup k m ≡ some e
    → length (delete k m) + 1 ≡ length m
length-delete_found k [] e h = absurd (ground arith)
length-delete_found k ((j, v) ∷ m) e h = ground (arith, length-delete_found k m e)

length-take {ℓ} : {A : Type ℓ} (n : ℕ) (xs : List A) → length (take n xs) ≤ n
length-take zero xs = omega arith
length-take (suc n) [] = omega arith
length-take (suc n) (x ∷ xs) = omega (arith, length-take n xs)

take-first {ℓ} :
    {A : Type ℓ} (n : ℕ) (x : A) (xs : List A) → 1 ≤ n → take n (x ∷ xs) ≡ x ∷ take (n - 1) xs
take-first zero x xs h = absurd (omega arith)
take-first (suc n) x xs h = rw (sub_one n) refl
  where
    sub_one : (k : ℕ) → suc k - 1 ≡ k
    sub_one k = omega arith

delete-absent :
    (k : String) (m : List (String × PolicyEntry))
    → DistinctKeys m
    → AllEntries (λ j _. str_eq k j ≡ false) (delete k m)
delete-absent k [] d = tt
delete-absent k ((j, v) ∷ m) (a, d) = elim (Bool-cases (str_eq j k)) [
  | inl same ↦
      rw same (subst (λ i. AllEntries (λ l _. str_eq i l ≡ false) m) ((str_eq_iff j k).0 same) a)
  | inr other ↦ rw other (ground (arith, str_eq_iff k j, str_eq_iff j k), delete-absent k m d)
]

delete-DistinctKeys :
    (k : String) (m : List (String × PolicyEntry)) → DistinctKeys m → DistinctKeys (delete k m)
delete-DistinctKeys k [] d = tt
delete-DistinctKeys k ((j, v) ∷ m) (a, d) = elim (Bool-cases (str_eq j k)) [
  | inl same ↦ rw same d
  | inr other ↦
      rw other (delete-AllEntries (λ l _. str_eq j l ≡ false) k m a, delete-DistinctKeys k m d)
]

take-AllEntries :
    (P : String → PolicyEntry → Type 0) (n : ℕ) (m : List (String × PolicyEntry))
    → AllEntries P m
    → AllEntries P (take n m)
take-AllEntries P zero m a = tt
take-AllEntries P (suc n) [] a = tt
take-AllEntries P (suc n) ((j, v) ∷ m) (h, a) = (h, take-AllEntries P n m a)

take-DistinctKeys :
    (n : ℕ) (m : List (String × PolicyEntry)) → DistinctKeys m → DistinctKeys (take n m)
take-DistinctKeys zero m d = tt
take-DistinctKeys (suc n) [] d = tt
take-DistinctKeys (suc n) ((j, v) ∷ m) (a, d) =
    (take-AllEntries (λ l _. str_eq j l ≡ false) n m a, take-DistinctKeys n m d)

-- `find` keeps a cache within its bound and its keys distinct, on a hit, on a miss and on an expired
-- entry.
pub find-IsBounded :
    (c : PolicyCache) (key : String) (now : ℕ) → IsBounded c → IsBounded (find c key now).0
unfolding find
find-IsBounded c key now b = elim (Option-cases (lookup key c.entries)) [
  | inl absent ↦ rw (find, absent) b
  | inr (e, found) ↦ elim (Bool-cases (ltb now e.expires)) [
    | inl fresh ↦
        rw (find, found, fresh)
          (record {
            few = omega (arith, length-delete_found key c.entries e found, b.few);
            one_each = (
              delete-absent key c.entries b.one_each,
              delete-DistinctKeys key c.entries b.one_each,
            );
          })
    | inr stale ↦
        rw (find, found, stale)
          (record {
            few = omega (arith, length-delete key c.entries, b.few);
            one_each = delete-DistinctKeys key c.entries b.one_each;
          })
  ]
]

-- Where the keys are distinct, `store` leaves at most `max_size` entries, and keeps them distinct.
pub store-IsBounded :
    (c : PolicyCache) (key : String) (val : CachedPolicy) (now : ℕ)
    → DistinctKeys c.entries
    → IsBounded (store c key val now)
unfolding store
store-IsBounded c key val now d =
    let e : PolicyEntry = record { val = val; expires = now + c.ttl } in
    record {
      few = length-take c.max_size ((key, e) ∷ delete key c.entries);
      one_each =
          take-DistinctKeys c.max_size ((key, e) ∷ delete key c.entries)
            (delete-absent key c.entries d, delete-DistinctKeys key c.entries d);
    }

-- In a cache that has room for an entry, what is stored is found by the next lookup of its key, until
-- its time is over and not after it.
pub find-store :
    (c : PolicyCache) (key : String) (val : CachedPolicy) (now later : ℕ)
    → 1 ≤ c.max_size
    → (find (store c key val now) key later).1
      ≡ (if ltb later (now + c.ttl) then some val else none)
unfolding find store
find-store c key val now later h =
    let e : PolicyEntry = record { val = val; expires = now + c.ttl } in
    ground
      (arith, (str_eq_iff key key).1 refl, take-first c.max_size (key, e) (delete key c.entries))
