-- ===== src/Policy/Store.antt =====
-- services/policy-service/internal/store/memstore/memstore.go: the repository in memory, which mirrors
-- the Postgres one. Its copies are values here, and the counts of calls are left out.
pub mod Lookups
use dabet.Prelude.{
  ◌&&◌, str_eq, inr, if◌then◌else◌, ℕ, inl, Option, Bool, some, none, Runes, ◌⊎◌, String, List, [],
  ◌∷◌,
}
use dabet.Prelude.Dict.{string_eq, lookup, insert, delete}
use dabet.Policy.Validate.{Document, runes_eq}

pub record Policy : Type 0 where
  pub id : String
  pub creator_id : Runes
  pub scope : String
  pub scope_id : Runes
  pub document : Document
  pub created_at : ℕ
  pub updated_at : ℕ

abbrev pub Mem : Type 0
Mem = List (String × Policy)

-- `unavailable` is any other error of a database.
pub data StoreError : Type 0 where
  not_found : StoreError
  duplicate : StoreError
  unavailable : StoreError

abbrev pub is_at : String → Runes → Policy → Bool
is_at scope scope_id p = str_eq p.scope scope && runes_eq p.scope_id scope_id

-- The loop over the policies.
abbrev pub find_scope : String → Runes → Mem → Option Policy
find_scope scope scope_id [] = none
find_scope scope scope_id ((id, p) ∷ m) =
    if is_at scope scope_id p then some p else find_scope scope scope_id m

unfoldable pub create : Mem → Policy → StoreError ⊎ Mem
create m p = elim (find_scope p.scope p.scope_id m) [
  | some existing ↦ inl duplicate
  | none ↦ inr (insert p.id p m)
]

unfoldable pub get_by_id : Mem → String → StoreError ⊎ Policy
get_by_id m id = elim (lookup id m) [ none ↦ inl not_found | some p ↦ inr p ]

unfoldable pub get_by_scope : Mem → String → Runes → StoreError ⊎ Policy
get_by_scope m scope scope_id = elim (find_scope scope scope_id m) [
  | none ↦ inl not_found
  | some p ↦ inr p
]

unfoldable pub update : Mem → Policy → StoreError ⊎ Mem
update m p = elim (lookup p.id m) [
  | none ↦ inl not_found
  | some existing ↦ inr (
      insert p.id
        (record p {
          creator_id = existing.creator_id;
          scope = existing.scope;
          scope_id = existing.scope_id;
          created_at = existing.created_at;
        })
        m)
]

unfoldable pub remove : Mem → String → StoreError ⊎ Mem
remove m id = elim (lookup id m) [ none ↦ inl not_found | some p ↦ inr (delete id m) ]
