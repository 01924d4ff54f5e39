-- ===== src/Adapter/Dedup.antt =====
-- services/provider-adapter/internal/dedup/dedup.go: the set of the ids seen last, as a ring of slots
-- and a map.
pub mod Window
pub mod Adding
pub mod Runs
use dabet.Prelude.{
  ◌%◌, ◌+◌, set, none, get_elem?, true, str_eq, some, not, false, length, if◌then◌else◌, List, Bool,
  ℕ, replicate, String, Option, [],
}
use dabet.Prelude.Int.{ℤ, pos, pos_part, ltb_ℤ}
use dabet.Prelude.Dict.{string_eq, lookup, insert, delete}

abbrev pub default_capacity : ℕ
default_capacity = 2048

-- Go's struct{}, and the map of a set.
pub data Present : Type 0 where
  present : Present

pub record Set : Type 0 where
  pub capacity : ℕ
  pub seen : List (String × Present)
  pub order : List String
  pub next : ℕ

abbrev pub capacity_of : ℤ → ℕ
capacity_of capacity = if not (ltb_ℤ (pos 0) capacity) then default_capacity else pos_part capacity

unfoldable pub new_set : ℤ → Set
new_set capacity =
    let n = capacity_of capacity in
    record { capacity = n; seen = []; order = replicate n ""; next = 0 }

-- An index out of range panics: none.
abbrev pub evict : Option String → List (String × Present) → Option (List (String × Present))
evict none seen = none
evict (some old) seen = some (if not (str_eq old "") then delete old seen else seen)

abbrev pub is_known : Option Present → Bool
is_known none = false
is_known (some u) = true

unfoldable pub add_id : Set → String → Option (Set × Bool)
add_id s id =
    if str_eq id ""
    then some (s, true)
    else if is_known (lookup id s.seen)
    then some (s, false)
    else elim (evict (get_elem? s.order s.next) s.seen) [
      | none ↦ none
      | some seen ↦ some (
        record {
          capacity = s.capacity;
          seen = insert id present seen;
          order = set s.order s.next id;
          next = (s.next + 1) % s.capacity;
        },
        true,
      )
    ]

unfoldable pub len : Set → ℕ
len s = length s.seen
