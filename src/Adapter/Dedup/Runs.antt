-- ===== src/Adapter/Dedup/Runs.antt =====
-- Sequences of calls of Add of services/provider-adapter/internal/dedup/dedup.go.
use dabet.Prelude.Int.{ℤ}
use dabet.Adapter.Dedup.{capacity_of, new_set, add_id}
use dabet.Prelude.{Option, true}
use dabet.Prelude.{
  none, str_eq_iff, inr, inl, if◌then◌else◌, Bool-cases, str_eq, some, false, arith, ◌≡◌, ◌++◌,
  Bool, ℕ, String, List, refl, [], ◌∷◌,
}
use dabet.Prelude.Dict.{string_eq}
use dabet.Adapter.Dedup.{Set}
use dabet.Adapter.Dedup.Window.{IsWindow, recent, occurs}
use dabet.Adapter.Dedup.Adding.{new_set-IsWindow, add_id-refines}

-- The answers to a sequence of ids.
unfoldable pub run : Set → List String → Option (List Bool)
run s [] = some []
run s (id ∷ ids) = elim (add_id s id) [
  | none ↦ none
  | some (s', new) ↦ elim (run s' ids) [ none ↦ none | some rest ↦ some (new ∷ rest) ]
]

-- What they are to be: an id that is not blank is new where it is none of the last recorded.
unfoldable pub run_window : ℕ → List String → List String → List Bool
run_window capacity h [] = []
run_window capacity h (id ∷ ids) =
    if str_eq id ""
    then true ∷ run_window capacity h ids
    else if occurs id (recent capacity h)
    then false ∷ run_window capacity h ids
    else true ∷ run_window capacity (h ++ id ∷ []) ids

blank_added : (s : Set) (id : String) → str_eq id "" ≡ true → add_id s id ≡ some (s, true)
unfolding add_id
blank_added s id h = rw h refl

run-IsWindow :
    (s : Set) (h ids : List String) → IsWindow s h → run s ids ≡ some (run_window s.capacity h ids)
unfolding run run_window
run-IsWindow s h [] w = refl
run-IsWindow s h (id ∷ ids) w = elim (Bool-cases (str_eq id "")) [
  | inl blank ↦ ground (arith, blank, blank_added s id blank, run-IsWindow s h ids w)
  | inr named ↦ elim (add_id-refines s h id w (λ e. ground (arith, named, str_eq_iff id "", e))) [
    | inl (dup, added) ↦ ground (arith, named, dup, added, run-IsWindow s h ids w)
    | inr (new, s', added, kept, w') ↦
        ground (arith, named, new, added, kept, run-IsWindow s' (h ++ id ∷ []) ids w')
  ]
]

-- The set never panics, and answers as the window of the ids recorded last does, as many as its
-- capacity: any capacity and any sequence of ids.
pub run-refines :
    (capacity : ℤ) (ids : List String)
    → run (new_set capacity) ids ≡ some (run_window (capacity_of capacity) [] ids)
unfolding new_set
run-refines capacity ids = run-IsWindow (new_set capacity) [] ids (new_set-IsWindow capacity)
