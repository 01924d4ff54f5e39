-- ===== src/Adapter/Dedup/Adding.antt =====
-- Add of services/provider-adapter/internal/dedup/dedup.go: it keeps the window.
use dabet.Prelude.Int.{ℤ}
use native.Mathlib.Nat.{mod-lt}
use dabet.Adapter.Dedup.Window.{length-replicate}
use mathlib.Core.Path.{subst}
use dabet.Adapter.Dedup.{capacity_of, present, Present, new_set, add_id}
use dabet.Prelude.Dict.{
  lookup-delete, delete-DistinctKeys, insert, lookup-insert, insert-DistinctKeys,
}
use dabet.Prelude.{◌⊎◌, true, sym, ap}
use dabet.Prelude.{
  ◌||◌, not, ◌∙◌, str_eq_iff, sym, inr, inl, if◌then◌else◌, Bool-cases, ◌%◌, zero, str_eq, some,
  false, arith, ap, ◌+◌, ◌≡◌, suc, set, replicate, ◌++◌, ◌≢◌, ◌<◌, ℕ, String, List, refl, [], ◌∷◌,
}
use dabet.Prelude.Dict.{delete, string_eq, lookup, DistinctKeys}
use dabet.Adapter.Dedup.{Present, Set, is_known}
use dabet.Adapter.Dedup.{Present}
use dabet.Adapter.Dedup.Window.{
  IsWindow, slots_of, recent, occurs, DistinctIds, later, oldest, written, recent-append,
  length-set,
}

occurs-append :
    (j id : String) (xs : List String) → occurs j (xs ++ id ∷ []) ≡ (occurs j xs || str_eq id j)
occurs-append j id [] = ground arith
occurs-append j id (x ∷ xs) = ground (arith, occurs-append j id xs)

append-DistinctIds :
    (id : String) (xs : List String)
    → DistinctIds xs
    → occurs id xs ≡ false
    → DistinctIds (xs ++ id ∷ [])
append-DistinctIds id [] d h = ((λ _. refl), tt)
append-DistinctIds id (x ∷ xs) (k, d) h = (
  (λ named. ground (arith, k named, occurs-append x id xs, str_eq_iff x id, str_eq_iff id x)),
  append-DistinctIds id xs d (ground (arith, h)),
)

evicted : String → List (String × Present) → List (String × Present)
evicted old seen = if not (str_eq old "") then delete old seen else seen

evicted-DistinctKeys :
    (old : String) (m : List (String × Present)) → DistinctKeys m → DistinctKeys (evicted old m)
unfolding evicted
evicted-DistinctKeys old m d = elim (Bool-cases (str_eq old "")) [
  | inl blank ↦ rw blank d
  | inr named ↦ rw named (delete-DistinctKeys old m d)
]

known-delete :
    (k j : String) (m : List (String × Present))
    → DistinctKeys m
    → is_known (lookup j (delete k m)) ≡ (if str_eq k j then false else is_known (lookup j m))
known-delete k j m d =
    ap is_known (lookup-delete k j m d)
    ∙ elim (Bool-cases (str_eq k j)) [ inl same ↦ rw same refl | inr other ↦ rw other refl ]

evicted-known :
    (old j : String) (rest : List String) (m : List (String × Present))
    → j ≢ ""
    → DistinctKeys m
    → (old ≢ "" → occurs old rest ≡ false)
    → is_known (lookup j m) ≡ occurs j (old ∷ rest)
    → is_known (lookup j (evicted old m)) ≡ occurs j rest
unfolding evicted
evicted-known old j rest m named d once e = elim (Bool-cases (str_eq old "")) [
  | inl blank ↦ ground (arith, blank, str_eq_iff old "", str_eq_iff old j, e)
  | inr stays ↦ ground (
    arith,
    stays,
    str_eq_iff old "",
    str_eq_iff old j,
    e,
    once (λ h. absurd (ground (arith, stays, str_eq_iff old "", h))),
    known-delete old j m d,
  )
]

-- The set after an id that is new.
recorded_set : Set → String → String → Set
recorded_set s old id = record {
  capacity = s.capacity;
  seen = insert id present (evicted old s.seen);
  order = set s.order s.next id;
  next = (s.next + 1) % s.capacity;
}

recorded_set-IsWindow :
    (s : Set) (h : List String) (id old : String) (rest : List String)
    → IsWindow s h
    → id ≢ ""
    → occurs id (slots_of s) ≡ false
    → slots_of s ≡ old ∷ rest
    → slots_of (recorded_set s old id) ≡ rest ++ id ∷ []
    → IsWindow (recorded_set s old id) (h ++ id ∷ [])
unfolding recorded_set
recorded_set-IsWindow s h id old rest w named new before after =
    let some_slot : 0 < s.capacity = omega (arith, w.in_range) in
    let (once, d) = subst DistinctIds before w.distinct in
    let new_later : occurs id rest ≡ false = ground (arith, before, new) in
    record {
      slots = length-set s.next s.order id ∙ w.slots;
      in_range = mod-lt (s.next + 1) some_slot;
      window =
          after ∙ sym (recent-append s.capacity h id old rest some_slot (sym w.window ∙ before));
      known = λ j j_named.
          ap is_known (lookup-insert id j present (evicted old s.seen))
          ∙ known_after j j_named
          ∙ ap (occurs j) (sym after);
      distinct = subst DistinctIds (sym after) (append-DistinctIds id rest d new_later);
      distinct_keys =
          insert-DistinctKeys id present (evicted old s.seen)
            (evicted-DistinctKeys old s.seen w.distinct_keys);
    }
  where
    known_after :
        (j : String)
        → j ≢ ""
        → is_known (if str_eq id j then some present else lookup j (evicted old s.seen))
          ≡ occurs j (rest ++ id ∷ [])
    known_after j j_named = ground (
      arith,
      occurs-append j id rest,
      evicted-known old j rest s.seen j_named w.distinct_keys
          (subst DistinctIds before w.distinct).0 (w.known j j_named ∙ ap (occurs j) before),
    )

occurs-blank : (n : ℕ) (j : String) → j ≢ "" → occurs j (replicate n "" ++ []) ≡ false
occurs-blank zero j h = refl
occurs-blank (suc n) j h = ground (arith, str_eq_iff "" j, occurs-blank n j h)

DistinctIds-blank : (n : ℕ) → DistinctIds (replicate n "" ++ [])
DistinctIds-blank zero = tt
DistinctIds-blank (suc n) = ((λ h. absurd (h refl)), DistinctIds-blank n)

blank-IsWindow :
    (n : ℕ)
    → 0 < n
    → IsWindow (record { capacity = n; seen = []; order = replicate n ""; next = 0 }) []
blank-IsWindow n h = record {
  slots = length-replicate n "";
  in_range = h;
  window = refl;
  known = λ j named. sym (occurs-blank n j named);
  distinct = DistinctIds-blank n;
  distinct_keys = tt;
}

pub new_set-IsWindow : (capacity : ℤ) → IsWindow (new_set capacity) []
unfolding new_set
new_set-IsWindow capacity = blank-IsWindow (capacity_of capacity) (ground arith)

-- What Add answers, and what it leaves.
pub add_id-refines :
    (s : Set) (h : List String) (id : String)
    → IsWindow s h
    → id ≢ ""
    → ((occurs id (recent s.capacity h) ≡ true) × (add_id s id ≡ some (s, false)))
      ⊎ ((occurs id (recent s.capacity h) ≡ false)
          × (s' : Set) × (add_id s id ≡ some (s', true))
          × (s'.capacity ≡ s.capacity)
          × IsWindow s' (h ++ id ∷ []))
unfolding add_id recorded_set evicted
add_id-refines s h id w named =
    let fresh : str_eq id "" ≡ false = ground (arith, str_eq_iff id "") in
    elim (Bool-cases (occurs id (slots_of s))) [
      | inl dup ↦ inl (ap (occurs id) (sym w.window) ∙ dup, rw (fresh, w.known id named, dup) refl)
      | inr new ↦
          let (old, at, before) = oldest s id w.slots w.in_range in
          inr (
            ap (occurs id) (sym w.window) ∙ new,
            recorded_set s old id,
            rw (fresh, w.known id named, new, at) refl,
            refl,
            recorded_set-IsWindow s h id old (later s id w.slots w.in_range) w named new before
                (written s id w.slots w.in_range),
          )
    ]
