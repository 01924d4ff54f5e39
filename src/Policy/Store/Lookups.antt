-- ===== src/Policy/Store/Lookups.antt =====
-- What the lookups of memstore.go of services/policy-service/internal/store find after a change.
use dabet.Policy.Validate.Words.{runes_eq_iff}
use mathlib.Core.Path.{subst}
use dabet.Prelude.{
  ◌∙◌, sym, Option-cases, refl, inr, ap, inl, str_eq, Bool-cases, str_eq_iff, if◌then◌else◌, false,
  some, arith, true, none, Runes, ◌≡◌, String, [], ◌∷◌,
}
use dabet.Prelude.Dict.{string_eq, lookup, insert, delete}
use dabet.Policy.Store.{Mem, Policy, is_at, find_scope, create}

-- No two policies stand at one scope.
abbrev pub UniqueScopes : Mem → Type 0
UniqueScopes [] = Unit
UniqueScopes ((id, p) ∷ m) = (find_scope p.scope p.scope_id m ≡ none) × UniqueScopes m

pub is_at-own : (p : Policy) → is_at p.scope p.scope_id p ≡ true
is_at-own p = ground (arith, str_eq_iff p.scope p.scope, runes_eq_iff p.scope_id p.scope_id)

is_at-same :
    (scope : String) (scope_id : Runes) (p : Policy)
    → is_at scope scope_id p ≡ true
    → (p.scope ≡ scope) × (p.scope_id ≡ scope_id)
is_at-same scope scope_id p h =
    ground (arith, h, str_eq_iff p.scope scope, runes_eq_iff p.scope_id scope_id)

find-insert :
    (p : Policy) (m : Mem)
    → find_scope p.scope p.scope_id m ≡ none
    → find_scope p.scope p.scope_id (insert p.id p m) ≡ some p
find-insert p [] h = ground (arith, is_at-own p)
find-insert p ((j, q) ∷ m) h = ground (arith, is_at-own p, find-insert p m)

-- A policy that is held is found at its scope, or another one is.
lookup-is_at :
    (id scope : String) (scope_id : Runes) (p : Policy) (m : Mem)
    → lookup id m ≡ some p
    → find_scope scope scope_id m ≡ none
    → is_at scope scope_id p ≡ false
lookup-is_at id scope scope_id p [] h k = absurd (cc)
lookup-is_at id scope scope_id p ((j, q) ∷ m) h k = elim (Bool-cases (str_eq j id)) [
  | inl here ↦
      let same : q ≡ p = ground (arith, here, h) in
      ground (arith, k, ap (is_at scope scope_id) same)
  | inr later ↦ lookup-is_at id scope scope_id p m (rw later at h) (ground (arith, k))
]

once-is_at :
    (scope : String) (scope_id : Runes) (q : Policy) (m : Mem)
    → find_scope q.scope q.scope_id m ≡ none
    → is_at scope scope_id q ≡ true
    → find_scope scope scope_id m ≡ none
once-is_at scope scope_id q m once h =
    let (a, b) = is_at-same scope scope_id q h in
    ap (λ s. find_scope s scope_id m) (sym a) ∙ ap (λ i. find_scope q.scope i m) (sym b) ∙ once

-- Removing a policy removes it from its scope, and from no other.
pub find-delete :
    (id scope : String) (scope_id : Runes) (p : Policy) (m : Mem)
    → UniqueScopes m
    → lookup id m ≡ some p
    → find_scope scope scope_id (delete id m)
      ≡ (if is_at scope scope_id p then none else find_scope scope scope_id m)
find-delete id scope scope_id p [] u h = absurd (cc)
find-delete id scope scope_id p ((j, q) ∷ m) (once, u) h = elim (Bool-cases (str_eq j id)) [
  | inl here ↦
      let same : q ≡ p = ground (arith, here, h) in
      ap (λ l. find_scope scope scope_id l) (ap (λ t. if t then m else (j, q) ∷ delete id m) here)
      ∙ elim (Bool-cases (is_at scope scope_id q)) [
        | inl at ↦
            once-is_at scope scope_id q m once at
            ∙ sym (
                ap (λ t. if t then none else find_scope scope scope_id ((j, q) ∷ m))
                  (sym (ap (is_at scope scope_id) same) ∙ at))
        | inr off ↦ sym (
            ap (λ t. if t then none else find_scope scope scope_id ((j, q) ∷ m))
              (sym (ap (is_at scope scope_id) same) ∙ off)
            ∙ ap (λ t. if t then some q else find_scope scope scope_id m) off)
      ]
  | inr later ↦
      let there : lookup id m ≡ some p = rw later at h in
      ap (λ l. find_scope scope scope_id l) (ap (λ t. if t then m else (j, q) ∷ delete id m) later)
      ∙ elim (Bool-cases (is_at scope scope_id q)) [
        | inl at ↦
            let gone =
              lookup-is_at id scope scope_id p m there (once-is_at scope scope_id q m once at) in
            rw (at, gone) refl
        | inr off ↦ rw off (find-delete id scope scope_id p m u there)
      ]
]

find-insert-none :
    (scope : String) (scope_id : Runes) (id : String) (p : Policy) (m : Mem)
    → find_scope scope scope_id m ≡ none
    → is_at scope scope_id p ≡ false
    → find_scope scope scope_id (insert id p m) ≡ none
find-insert-none scope scope_id id p [] h k = rw k refl
find-insert-none scope scope_id id p ((j, q) ∷ m) h k =
    ground (arith, k, h, find-insert-none scope scope_id id p m)

is_at-sym : (p q : Policy) → is_at p.scope p.scope_id q ≡ false → is_at q.scope q.scope_id p ≡ false
is_at-sym p q h = elim (Bool-cases (is_at q.scope q.scope_id p)) [
  | inr off ↦ off
  | inl at ↦
      let (a, b) = is_at-same q.scope q.scope_id p at in
      absurd (
        ground
          (arith, h, is_at-own q, ap (λ s. is_at s p.scope_id q) a, ap (λ i. is_at q.scope i q) b))
]

insert-UniqueScopes :
    (p : Policy) (m : Mem)
    → UniqueScopes m
    → find_scope p.scope p.scope_id m ≡ none
    → UniqueScopes (insert p.id p m)
insert-UniqueScopes p [] u h = (refl, tt)
insert-UniqueScopes p ((j, q) ∷ m) (once, u) h =
    let off : is_at p.scope p.scope_id q ≡ false = ground (arith, h) in
    let rest : find_scope p.scope p.scope_id m ≡ none = ground (arith, h) in
    elim (Bool-cases (str_eq j p.id)) [
      | inl here ↦ rw here (rest, u)
      | inr later ↦ rw later (
        find-insert-none q.scope q.scope_id p.id p m once (is_at-sym p q off),
        insert-UniqueScopes p m u rest,
      )
    ]

-- Creating a policy keeps the scopes unique.
pub create-UniqueScopes :
    (m m' : Mem) (p : Policy) → UniqueScopes m → create m p ≡ inr m' → UniqueScopes m'
unfolding create
create-UniqueScopes m m' p u h = elim (Option-cases (find_scope p.scope p.scope_id m)) [
  | inl free ↦
      let same : insert p.id p m ≡ m' = ground (arith, free, h) in
      subst UniqueScopes same (insert-UniqueScopes p m u free)
  | inr (q, taken) ↦ absurd (ground (arith, taken, h))
]

-- The policy that was created is the one at its scope.
pub create-find :
    (m m' : Mem) (p : Policy) → create m p ≡ inr m' → find_scope p.scope p.scope_id m' ≡ some p
unfolding create
create-find m m' p h = elim (Option-cases (find_scope p.scope p.scope_id m)) [
  | inl free ↦
      let same : insert p.id p m ≡ m' = ground (arith, free, h) in
      ap (find_scope p.scope p.scope_id) (sym same) ∙ find-insert p m free
  | inr (q, taken) ↦ absurd (ground (arith, taken, h))
]
