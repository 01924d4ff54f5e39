-- ===== src/Adapter/Ring/Disruption.antt =====
-- The ring of services/provider-adapter/internal/shard/ring.go when the membership changes.
use dabet.Prelude.{
  Bool-cases, sym, ◌⊎◌, ◌∙◌, inr, inl, ap, Option-cases, zero, ◌+◌, suc, true, keep-append, [], ◌∷◌,
  some, if◌then◌else◌, arith, ◌≡◌, not, none, keep, ℕ, List, Bool, refl,
}
use dabet.Adapter.Ring.{
  replicas_of, Point, point_order, new_ring, owner, uniq_of, points_of, nodes_from, hash64,
}
use dabet.Adapter.Ring.Bytes.{bytes_order}
use dabet.Prelude.Int.{ℤ}
use dabet.Prelude.Sort.{sort, same, keep-sort, same→≡}
use dabet.Adapter.Ring.Members.{uniq_of-without, without, not_of}
use dabet.Adapter.Ring.Lookup.{owner_of, pick, first, at_or_after, owner-new_ring}

nodes_from-keep :
    (sum256 : List ℕ → List ℕ) (x m : List ℕ) (i n : ℕ)
    → keep (not_of x) (nodes_from sum256 m i n) ≡ (if same m x then [] else nodes_from sum256 m i n)
unfolding nodes_from
nodes_from-keep sum256 x m i zero = ground arith
nodes_from-keep sum256 x m i (suc n) = ground (arith, nodes_from-keep sum256 x m (i + 1) n)

points_of-without :
    (sum256 : List ℕ → List ℕ) (x : List ℕ) (n : ℕ) (ms : List (List ℕ))
    → points_of sum256 n (without x ms) ≡ keep (not_of x) (points_of sum256 n ms)
unfolding points_of
points_of-without sum256 x n [] = refl
points_of-without sum256 x n (m ∷ ms) = ground (
  arith,
  keep-append (not_of x) (nodes_from sum256 m 0 n) (points_of sum256 n ms),
  nodes_from-keep sum256 x m 0 n,
  points_of-without sum256 x n ms,
)

at_or_after-keep :
    (q : Point → Bool) (ps : List Point) (h : ℕ) (p : Point)
    → at_or_after ps h ≡ some p
    → q p ≡ true
    → at_or_after (keep q ps) h ≡ some p
at_or_after-keep q [] h p e k = absurd (cc)
at_or_after-keep q (x ∷ ps) h p e k = ground (arith, at_or_after-keep q ps h p)

none_after-keep :
    (q : Point → Bool) (ps : List Point) (h : ℕ)
    → at_or_after ps h ≡ none
    → at_or_after (keep q ps) h ≡ none
none_after-keep q [] h e = refl
none_after-keep q (x ∷ ps) h e = ground (arith, none_after-keep q ps h)

first-keep :
    (q : Point → Bool) (ps : List Point) (p : Point)
    → first ps ≡ some p
    → q p ≡ true
    → first (keep q ps) ≡ some p
first-keep q [] p e k = absurd (cc)
first-keep q (x ∷ ps) p e k = ground arith

pick-keep :
    (q : Point → Bool) (ps : List Point) (h : ℕ) (p : Point)
    → pick ps h ≡ some p
    → q p ≡ true
    → pick (keep q ps) h ≡ some p
pick-keep q ps h p e k = elim (Option-cases (at_or_after ps h)) [
  | inl nothing ↦ ground (arith, nothing, none_after-keep q ps h nothing, first-keep q ps p)
  | inr (x, found) ↦ ground (arith, found, at_or_after-keep q ps h x found)
]

pick-none :
    (q : Point → Bool) (ps : List Point) (h : ℕ) → pick ps h ≡ none → pick (keep q ps) h ≡ none
pick-none q [] h e = refl
pick-none q (p ∷ ps) h e = absurd (ground (arith, e))

sorted-without :
    (sum256 : List ℕ → List ℕ) (n : ℕ) (x : List ℕ) (ms : List (List ℕ))
    → sort (points_of sum256 n (uniq_of (without x ms)))
      ≡ keep (not_of x) (sort (points_of sum256 n (uniq_of ms)))
sorted-without sum256 n x ms =
    ap (λ u. sort (points_of sum256 n u)) (uniq_of-without x ms)
    ∙ ap sort (points_of-without sum256 x n (uniq_of ms))
    ∙ sym (keep-sort (not_of x) (points_of sum256 n (uniq_of ms)))

-- Minimal disruption: when a member leaves, or comes back, every key keeps its owner but those that
-- this member owns.
pub owner-without :
    (sum256 : List ℕ → List ℕ) (replicas : ℤ) (ms : List (List ℕ)) (x key : List ℕ)
    → (owner sum256 (new_ring sum256 replicas ms) key ≡ some x)
      ⊎ (owner sum256 (new_ring sum256 replicas ms) key
          ≡ owner sum256 (new_ring sum256 replicas (without x ms)) key)
owner-without sum256 replicas ms x key =
    let ps = sort (points_of sum256 (replicas_of replicas) (uniq_of ms)) in
    let h = hash64 sum256 key in
    let before = owner-new_ring sum256 replicas ms key in
    let after =
      owner-new_ring sum256 replicas (without x ms) key
      ∙ ap (λ qs. owner_of (pick qs h)) (sorted-without sum256 (replicas_of replicas) x ms) in
    elim (Option-cases (pick ps h)) [
      | inl nothing ↦
          inr (before ∙ ap owner_of (nothing ∙ sym (pick-none (not_of x) ps h nothing)) ∙ sym after)
      | inr (p, found) ↦ elim (Bool-cases (same p.owner x)) [
        | inl gone ↦ inl (before ∙ ap owner_of found ∙ ap some (same→≡ p.owner x gone))
        | inr stays ↦ inr (
            before
            ∙ ap owner_of (found ∙ sym (pick-keep (not_of x) ps h p found (ap not stays)))
            ∙ sym after)
      ]
    ]
