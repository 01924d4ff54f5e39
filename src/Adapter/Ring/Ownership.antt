-- ===== src/Adapter/Ring/Ownership.antt =====
-- Who owns a key in a ring of services/provider-adapter/internal/shard/ring.go.
use dabet.Adapter.Ring.Members.{members-new_ring, mem-uniq_of}
use dabet.Adapter.Ring.Lookup.{owner_of, owner-new_ring, pick, at_or_after}
use dabet.Prelude.Int.{negsuc, pos, ℤ}
use mathlib.Core.Path.{subst}
use mathlib.Core.Option.{some-injective}
use dabet.Adapter.Ring.Bytes.{append_int}
use dabet.Prelude.Sort.{sort_in, mem, sort, sort-All}
use dabet.Prelude.{
  ◌++◌, ap, ◌∙◌, inr, leb, inl, Option-cases, Bool-cases, some, arith, zero, All-mono, ◌≢◌,
  All-append, ◌+◌, true, suc, ◌≡◌, All, ℕ, List, refl, [], ◌∷◌,
}
use dabet.Adapter.Ring.Bytes.{bytes_order}
use dabet.Adapter.Ring.{
  is_named, hash64, uniq_of, replicas_of, has, new_ring, owner, points_of, nodes_from, point_order,
  Point,
}

nodes_from-owner :
    (sum256 : List ℕ → List ℕ) (m : List ℕ) (i n : ℕ)
    → All (λ p. p.owner ≡ m) (nodes_from sum256 m i n)
unfolding nodes_from
nodes_from-owner sum256 m i zero = tt
nodes_from-owner sum256 m i (suc n) = (refl, nodes_from-owner sum256 m (i + 1) n)

points_of-owner :
    (sum256 : List ℕ → List ℕ) (n : ℕ) (u : List (List ℕ))
    → All (λ p. mem p.owner u ≡ true) (points_of sum256 n u)
unfolding points_of
points_of-owner sum256 n [] = tt
points_of-owner sum256 n (m ∷ u) =
    All-append _ (nodes_from sum256 m 0 n) (points_of sum256 n u)
      (All-mono _ _ (nodes_from sum256 m 0 n) (λ p e. ground (arith, e, bytes_order.lt_asym m m))
        (nodes_from-owner sum256 m 0 n))
      (All-mono _ _ (points_of sum256 n u) (λ p h. ground arith) (points_of-owner sum256 n u))

at_or_after-All :
    (P : Point → Type 0) (ps : List Point) (h : ℕ) (p : Point)
    → All P ps
    → at_or_after ps h ≡ some p
    → P p
at_or_after-All P [] h p a e = absurd (cc)
at_or_after-All P (x ∷ ps) h p (k, a) e = elim (Bool-cases (leb h x.hash)) [
  | inl at ↦ subst P (some-injective x p (rw at at e)) k
  | inr below ↦ at_or_after-All P ps h p a (rw below at e)
]

pick-All :
    (P : Point → Type 0) (p : Point) (ps : List Point) (h : ℕ)
    → All P (p ∷ ps)
    → (q : Point) × (pick (p ∷ ps) h ≡ some q) × P q
pick-All P p ps h (k, a) = elim (Option-cases (at_or_after (p ∷ ps) h)) [
  | inl nothing ↦ (p, ground (arith, nothing), k)
  | inr (q, found) ↦ (q, ground (arith, found), at_or_after-All P (p ∷ ps) h q (k, a) found)
]

sort_in-inhabited :
    (a : Point) (l : List Point) → (p : Point) × (ps : List Point) × (sort_in a l ≡ p ∷ ps)
sort_in-inhabited a [] = (a, [], refl)
sort_in-inhabited a (b ∷ bs) = elim (Bool-cases (point_order.lt b a)) [
  | inl below ↦ (b, sort_in a bs, rw below refl)
  | inr above ↦ (a, b ∷ bs, rw above refl)
]

points_of-inhabited :
    (sum256 : List ℕ → List ℕ) (n : ℕ) (m : List ℕ) (u : List (List ℕ))
    → mem m u ≡ true
    → (p : Point) × (ps : List Point) × (sort (points_of sum256 (suc n) u) ≡ p ∷ ps)
unfolding points_of nodes_from
points_of-inhabited sum256 n m [] h = absurd (cc)
points_of-inhabited sum256 n m (a ∷ u) h =
    sort_in-inhabited (record { hash = hash64 sum256 (append_int (a ++ 0 ∷ []) 0); owner = a })
      (sort (nodes_from sum256 a 1 n ++ points_of sum256 (suc n) u))

replicas_of-suc : (replicas : ℤ) → (n : ℕ) × (replicas_of replicas ≡ suc n)
replicas_of-suc (pos zero) = (159, refl)
replicas_of-suc (pos (suc n)) = (n, ground arith)
replicas_of-suc (negsuc n) = (159, ground arith)

named_lem : (m : List ℕ) → m ≢ [] → is_named m ≡ true
named_lem [] named = absurd (named refl)
named_lem (b ∷ m) named = ground arith

-- A ring that was given a member whose name is not empty: each key has an owner, and it is a member.
pub owner-IsMember :
    (sum256 : List ℕ → List ℕ) (replicas : ℤ) (ms : List (List ℕ)) (m key : List ℕ)
    → mem m ms ≡ true
    → m ≢ []
    → (o : List ℕ) × (owner sum256 (new_ring sum256 replicas ms) key ≡ some o)
      × (has (new_ring sum256 replicas ms) o ≡ true)
      × (mem o ms ≡ true)
unfolding has
owner-IsMember sum256 replicas ms m key h named =
    let n = replicas_of replicas in
    let u = uniq_of ms in
    let (k, n≡) = replicas_of-suc replicas in
    let listed : mem m u ≡ true = mem-uniq_of m ms ∙ rw (named_lem m named) h in
    let (p, ps, points≡) = points_of-inhabited sum256 k m u listed in
    let sorted≡ : sort (points_of sum256 n u) ≡ p ∷ ps =
      ap (λ i. sort (points_of sum256 i u)) n≡ ∙ points≡ in
    let (q, picked, own) =
      pick-All (λ p. mem p.owner u ≡ true) p ps (hash64 sum256 key)
        (subst (All (λ p. mem p.owner u ≡ true)) sorted≡
          (sort-All _ (points_of sum256 n u) (points_of-owner sum256 n u))) in
    (
      q.owner,
      owner-new_ring sum256 replicas ms key
          ∙ ap (λ l. owner_of (pick l (hash64 sum256 key))) sorted≡
          ∙ ap owner_of picked,
      rw (members-new_ring sum256 replicas ms) own,
      ground (arith, own, mem-uniq_of q.owner ms),
    )
