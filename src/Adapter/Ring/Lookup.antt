-- ===== src/Adapter/Ring/Lookup.antt =====
-- The lookup of services/provider-adapter/internal/shard/ring.go, on the points that the two slices
-- of a ring stand for.
use dabet.Prelude.{
  ◌==◌, ◌∙◌, inr, get_elem?, inl, ap, ◌<◌, map, length, Option-cases, suc, leb, [], ◌∷◌, some,
  if◌then◌else◌, arith, ◌≡◌, none, ℕ, Option, List, refl,
}
use dabet.Adapter.Ring.{
  replicas_of, Ring, Point, point_order, new_ring, owner, uniq_of, points_of, hash64, search,
}
use dabet.Adapter.Ring.Bytes.{bytes_order}
use dabet.Prelude.Int.{ℤ}
use dabet.Prelude.Sort.{sort}

-- The first point at h or after it.
abbrev pub at_or_after : List Point → ℕ → Option Point
at_or_after [] h = none
at_or_after (p ∷ ps) h = if leb h p.hash then some p else at_or_after ps h

abbrev pub first : List Point → Option Point
first [] = none
first (p ∷ ps) = some p

abbrev pub pick : List Point → ℕ → Option Point
pick ps h = elim (at_or_after ps h) [ none ↦ first ps | some p ↦ some p ]

abbrev pub owner_of : Option Point → Option (List ℕ)
owner_of none = none
owner_of (some p) = some p.owner

search-none :
    (ps : List Point) (h : ℕ)
    → at_or_after ps h ≡ none
    → search (map (λ p. p.hash) ps) h ≡ length ps
search-none [] h e = refl
search-none (p ∷ ps) h e = ground (arith, search-none ps h)

search-some :
    (ps : List Point) (h : ℕ) (p : Point)
    → at_or_after ps h ≡ some p
    → (search (map (λ p. p.hash) ps) h < length ps)
      × (get_elem? (map (λ p. p.owner) ps) (search (map (λ p. p.hash) ps) h) ≡ some p.owner)
search-some [] h p e = absurd (cc)
search-some (x ∷ ps) h p e = ground (arith, search-some ps h p)

length-map {ℓ κ} :
    {A : Type ℓ} {B : Type κ} (f : A → B) (xs : List A) → length (map f xs) ≡ length xs
length-map f [] = refl
length-map f (x ∷ xs) = ap suc (length-map f xs)

module _ (sum256 : List ℕ → List ℕ) where
  ring_of : List (List ℕ) → ℕ → List Point → Ring
  ring_of members n ps = record {
    members = members;
    replicas = n;
    hashes = map (λ (p : Point). p.hash) ps;
    owners = map (λ (p : Point). p.owner) ps;
  }

  owner-ring_of :
      (members : List (List ℕ)) (n : ℕ) (ps : List Point) (key : List ℕ)
      → owner sum256 (ring_of members n ps) key ≡ owner_of (pick ps (hash64 sum256 key))
  unfolding owner ring_of
  owner-ring_of members n [] key = refl
  owner-ring_of members n (p ∷ ps) key =
      elim (Option-cases (at_or_after (p ∷ ps) (hash64 sum256 key))) [
        | inl nothing ↦ ground (
          arith,
          nothing,
          search-none (p ∷ ps) (hash64 sum256 key) nothing,
          length-map (λ (p : Point). p.hash) ps,
        )
        | inr (x, found) ↦ ground (
          arith,
          found,
          search-some (p ∷ ps) (hash64 sum256 key) x found,
          length-map (λ (p : Point). p.hash) ps,
        )
      ]

  no_points :
      (n : ℕ) (u : List (List ℕ))
      → (if length u == 0
          then record { members = u; replicas = n; hashes = []; owners = [] }
          else ring_of u n (sort (points_of sum256 n u)))
        ≡ ring_of u n (sort (points_of sum256 n u))
  unfolding ring_of points_of
  no_points n [] = refl
  no_points n (m ∷ u) = ground arith

  points-new_ring :
      (replicas : ℤ) (ms : List (List ℕ))
      → new_ring sum256 replicas ms
        ≡ ring_of
            (uniq_of ms)
            (replicas_of replicas)
            (sort (points_of sum256 (replicas_of replicas) (uniq_of ms)))
  unfolding new_ring ring_of
  points-new_ring replicas ms = no_points (replicas_of replicas) (uniq_of ms)

  pub owner-new_ring :
      (replicas : ℤ) (ms : List (List ℕ)) (key : List ℕ)
      → owner sum256 (new_ring sum256 replicas ms) key
        ≡ owner_of
            (pick (sort (points_of sum256 (replicas_of replicas) (uniq_of ms))) (hash64 sum256 key))
  owner-new_ring replicas ms key =
      ap (λ r. owner sum256 r key) (points-new_ring replicas ms)
      ∙ owner-ring_of (uniq_of ms) (replicas_of replicas)
          (sort (points_of sum256 (replicas_of replicas) (uniq_of ms))) key
