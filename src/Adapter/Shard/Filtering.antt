-- ===== src/Adapter/Shard/Filtering.antt =====
-- What a poll of the filter moves and counts.
use dabet.Adapter.Ring.{Ring, new_ring}
use dabet.Adapter.Ring.Bytes.{bytes_order, bytes_eq}
use dabet.Adapter.Shard.{
  Connection, Membership, Assignment, Filter, assign, same_list, ids_of, members_held, new_filter,
  rebuild, assignment,
}
use dabet.Prelude.Int.{ℤ}
use dabet.Prelude.Sort.{mem}
use dabet.Prelude.{
  In-all, In, All-mono, All, ℕ, ◌≡◌, refl, sym, ap, ◌∙◌, Bool, true, not, List, [], ◌∷◌, count,
  arith, Bool-cases, inl, inr,
}

same_list_refl : (xs : List (List ℕ)) → same_list xs xs ≡ true
same_list_refl [] = refl
same_list_refl (x ∷ xs) = ground (arith, (bytes_eq.beq_iff x x).1 refl, same_list_refl xs)

same_list→≡ : (xs ys : List (List ℕ)) → same_list xs ys ≡ true → xs ≡ ys
same_list→≡ [] [] h = refl
same_list→≡ [] (y ∷ ys) h = absurd (cc)
same_list→≡ (x ∷ xs) [] h = absurd (cc)
same_list→≡ (x ∷ xs) (y ∷ ys) h = ground (arith, (bytes_eq.beq_iff x y).0, same_list→≡ xs ys)

mem-ids_of : (c : Connection) (cs : List Connection) → In c cs → mem c.id (ids_of cs) ≡ true
mem-ids_of c [] p = elim p [ ]
mem-ids_of c (d ∷ cs) (inl e) = rw e (ground (arith, (bytes_eq.beq_iff d.id d.id).1 refl))
mem-ids_of c (d ∷ cs) (inr p) = ground (arith, mem-ids_of c cs p)

count_none :
    (t : Connection → Bool) (cs : List Connection)
    → All (λ c. t c ≡ true) cs
    → count (λ c. not (t c)) cs ≡ 0
count_none t [] a = refl
count_none t (c ∷ cs) (h, a) = ground (arith, count_none t cs a)

-- No connection is fresh among those whose ids are known.
none_fresh : (cs : List Connection) → count (λ c. not (mem c.id (ids_of cs))) cs ≡ 0
none_fresh cs =
    count_none (λ c. mem c.id (ids_of cs)) cs
      (All-mono (λ c. In c cs) (λ c. mem c.id (ids_of cs) ≡ true) cs (λ c p. mem-ids_of c cs p)
        (In-all cs))

-- The ring is that of the members.
pub record IsSynced (sum256 : List ℕ → List ℕ) (f : Filter) : Type 0 where
  pub on_ring : f.ring ≡ new_ring sum256 f.replicas f.ring_members

module _ (sum256 : List ℕ → List ℕ) where
  pub new_filter-IsSynced :
      (replicas limit : ℤ) → IsSynced sum256 (new_filter sum256 replicas limit)
  unfolding new_filter
  new_filter-IsSynced replicas limit = record { on_ring = refl }

  pub assignment-IsSynced :
      (f : Filter) (view : Membership) (conns : List Connection)
      → IsSynced sum256 f
      → IsSynced sum256 (assignment sum256 f view conns).0
  unfolding assignment rebuild
  assignment-IsSynced f view conns w = record { on_ring = ground (arith, w.on_ring) }

  rebuild_ring :
      (f : Filter) (members : List (List ℕ))
      → IsSynced sum256 f
      → (rebuild sum256 f members).ring ≡ new_ring sum256 f.replicas members
  unfolding rebuild
  rebuild_ring f members w = elim (Bool-cases (same_list members f.ring_members)) [
    | inl same_members ↦ rw same_members (
        w.on_ring
        ∙ ap (new_ring sum256 f.replicas) (sym (same_list→≡ members f.ring_members same_members)))
    | inr other ↦ rw other refl
  ]

  -- An instance that its view leaves out serves the assignment of the ring that it had, and every
  -- other one that of the members of its view.
  pub assignment_lem :
      (f : Filter) (view : Membership) (conns : List Connection)
      → IsSynced sum256 f
      → (assignment sum256 f view conns).1
        ≡ record (assign sum256
            (new_ring sum256 f.replicas (members_held f view))
            view.self
            conns
            f.limit) { epoch = view.epoch }
  unfolding assignment rebuild
  assignment_lem f view conns w =
      ap (λ (r : Ring). record (assign sum256 r view.self conns f.limit) { epoch = view.epoch })
        (rebuild_ring f (members_held f view) w)

  rebuild_members :
      (f : Filter) (members : List (List ℕ)) → (rebuild sum256 f members).ring_members ≡ members
  unfolding rebuild
  rebuild_members f members = ground (arith, same_list→≡ members f.ring_members)

  rebuild_same : (f : Filter) → rebuild sum256 f f.ring_members ≡ f
  unfolding rebuild
  rebuild_same f = rw (rebuild, same_list_refl f.ring_members) refl

  rebuild_limit :
      (f : Filter) (members : List (List ℕ)) → (rebuild sum256 f members).limit ≡ f.limit
  unfolding rebuild
  rebuild_limit f members = ground arith

  -- The next poll of the same view holds the same members.
  members_held_again :
      (f : Filter) (view : Membership) (conns : List Connection)
      → members_held (assignment sum256 f view conns).0 view ≡ members_held f view
  unfolding assignment
  members_held_again f view conns =
      ground (arith, rebuild_members f (members_held f view), rebuild_same f)

  rebuild_again :
      (f : Filter) (view : Membership) (conns : List Connection)
      → rebuild sum256
          (assignment sum256 f view conns).0
          (members_held (assignment sum256 f view conns).0 view)
        ≡ (assignment sum256 f view conns).0
  unfolding assignment
  rebuild_again f view conns =
      let f' = (assignment sum256 f view conns).0 in
      ap (rebuild sum256 f')
        (members_held_again f view conns ∙ sym (rebuild_members f (members_held f view)))
      ∙ rebuild_same f'

  -- The assignment that a filter with a ring gives.
  abbrev given : Membership → List Connection → ℤ → Filter → Assignment
  given view conns limit g = record (assign sum256 g.ring view.self conns limit) {
    epoch = view.epoch;
  }

  -- A poll that finds the same view and the same connections again gives the same assignment, builds
  -- no ring and counts no connection as refused.
  pub assignment-assignment :
      (f : Filter) (view : Membership) (conns : List Connection)
      → ((assignment sum256 (assignment sum256 f view conns).0 view conns).1
          ≡ (assignment sum256 f view conns).1)
        × ((assignment sum256 (assignment sum256 f view conns).0 view conns).0.rebalances
            ≡ (assignment sum256 f view conns).0.rebalances)
        × ((assignment sum256 (assignment sum256 f view conns).0 view conns).0.refused_total
            ≡ (assignment sum256 f view conns).0.refused_total)
  unfolding assignment
  assignment-assignment f view conns =
      let f' = (assignment sum256 f view conns).0 in
      let a = (assignment sum256 f view conns).1 in
      let again : (assignment sum256 f' view conns).1 ≡ a =
        ap (given view conns f'.limit) (rebuild_again f view conns)
        ∙ ap (λ (l : ℤ). given view conns l f') (rebuild_limit f (members_held f view)) in
      (
        again,
        ap (λ (g : Filter). g.rebalances) (rebuild_again f view conns),
        omega (
          arith,
          ap (λ (b : Assignment). count (λ c. not (mem c.id (ids_of a.refused))) b.refused) again,
          none_fresh a.refused,
        ),
      )
