-- ===== src/Adapter/Shard/Shares.antt =====
-- The shares of the instances of a fleet: a connection is in the share of its owner, watched or
-- refused, and in no other.
use mathlib.Core.List.{append-nil}
use dabet.Adapter.Ring.{owner, owns, has, new_ring, is_named}
use dabet.Adapter.Ring.{uniq_of}
use dabet.Adapter.Ring.Bytes.{bytes_eq, bytes_order, bytes_lt}
use dabet.Adapter.Ring.Members.{members-new_ring, mem-uniq_of}
use dabet.Adapter.Ring.Ownership.{owner-IsMember}
use dabet.Adapter.Shard.{Connection, Assignment, place_by_id, sort_by_id, cut, assign}
use dabet.Prelude.Int.{pos_part, pos, ltb_ℤ, ℤ}
use dabet.Prelude.Sort.{mem}
use dabet.Prelude.{
  ◌⊎◌, ℕ, zero, suc, ◌≤◌, ◌≡◌, ◌≢◌, ◌↔◌, refl, ap, ◌∙◌, Bool, true, false, ◌&&◌, ◌==◌, some, List,
  [], ◌∷◌, ◌++◌, length, take, drop, keep, arith, In, In-keep, Bool-cases, inl, inr,
}

take-drop : (n : ℕ) (cs : List Connection) → take n cs ++ drop n cs ≡ cs
take-drop zero cs = refl
take-drop (suc n) [] = refl
take-drop (suc n) (c ∷ cs) = ap (λ l. c ∷ l) (take-drop n cs)

length-take : (n : ℕ) (cs : List Connection) → length (take n cs) ≤ n
length-take zero cs = omega arith
length-take (suc n) [] = omega arith
length-take (suc n) (c ∷ cs) = omega (arith, length-take n cs)

length-take_all : (n : ℕ) (cs : List Connection) → n ≤ length cs → length (take n cs) ≡ n
length-take_all zero cs h = refl
length-take_all (suc n) [] h = absurd (omega arith)
length-take_all (suc n) (c ∷ cs) h = ap suc (length-take_all n cs (omega arith))

In-place_by_id : (x c : Connection) (cs : List Connection) → In x (place_by_id c cs) ↔ In x (c ∷ cs)
In-place_by_id x c [] = (λ p. p, λ p. p)
In-place_by_id x c (d ∷ ds) = elim (Bool-cases (bytes_lt d.id c.id)) [
  | inl later ↦ rw later (
    λ p. elim p [
      | inl e ↦ inr (inl e)
      | inr q ↦ elim ((In-place_by_id x c ds).0 q) [ inl e ↦ inl e | inr r ↦ inr (inr r) ]
    ],
    λ p. elim p [
      | inl e ↦ inr ((In-place_by_id x c ds).1 (inl e))
      | inr q ↦ elim q [ inl e ↦ inl e | inr r ↦ inr ((In-place_by_id x c ds).1 (inr r)) ]
    ],
  )
  | inr here ↦ rw here (λ p. p, λ p. p)
]

In-sort_by_id : (x : Connection) (cs : List Connection) → In x (sort_by_id cs) ↔ In x cs
unfolding sort_by_id
In-sort_by_id x [] = (λ p. p, λ p. p)
In-sort_by_id x (c ∷ cs) = (
  λ p. elim ((In-place_by_id x c (sort_by_id cs)).0 p) [
    | inl e ↦ inl e
    | inr q ↦ inr ((In-sort_by_id x cs).0 q)
  ],
  λ p.
      (In-place_by_id x c (sort_by_id cs)).1
        (elim p [ inl e ↦ inl e | inr q ↦ inr ((In-sort_by_id x cs).1 q) ]),
)

-- The cut loses nothing, keeps the first ones, and never more than the limit.
cut_lem :
    (limit : ℤ) (mine : List Connection)
    → ((cut limit mine).0 ++ (cut limit mine).1 ≡ mine)
      × (ltb_ℤ (pos 0) limit ≡ true → length (cut limit mine).0 ≤ pos_part limit)
      × (ltb_ℤ (pos 0) limit ≡ false → (cut limit mine).1 ≡ [])
unfolding cut
cut_lem limit mine = (
  ground (arith, take-drop (pos_part limit) mine, append-nil mine),
  λ h. ground (arith, length-take (pos_part limit) mine),
  λ h. ground arith,
)

length-ne_zero : (self : List ℕ) → self ≢ [] → (length self == 0) ≡ false
length-ne_zero [] named = absurd (named refl)
length-ne_zero (b ∷ self) named = ground arith

mem-length : (m : List ℕ) (ms : List (List ℕ)) → mem m ms ≡ true → (length ms == 0) ≡ false
mem-length m [] h = absurd (cc)
mem-length m (x ∷ ms) h = ground arith

is_named_ne :
    (o : List ℕ) (u v : List (List ℕ)) (b : Bool)
    → v ≡ u
    → mem o u ≡ (is_named o && b)
    → mem o v ≡ true
    → o ≢ []
is_named_ne o u v b e f h empty = ground (arith, e, f, h, empty)

module _ (sum256 : List ℕ → List ℕ) (replicas : ℤ) (ms : List (List ℕ)) (limit : ℤ) where
  abbrev pub assigned : List ℕ → List Connection → Assignment
  assigned self conns = assign sum256 (new_ring sum256 replicas ms) self conns limit

  -- What the instance watches and what it refuses.
  abbrev pub share : List ℕ → List Connection → List Connection
  share self conns = (assigned self conns).owned ++ (assigned self conns).refused

  abbrev owned_by : List ℕ → Connection → Bool
  owned_by self c = owns sum256 (new_ring sum256 replicas ms) self c.id

  inhabited :
      (self : List ℕ)
      → mem self ms ≡ true
      → self ≢ []
      → ((length (new_ring sum256 replicas ms).members == 0) ≡ false) × ((length self == 0) ≡ false)
  inhabited self member named =
      let here = length-ne_zero self named in
      (
        rw (members-new_ring sum256 replicas ms)
            (mem-length self (uniq_of ms) (mem-uniq_of self ms ∙ ground (arith, here))),
        here,
      )

  share_lem :
      (self : List ℕ) (conns : List Connection)
      → mem self ms ≡ true
      → self ≢ []
      → share self conns ≡ sort_by_id (keep (owned_by self) conns)
  unfolding assign
  share_lem self conns member named =
      let (there, here) = inhabited self member named in
      ground (arith, there, here, (cut_lem limit (sort_by_id (keep (owned_by self) conns))).0)

  owns_iff :
      (self key o : List ℕ)
      → owner sum256 (new_ring sum256 replicas ms) key ≡ some o
      → (owns sum256 (new_ring sum256 replicas ms) self key ≡ true) ↔ (o ≡ self)
  unfolding owns
  owns_iff self key o h = rw (owns, h) (bytes_eq.beq_iff o self)

  In-share :
      (self o : List ℕ) (c : Connection) (conns : List Connection)
      → mem self ms ≡ true
      → self ≢ []
      → owner sum256 (new_ring sum256 replicas ms) c.id ≡ some o
      → In c conns
      → In c (share self conns) ↔ (o ≡ self)
  In-share self o c conns member named own there =
      let kept = In-keep (owned_by self) c conns in
      let sorted = In-sort_by_id c (keep (owned_by self) conns) in
      let owning = owns_iff self c.id o own in
      rw (share_lem self conns member named)
        (λ p. owning.0 (kept.0 (sorted.0 p)).1, λ e. sorted.1 (kept.1 (there, owning.1 e)))

  -- Where the fleet has an instance with a name, each connection is in the share of an instance of
  -- the fleet, watched or refused, and another instance of the fleet that has a name has it in its
  -- share exactly where it is the same one.
  pub share_unique :
      (m self : List ℕ) (c : Connection) (conns : List Connection)
      → mem m ms ≡ true
      → m ≢ []
      → mem self ms ≡ true
      → self ≢ []
      → In c conns
      → (o : List ℕ) × (mem o ms ≡ true)
        × In c (share o conns)
        × (In c (share self conns) ↔ (o ≡ self))
  unfolding has
  share_unique m self c conns member named member' named' there =
      let (o, own, listed, belongs) = owner-IsMember sum256 replicas ms m c.id member named in
      let o_named : o ≢ [] =
        is_named_ne o (uniq_of ms) (new_ring sum256 replicas ms).members (mem o ms)
          (members-new_ring sum256 replicas ms) (mem-uniq_of o ms) listed in
      (
        o,
        belongs,
        (In-share o o c conns belongs o_named own there).1 refl,
        In-share self o c conns member' named' own there,
      )

  -- Under a positive limit an instance watches at most that many connections, and refuses one only
  -- where it watches that many.
  pub assigned_bounds :
      (self : List ℕ) (conns : List Connection)
      → ltb_ℤ (pos 0) limit ≡ true
      → (length (assigned self conns).owned ≤ pos_part limit)
        × (((assigned self conns).refused ≡ [])
            ⊎ (length (assigned self conns).owned ≡ pos_part limit))
  unfolding assign cut
  assigned_bounds self conns h =
      let mine = sort_by_id (keep (owned_by self) conns) in
      ground (arith, length-take (pos_part limit) mine, length-take_all (pos_part limit) mine)
