-- ===== src/Adapter/Ring.antt =====
-- services/provider-adapter/internal/shard/ring.go: the consistent-hash ring. A Go string is the list
-- of its bytes; crypto/sha256 is a parameter.
pub mod Bytes
pub mod Members
pub mod Lookup
pub mod Disruption
pub mod Ownership
use dabet.Prelude.Int.{pos_part, pos, ltb_ℤ, ℤ}
use dabet.Prelude.{
  ◌||◌, true, ◌≡◌, map, zero, some, ltb, get_elem?, length, leb, false, ◌==◌, ◌+◌, take, suc, not,
  none, keep, if◌then◌else◌, Option, ◌++◌, ◌*◌, ℕ, arith, List, Bool, ◌∷◌, [],
}
use dabet.Prelude.Sort.{compact, same, sort, mem, Order}
use dabet.Adapter.Ring.Bytes.{append_int, bytes_order}

abbrev pub default_replicas : ℕ
default_replicas = 160

pub record Point : Type 0 where
  pub hash : ℕ
  pub owner : List ℕ

-- The order of the points: by hash, then by owner.
abbrev pub point_lt : Point → Point → Bool
point_lt p q = if not (p.hash == q.hash) then ltb p.hash q.hash else bytes_order.lt p.owner q.owner

pub point_lt-asym : (p q : Point) → point_lt p q ≡ true → point_lt q p ≡ false
point_lt-asym p q h = ground (arith, bytes_order.lt_asym p.owner q.owner)

pub point_lt-cotrans : (p q r : Point) → point_lt p r ≡ true → (point_lt p q || point_lt q r) ≡ true
point_lt-cotrans p q r h = ground (arith, bytes_order.lt_cotrans p.owner q.owner r.owner)

pub point_lt-total : (p q : Point) → point_lt p q ≡ false → point_lt q p ≡ false → p ≡ q
point_lt-total p q h k = ground (arith, bytes_order.lt_total p.owner q.owner)

instance abbrev pub point_order : Order Point
point_order = record {
  lt = point_lt;
  lt_asym = point_lt-asym;
  lt_cotrans = point_lt-cotrans;
  lt_total = point_lt-total;
}

-- The two slices are parallel.
pub record Ring : Type 0 where
  pub members : List (List ℕ)
  pub replicas : ℕ
  pub hashes : List ℕ
  pub owners : List (List ℕ)

-- The big-endian number of some bytes.
abbrev pub big_endian : ℕ → List ℕ → ℕ
big_endian acc [] = acc
big_endian acc (b ∷ bs) = big_endian (acc * 256 + b) bs

abbrev pub is_named : List ℕ → Bool
is_named m = not (length m == 0)

unfoldable pub uniq_of : List (List ℕ) → List (List ℕ)
uniq_of members = keep is_named (compact (sort members))

-- sort.Search: the smallest index of a hash that is h or more, or the length.
abbrev pub search : List ℕ → ℕ → ℕ
search [] h = 0
search (x ∷ xs) h = if leb h x then 0 else suc (search xs h)

unfoldable pub hash64 : (List ℕ → List ℕ) → List ℕ → ℕ
hash64 sum256 b = big_endian 0 (take 8 (sum256 b))

unfoldable pub owner : (List ℕ → List ℕ) → Ring → List ℕ → Option (List ℕ)
owner sum256 r key =
    if length r.hashes == 0
    then none
    else let i = search r.hashes (hash64 sum256 key) in
      get_elem? r.owners (if i == length r.hashes then 0 else i)

unfoldable pub owns : (List ℕ → List ℕ) → Ring → List ℕ → List ℕ → Bool
owns sum256 r self key = elim (owner sum256 r key) [ none ↦ false | some o ↦ same o self ]

-- slices.BinarySearch on the sorted members.
unfoldable pub has : Ring → List ℕ → Bool
has r self = mem self r.members

abbrev pub replicas_of : ℤ → ℕ
replicas_of replicas = if not (ltb_ℤ (pos 0) replicas) then default_replicas else pos_part replicas

module _ (sum256 : List ℕ → List ℕ) where
  -- The virtual nodes of a member from the i-th on.
  unfoldable pub nodes_from : List ℕ → ℕ → ℕ → List Point
  nodes_from m i zero = []
  nodes_from m i (suc n) =
      record { hash = hash64 sum256 (append_int (m ++ 0 ∷ []) i); owner = m }
      ∷ nodes_from m (i + 1) n

  unfoldable pub points_of : ℕ → List (List ℕ) → List Point
  points_of replicas [] = []
  points_of replicas (m ∷ ms) = nodes_from m 0 replicas ++ points_of replicas ms

  unfoldable pub new_ring : ℤ → List (List ℕ) → Ring
  new_ring replicas members =
      let n = replicas_of replicas in
      let uniq = uniq_of members in
      if length uniq == 0
      then record { members = uniq; replicas = n; hashes = []; owners = [] }
      else let points = sort (points_of n uniq) in
        record {
          members = uniq;
          replicas = n;
          hashes = map (λ (p : Point). p.hash) points;
          owners = map (λ (p : Point). p.owner) points;
        }
