-- ===== src/Adapter/Shard.antt =====
-- services/provider-adapter/internal/shard/shard.go and filter.go: the share of the connections that
-- an instance watches. sort.Slice does not say in which order it leaves connections of one id; they
-- keep the order that they came in. Signals, locks and log lines are left out.
use dabet.Prelude.Int.{pos_part, pos, ltb_ℤ, ℤ}
use dabet.Prelude.Sort.{mem, same}
use dabet.Adapter.Ring.{Ring, new_ring, owns, has}
use dabet.Adapter.Ring.Bytes.{bytes_order, bytes_lt}
use dabet.Prelude.{
  ℕ, ◌+◌, Bool, true, false, not, ◌&&◌, ◌||◌, ◌==◌, ltb, if◌then◌else◌, String, List, [], ◌∷◌,
  length, take, drop, keep, count, map,
}
pub mod Shares
pub mod Filtering
pub mod Coordinator

-- driver.Connection.
pub record Connection : Type 0 where
  pub id : List ℕ
  pub creator_id : String
  pub platform : String
  pub native_user_id : String
  pub access_token : String

pub record Membership : Type 0 where
  pub self : List ℕ
  pub members : List (List ℕ)
  pub epoch : ℕ
  pub connected : Bool

pub record Assignment : Type 0 where
  pub owned : List Connection
  pub refused : List Connection
  pub members : List (List ℕ)
  pub epoch : ℕ

abbrev pub place_by_id : Connection → List Connection → List Connection
place_by_id c [] = c ∷ []
place_by_id c (d ∷ ds) = if bytes_lt d.id c.id then d ∷ place_by_id c ds else c ∷ d ∷ ds

unfoldable pub sort_by_id : List Connection → List Connection
sort_by_id [] = []
sort_by_id (c ∷ cs) = place_by_id c (sort_by_id cs)

-- A limit that is not positive is none.
unfoldable pub cut : ℤ → List Connection → List Connection × List Connection
cut limit mine =
    if ltb_ℤ (pos 0) limit && ltb (pos_part limit) (length mine)
    then (take (pos_part limit) mine, drop (pos_part limit) mine)
    else (mine, [])

module _ (sum256 : List ℕ → List ℕ) where
  unfoldable pub assign : Ring → List ℕ → List Connection → ℤ → Assignment
  assign ring self conns limit =
      if length ring.members == 0 || length self == 0
      then record { owned = []; refused = []; members = ring.members; epoch = 0 }
      else let (owned, refused) =
          cut limit (sort_by_id (keep (λ c. owns sum256 ring self c.id) conns)) in
        record { owned = owned; refused = refused; members = ring.members; epoch = 0 }

-- The ids that were refused, and the counts of rebalances and of connections that were refused.
pub record Filter : Type 0 where
  pub replicas : ℤ
  pub limit : ℤ
  pub ring : Ring
  pub ring_members : List (List ℕ)
  pub warned_empty : Bool
  pub warned_evicted : Bool
  pub refused : List (List ℕ)
  pub rebalances : ℕ
  pub refused_total : ℕ

abbrev pub same_list : List (List ℕ) → List (List ℕ) → Bool
same_list [] [] = true
same_list (x ∷ xs) (y ∷ ys) = same x y && same_list xs ys
same_list xs ys = false

abbrev pub ids_of : List Connection → List (List ℕ)
ids_of [] = []
ids_of (c ∷ cs) = c.id ∷ ids_of cs

-- A view without this instance, which has an assignment to hold on to.
abbrev pub is_evicted : Filter → Membership → Bool
is_evicted f view =
    not (length view.members == 0) && not (mem view.self view.members) && has f.ring view.self

abbrev pub members_held : Filter → Membership → List (List ℕ)
members_held f view = if is_evicted f view then f.ring_members else view.members

module _ (sum256 : List ℕ → List ℕ) where
  unfoldable pub new_filter : ℤ → ℤ → Filter
  new_filter replicas limit = record {
    replicas = replicas;
    limit = limit;
    ring = new_ring sum256 replicas [];
    ring_members = [];
    warned_empty = false;
    warned_evicted = false;
    refused = [];
    rebalances = 0;
    refused_total = 0;
  }

  -- The ring is built again where the members have changed.
  unfoldable pub rebuild : Filter → List (List ℕ) → Filter
  rebuild f members = if same_list members f.ring_members then f else record f {
    ring = new_ring sum256 f.replicas members;
    ring_members = members;
    rebalances = f.rebalances + 1;
  }

  unfoldable pub assignment : Filter → Membership → List Connection → Filter × Assignment
  assignment f view conns =
      let members = members_held f view in
      let f1 = rebuild f members in
      let a = record (assign sum256 f1.ring view.self conns f.limit) { epoch = view.epoch } in
      let fresh = count (λ c. not (mem c.id f.refused)) a.refused in
      (
        record f1 {
          warned_evicted =
              if is_evicted f view
              then true
              else if not (length members == 0)
              then false
              else f.warned_evicted;
          warned_empty = length members == 0;
          refused = ids_of a.refused;
          refused_total = f.refused_total + fresh;
        },
        a,
      )
