-- ===== src/Examples/Rings.antt =====
-- A ring of two instances, a window of two ids, and a delay.
use dabet.Adapter.Shard.Coordinator.{
  reports_hold, membership, set_connected, set_members, link, synced, report, reports, Report,
  Coordinator,
}
use dabet.Adapter.Shard.Filtering.{assignment-assignment}
use dabet.Adapter.Shard.Shares.{share_unique, share, assigned}
use dabet.Adapter.Shard.{
  is_evicted, sort_by_id, new_filter, cut, assignment, assign, Membership, Filter, Connection,
}
use dabet.Prelude.{
  ◌<◌, ◌==◌, inl, ◌↔◌, length, In, ◌≤◌, ◌/◌, ◌++◌, ◌⊎◌, take, false, arith, ℕ, true, some, ◌≡◌,
  List, refl, [], ◌∷◌,
}
use dabet.Prelude.Int.{pos}
use dabet.Prelude.Sort.{mem}
use dabet.Adapter.Ring.Bytes.{append_int, digits_on, bytes_order}
use dabet.Adapter.Ring.{hash64, nodes_from, points_of, uniq_of, owns, new_ring, owner}
use dabet.Adapter.Ring.Members.{without}
use dabet.Adapter.Ring.Disruption.{owner-without}
use dabet.Adapter.Retry.{Backoff, default_backoff}
use dabet.Adapter.Dedup.{new_set, capacity_of}
use dabet.Adapter.Dedup.Runs.{run, run_window, run-refines}

-- A function in the place of SHA-256.
abbrev some_hash : List ℕ → List ℕ
some_hash b = take 8 (b ++ b ++ b ++ b)

abbrev a : List ℕ
a = 97 ∷ []

abbrev b : List ℕ
b = 98 ∷ []

abbrev key : List ℕ
key = 99 ∷ 116 ∷ []

-- "a" and "b" in either order, one of them twice.
same_members : (m : List ℕ) → mem m (a ∷ b ∷ a ∷ []) ≡ mem m (b ∷ a ∷ [])
same_members m = ground arith

owner-without_example :
    (owner some_hash (new_ring some_hash (pos 2) (a ∷ b ∷ [])) key ≡ some b)
    ⊎ (owner some_hash (new_ring some_hash (pos 2) (a ∷ b ∷ [])) key
        ≡ owner some_hash (new_ring some_hash (pos 2) (without b (a ∷ b ∷ []))) key)
owner-without_example = owner-without some_hash (pos 2) (a ∷ b ∷ []) b key

run-refines_example :
    run (new_set (pos 2)) ("x" ∷ "y" ∷ "x" ∷ "z" ∷ "x" ∷ [])
    ≡ some (run_window (capacity_of (pos 2)) [] ("x" ∷ "y" ∷ "x" ∷ "z" ∷ "x" ∷ []))
run-refines_example = run-refines (pos 2) ("x" ∷ "y" ∷ "x" ∷ "z" ∷ "x" ∷ [])

-- The third is a repetition; the fifth is none, since "x" has left the window.
forgets :
    run_window 2 [] ("x" ∷ "y" ∷ "x" ∷ "z" ∷ "x" ∷ []) ≡ true ∷ true ∷ false ∷ true ∷ true ∷ []
unfolding run_window
forgets = refl

abbrev half : ℕ → ℕ
half d = d / 2

half_le : (d : ℕ) → half d ≤ d
half_le d = omega arith

-- The third delay of the default, with a jitter of a half.
abbrev third : Backoff
third = record default_backoff { attempt = 2 }

abbrev connection : List ℕ → Connection
connection id = record {
  id = id;
  creator_id = "u";
  platform = "twitch";
  native_user_id = "n";
  access_token = "s";
}

abbrev connections : List Connection
connections = connection key ∷ connection (98 ∷ 98 ∷ []) ∷ connection (97 ∷ []) ∷ []

share_unique_example :
    (o : List ℕ) × (mem o (a ∷ b ∷ []) ≡ true)
    × In (connection key) (share some_hash (pos 2) (a ∷ b ∷ []) (pos 1) o connections)
    × (In (connection key) (share some_hash (pos 2) (a ∷ b ∷ []) (pos 1) b connections) ↔ (o ≡ b))
share_unique_example =
    share_unique some_hash (pos 2) (a ∷ b ∷ []) (pos 1) a b (connection key) connections refl
      (λ e. ground (arith, e)) refl (λ e. ground (arith, e)) (inl refl)

-- A view of two instances, and one that leaves this instance out.
abbrev view_of : List (List ℕ) → Membership
view_of members = record { self = b; members = members; epoch = 1; connected = true }

abbrev filter_of_two : Filter
filter_of_two =
    (assignment some_hash (new_filter some_hash (pos 2) (pos 1)) (view_of (a ∷ b ∷ []))
      connections).0

assignment-assignment_example :
    ((assignment some_hash
        (assignment some_hash filter_of_two (view_of (a ∷ [])) connections).0
        (view_of (a ∷ []))
        connections).1
      ≡ (assignment some_hash filter_of_two (view_of (a ∷ [])) connections).1)
    × ((assignment some_hash
          (assignment some_hash filter_of_two (view_of (a ∷ [])) connections).0
          (view_of (a ∷ []))
          connections).0.rebalances
        ≡ (assignment some_hash filter_of_two (view_of (a ∷ [])) connections).0.rebalances)
    × ((assignment some_hash
          (assignment some_hash filter_of_two (view_of (a ∷ [])) connections).0
          (view_of (a ∷ []))
          connections).0.refused_total
        ≡ (assignment some_hash filter_of_two (view_of (a ∷ [])) connections).0.refused_total)
assignment-assignment_example =
    assignment-assignment some_hash filter_of_two (view_of (a ∷ [])) connections

-- An instance alone has every connection in its share, and watches the first by id.
first_watched :
    (assigned some_hash (pos 2) (b ∷ []) (pos 1) b connections).owned ≡ connection (97 ∷ []) ∷ []
unfolding assign cut sort_by_id owns owner new_ring uniq_of points_of nodes_from hash64 append_int
    digits_on
first_watched = refl

abbrev coordinator : Coordinator
coordinator = record { self = b; members = []; epoch = 0; connected = false }

-- A view of two, an outage, and a view that leaves this instance out.
abbrev reported : List Report
reported = synced (a ∷ b ∷ []) ∷ link false ∷ synced (a ∷ []) ∷ []

reports_hold_example :
    ((((reports coordinator reported).members ≡ []) × ((reports coordinator reported).epoch ≡ 0))
      ⊎ (((length (reports coordinator reported).members == 0) ≡ false)
          × (0 < (reports coordinator reported).epoch)))
    × (is_evicted filter_of_two (membership (reports coordinator reported)) ≡ false)
reports_hold_example = reports_hold coordinator reported filter_of_two (record { holds = refl })

kept_view : (reports coordinator reported).members ≡ a ∷ b ∷ []
unfolding reports report set_members set_connected
kept_view = refl
