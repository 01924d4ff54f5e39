-- ===== src/Adapter/Shard/Coordinator.antt =====
-- services/provider-adapter/internal/shard/kafka.go: the view of the fleet that the coordinator
-- holds. What the balancer and the client report is a list of events; signals and gauges are left
-- out.
use dabet.Adapter.Ring.Bytes.{bytes_order}
use dabet.Adapter.Shard.{Membership, Filter, same_list, is_evicted}
use dabet.Prelude.Sort.{mem}
use dabet.Prelude.{
  ℕ, ◌+◌, ◌<◌, ◌≡◌, ◌⊎◌, refl, Bool, true, false, not, ◌||◌, ◌==◌, if◌then◌else◌, List, [], ◌∷◌,
  length, arith, inl,
}

pub record Coordinator : Type 0 where
  pub self : List ℕ
  pub members : List (List ℕ)
  pub epoch : ℕ
  pub connected : Bool

unfoldable pub membership : Coordinator → Membership
membership c = record {
  self = c.self;
  members = c.members;
  epoch = c.epoch;
  connected = c.connected;
}

-- A view that is empty or leaves this instance out is ignored.
unfoldable pub set_members : Coordinator → List (List ℕ) → Coordinator
set_members c members =
    if length members == 0 || not (mem c.self members)
    then c
    else if not (same_list members c.members)
    then record c { members = members; epoch = c.epoch + 1; connected = true }
    else record c { connected = true }

unfoldable pub set_connected : Coordinator → Bool → Coordinator
set_connected c up = record c { connected = up }

pub data Report : Type 0 where
  synced : List (List ℕ) → Report
  link : Bool → Report

unfoldable pub report : Coordinator → Report → Coordinator
report c (synced members) = set_members c members
report c (link up) = set_connected c up

unfoldable pub reports : Coordinator → List Report → Coordinator
reports c [] = c
reports c (r ∷ rs) = reports (report c r) rs

-- The view that is held is the first, empty one, or has this instance in it.
pub record IsHeld (c : Coordinator) : Type 0 where
  pub holds : (length c.members == 0 || mem c.self c.members) ≡ true

report-IsHeld : (c : Coordinator) (r : Report) → IsHeld c → IsHeld (report c r)
unfolding report set_members set_connected
report-IsHeld c (synced members) h = record { holds = ground (arith, h.holds) }
report-IsHeld c (link up) h = record { holds = h.holds }

pub reports-IsHeld : (c : Coordinator) (rs : List Report) → IsHeld c → IsHeld (reports c rs)
unfolding reports
reports-IsHeld c [] h = h
reports-IsHeld c (r ∷ rs) h = reports-IsHeld (report c r) rs (report-IsHeld c r h)

-- One report: the epoch grows exactly with the members, and the members are never cleared.
report_step :
    (c : Coordinator) (r : Report)
    → (((report c r).members ≡ c.members) × ((report c r).epoch ≡ c.epoch))
      ⊎ (((length (report c r).members == 0) ≡ false) × ((report c r).epoch ≡ c.epoch + 1))
unfolding report set_members set_connected
report_step c (synced members) = ground arith
report_step c (link up) = inl (refl, refl)

reports_step :
    (c : Coordinator) (rs : List Report)
    → (((reports c rs).members ≡ c.members) × ((reports c rs).epoch ≡ c.epoch))
      ⊎ (((length (reports c rs).members == 0) ≡ false) × (c.epoch < (reports c rs).epoch))
unfolding reports
reports_step c [] = inl (refl, refl)
reports_step c (r ∷ rs) = ground (arith, report_step c r, reports_step (report c r) rs)

-- Whatever is reported to a coordinator that holds no view or one with this instance: either its
-- members and its epoch stay, or it has a view that is not empty under a later epoch; and no filter
-- finds this instance evicted from its view.
pub reports_hold :
    (c : Coordinator) (rs : List Report) (f : Filter)
    → IsHeld c
    → ((((reports c rs).members ≡ c.members) × ((reports c rs).epoch ≡ c.epoch))
        ⊎ (((length (reports c rs).members == 0) ≡ false) × (c.epoch < (reports c rs).epoch)))
      × (is_evicted f (membership (reports c rs)) ≡ false)
unfolding membership
reports_hold c rs f h =
    let held = reports-IsHeld c rs h in (reports_step c rs, ground (arith, held.holds))
