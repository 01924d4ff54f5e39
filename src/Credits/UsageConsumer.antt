-- ===== src/Credits/UsageConsumer.antt =====
-- services/credits-service/internal/usage/usage.go: a record of usage.v1 becomes a charge. The
-- decoding of the record is Go's; the ledger is the in-memory one, which has no storage errors.
-- Floats are a parameter, and `ceil` is the conversion to int64 of math.Ceil.
use dabet.Prelude.Int.{ltb_ℤ, ◌-ℤ◌, pos_part, pos, ℤ}
use dabet.Prelude.{◌||◌, str_eq, if◌then◌else◌, some, ℕ, none, Option, String}
use dabet.Credits.Ledger.{apply, Memory}
use dabet.Prelude.Floats.{Floats}
use dabet.Contracts.{messages_reclustered, messages_processed, EventType}
pub mod Charges

pub record Rates (f : Floats) : Type 0 where
  pub messages_processed : f.Float
  pub messages_reclustered : f.Float

-- A decoded record. none is an event type that is not known.
pub record Incoming : Type 0 where
  pub creator_id : String
  pub event_type : Option EventType
  pub quantity : ℤ
  pub idempotency_key : String

pub data Handling : Type 0 where
  malformed applied replayed : Handling

-- The ledger after a record, how it was counted, and the balances of the notification.
pub record Handled : Type 0 where
  pub ledger : Memory
  pub outcome : Handling
  pub notified : Option (ℤ × ℤ)

abbrev pub reason_of : EventType → String
reason_of messages_processed = "messages_processed"
reason_of messages_reclustered = "messages_reclustered"

module _ (f : Floats) (ceil : f.Float → ℤ) (eps : f.Float) (rates : Rates f) where
  abbrev pub rate_of : EventType → f.Float
  rate_of messages_processed = rates.messages_processed
  rate_of messages_reclustered = rates.messages_reclustered

  -- Minus the credits; any positive quantity costs at least one.
  unfoldable pub delta : EventType → ℕ → ℤ
  delta t quantity =
      let credits = ceil (f.sub (f.mul (f.of_ℕ quantity) (rate_of t)) eps) in
      pos 0 -ℤ (if ltb_ℤ credits (pos 1) then pos 1 else credits)

  abbrev pub skip_malformed : Memory → Handled
  skip_malformed m = record { ledger = m; outcome = malformed; notified = none }

  unfoldable pub charge : Memory → Incoming → EventType → ℕ → Handled
  charge m ev t now =
      let d = delta t (pos_part ev.quantity) in
      let (m', res) = apply m ev.creator_id d (reason_of t) ev.idempotency_key now in
      record {
        ledger = m';
        outcome = if res.replayed then replayed else applied;
        notified = if res.replayed then none else some (res.balance -ℤ d, res.balance);
      }

  -- none is a record that does not decode.
  unfoldable pub handle_usage : Memory → Option Incoming → ℕ → Handled
  unfolding charge
  handle_usage m none now = skip_malformed m
  handle_usage m (some ev) now =
      if str_eq ev.creator_id "" || (str_eq ev.idempotency_key "" || ltb_ℤ ev.quantity (pos 1))
      then skip_malformed m
      else elim ev.event_type [ none ↦ skip_malformed m | some t ↦ charge m ev t now ]
