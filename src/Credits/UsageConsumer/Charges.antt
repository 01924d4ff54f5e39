-- ===== src/Credits/UsageConsumer/Charges.antt =====
-- Redelivered usage is charged once, and no charge is free.
use dabet.Credits.Ledger.Balances.{apply-apply, apply-IsSettled, IsSettled}
use dabet.Prelude.{
  Bool-cases, ◌||◌, str_eq, Bool, inr, inl, Option-cases, arith, some, none, ◌≡◌, ℕ, Option,
}
use dabet.Contracts.{EventType}
use dabet.Credits.Ledger.{Memory}
use dabet.Credits.UsageConsumer.{reason_of, replayed, Incoming, handle_usage, delta, charge, Rates}
use dabet.Prelude.Int.{pos, ltb_ℤ, pos_part, negsuc, ◌≤ℤ◌, ◌-ℤ◌, ℤ}
use dabet.Prelude.Floats.{Floats}

module _ (f : Floats) (ceil : f.Float → ℤ) (eps : f.Float) (rates : Rates f) where
  -- Every charge takes at least one credit, whatever the rate and the quantity are.
  delta-≤ℤ : (t : EventType) (quantity : ℕ) → delta f ceil eps rates t quantity ≤ℤ negsuc 0
  unfolding delta ◌-ℤ◌
  delta-≤ℤ t quantity = ground arith

  charge-IsSettled :
      (m : Memory) (ev : Incoming) (t : EventType) (now : ℕ)
      → IsSettled m
      → IsSettled (charge f ceil eps rates m ev t now).ledger
  unfolding charge
  charge-IsSettled m ev t now s =
      apply-IsSettled m ev.creator_id (delta f ceil eps rates t (pos_part ev.quantity))
        (reason_of t) ev.idempotency_key now s

  charge_again :
      (m : Memory) (ev : Incoming) (t : EventType) (now later : ℕ)
      → (let m' = (charge f ceil eps rates m ev t now).ledger in
          charge f ceil eps rates m' ev t later
          ≡ record { ledger = m'; outcome = replayed; notified = none })
  unfolding charge
  charge_again m ev t now later =
      let d = delta f ceil eps rates t (pos_part ev.quantity) in
      ground (
        arith,
        apply-apply m ev.creator_id d (reason_of t) ev.idempotency_key now ev.creator_id d
            (reason_of t) later,
      )

  -- A record that Kafka delivers again changes nothing in the ledger and notifies nobody.
  pub handle_usage_again :
      (m : Memory) (rec : Option Incoming) (now later : ℕ)
      → (let m' = (handle_usage f ceil eps rates m rec now).ledger in
          let again = handle_usage f ceil eps rates m' rec later in
          (again.ledger ≡ m') × (again.notified ≡ none))
  unfolding handle_usage
  handle_usage_again m none now later = ground arith
  handle_usage_again m (some ev) now later = elim (Option-cases ev.event_type) [
    | inl unknown ↦ ground (arith, unknown)
    | inr (t, known) ↦ ground (arith, known, charge_again m ev t now later)
  ]

  -- Whatever arrives on the topic, the balances stay the sums of the entries.
  handle_usage-IsSettled :
      (m : Memory) (rec : Option Incoming) (now : ℕ)
      → IsSettled m
      → IsSettled (handle_usage f ceil eps rates m rec now).ledger
  unfolding handle_usage
  handle_usage-IsSettled m none now s = s
  handle_usage-IsSettled m (some ev) now s =
      let is_malformed : Bool =
        str_eq ev.creator_id "" || (str_eq ev.idempotency_key "" || ltb_ℤ ev.quantity (pos 1)) in
      elim (Bool-cases is_malformed) [
        | inl e ↦ rw e s
        | inr e ↦ elim (Option-cases ev.event_type) [
          | inl unknown ↦ rw (e, unknown) s
          | inr (t, known) ↦ rw (e, known) (charge-IsSettled m ev t now s)
        ]
      ]
