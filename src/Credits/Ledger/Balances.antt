-- ===== src/Credits/Ledger/Balances.antt =====
-- A balance is the sum of its creator's entries, and a key is charged once.
use dabet.Prelude.Int.{◌+ℤ◌, pos, ℤ}
use dabet.Credits.Ledger.{row_of, balance, Entry, new_memory, apply, Memory}
use dabet.Prelude.{
  inr, str_eq_iff, inl, false, str_eq, arith, [], true, if◌then◌else◌, any, ◌<◌, ◌∷◌, ◌≡◌,
  Bool-cases, ℕ, String, List, refl,
}
use dabet.Prelude.Dict.{lookup-insert, lookup, string_eq}

-- The sum of a creator's entries.
abbrev pub sum_of : String → List Entry → ℤ
sum_of creator_id [] = pos 0
sum_of creator_id (e ∷ es) =
    if str_eq e.creator_id creator_id then sum_of creator_id es +ℤ e.delta else sum_of creator_id es

-- Each entry is older than those before it in the list, and all are older than the next one.
abbrev pub Descending : ℕ → List Entry → Type 0
Descending bound [] = Unit
Descending bound (e ∷ es) = (e.id < bound) × Descending e.id es

-- No two entries share an idempotency key.
abbrev pub UniqueKeys : List Entry → Type 0
UniqueKeys [] = Unit
UniqueKeys (e ∷ es) =
    (any (λ (o : Entry). str_eq o.idempotency_key e.idempotency_key) es ≡ false) × UniqueKeys es

pub record IsSettled (m : Memory) : Type 0 where
  pub sums :
      (creator_id : String)
      → (row_of (lookup creator_id m.balances)).balance ≡ sum_of creator_id m.entries
  pub ids : Descending m.next_id m.entries
  pub keys : UniqueKeys m.entries

-- An empty ledger is settled.
pub new_memory-IsSettled : IsSettled new_memory
unfolding new_memory
new_memory-IsSettled = record { sums = λ c. refl; ids = tt; keys = tt }

-- In a settled ledger, however an entry is applied: every balance stays the sum of its creator's
-- entries, identifiers stay in order, and no key is charged twice.
pub apply-IsSettled :
    (m : Memory) (creator_id : String) (delta : ℤ) (reason idempotency_key : String) (now : ℕ)
    → IsSettled m
    → IsSettled (apply m creator_id delta reason idempotency_key now).0
unfolding apply
apply-IsSettled m creator_id delta reason key now s =
    elim (Bool-cases (any (λ (e : Entry). str_eq e.idempotency_key key) m.entries)) [
      | inl used ↦ rw (apply, used) s
      | inr fresh ↦
          rw (apply, fresh)
            (record {
              sums = λ c. ground (
                arith,
                s.sums c,
                s.sums creator_id,
                str_eq_iff creator_id c,
                lookup-insert creator_id c
                    (record {
                      balance = (row_of (lookup creator_id m.balances)).balance +ℤ delta;
                      updated_at = now;
                    })
                    m.balances,
              );
              ids = (omega arith, s.ids);
              keys = (fresh, s.keys);
            })
    ]

-- A replay of a key changes nothing, and reports the balance of the creator as it is.
pub apply-apply :
    (m : Memory) (creator_id : String) (delta : ℤ) (reason key : String) (now : ℕ)
    (creator_id' : String) (delta' : ℤ) (reason' : String) (now' : ℕ)
    → (let m' = (apply m creator_id delta reason key now).0 in
        apply m' creator_id' delta' reason' key now'
        ≡ (m', record { replayed = true; balance = (row_of (balance m' creator_id')).balance }))
unfolding apply balance
apply-apply m creator_id delta reason key now creator_id' delta' reason' now' =
    ground (arith, (str_eq_iff key key).1 refl)
