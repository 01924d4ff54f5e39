-- ===== src/Credits/Ledger.antt =====
-- services/credits-service/internal/ledger/memory.go and ledger.go: the append-only entries with
-- their unique idempotency keys, and the balances kept on write. Each method holds `mu` for its whole
-- body. The slice of entries is the list read from its end, newest first. Amounts are integers; the
-- code's int64 holds every sum of real charges. The metadata of an entry is a parameter's type.
pub mod Balances
use dabet.Prelude.Int.{◌+ℤ◌, ltb_ℤ, pos, ℤ}
use dabet.Prelude.{
  false, ◌-◌, leb, ◌+◌, ◌==◌, ◌||◌, true, ◌&&◌, str_eq, not, any, ◌∷◌, some, none, if◌then◌else◌,
  count, List, ℕ, [], String, Option, Bool,
}
use dabet.Prelude.Dict.{insert, lookup, string_eq}

pub record Entry : Type 0 where
  pub id : ℕ
  pub creator_id : String
  pub delta : ℤ
  pub reason : String
  pub idempotency_key : String
  pub created_at : ℕ

pub record BalanceRow : Type 0 where
  pub balance : ℤ
  pub updated_at : ℕ

pub record Memory : Type 0 where
  pub next_id : ℕ
  pub entries : List Entry
  pub balances : List (String × BalanceRow)

pub record ApplyResult : Type 0 where
  pub replayed : Bool
  pub balance : ℤ

unfoldable pub new_memory : Memory
new_memory = record { next_id = 1; entries = []; balances = [] }

-- A key that is missing reads as the zero row.
abbrev pub row_of : Option BalanceRow → BalanceRow
row_of none = record { balance = pos 0; updated_at = 0 }
row_of (some row) = row

unfoldable pub apply : Memory → String → ℤ → String → String → ℕ → Memory × ApplyResult
apply m creator_id delta reason idempotency_key now =
    let row = row_of (lookup creator_id m.balances) in
    if any (λ (e : Entry). str_eq e.idempotency_key idempotency_key) m.entries
    then (m, record { replayed = true; balance = row.balance })
    else (let e : Entry = record {
      id = m.next_id;
      creator_id = creator_id;
      delta = delta;
      reason = reason;
      idempotency_key = idempotency_key;
      created_at = now;
    } in
        let row' : BalanceRow = record { balance = row.balance +ℤ delta; updated_at = now } in
        (
          record {
            next_id = m.next_id + 1;
            entries = e ∷ m.entries;
            balances = insert creator_id row' m.balances;
          },
          record { replayed = false; balance = row'.balance },
        ))

unfoldable pub balance : Memory → String → Option BalanceRow
balance m creator_id = lookup creator_id m.balances

-- The page of a creator, newest first; 0 begins at the newest.
unfoldable pub entries_loop : String → ℕ → ℕ → List Entry → List Entry
entries_loop creator_id before_id limit [] = []
entries_loop creator_id before_id limit (e ∷ es) =
    let skip = not (str_eq e.creator_id creator_id) || not (before_id == 0) && leb before_id e.id in
    let rest = entries_loop creator_id before_id limit es in
    let page = e ∷ entries_loop creator_id before_id (limit - 1) es in
    if limit == 0 then [] else if skip then rest else page

unfoldable pub entries : Memory → String → ℕ → ℕ → List Entry
unfolding entries_loop
entries m creator_id before_id limit = entries_loop creator_id before_id limit m.entries

abbrev pub reason_topup : String
reason_topup = "topup"

unfoldable pub last_topup_loop : String → List Entry → Option ℤ
last_topup_loop creator_id [] = none
last_topup_loop creator_id (e ∷ es) =
    let rest = last_topup_loop creator_id es in
    if str_eq e.creator_id creator_id && str_eq e.reason reason_topup then some e.delta else rest

unfoldable pub last_topup : Memory → String → Option ℤ
unfolding last_topup_loop
last_topup m creator_id = last_topup_loop creator_id m.entries

unfoldable pub negative_balances : Memory → ℕ
negative_balances m = count (λ e. ltb_ℤ (BalanceRow.balance e.1) (pos 0)) m.balances
