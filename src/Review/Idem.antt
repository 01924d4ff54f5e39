-- ===== src/Review/Idem.antt =====
-- services/review-service/internal/api/idem.go: the responses that a repeated request is answered
-- with. A method holds the lock for its whole body and is one function. Times are nanoseconds.
use dabet.Prelude.Dict.{lookup, insert, DistinctKeys}
use dabet.Adapter.Ring.Bytes.{bytes_eq}
use dabet.Prelude.{
  ℕ, ◌-◌, ◌*◌, ◌%◌, Bool, not, ◌&&◌, ◌==◌, ltb, if◌then◌else◌, Runes, Option, none, some, List, ◌∷◌,
  ◌++◌, length, keep,
}
pub mod Replay

-- A day.
abbrev pub idem_ttl : ℕ
idem_ttl = 24 * 60 * 60 * 1000000000

module _ {ℓ} (B : Type ℓ) where
  pub record IdemEntry : Type ℓ where
    pub status : ℕ
    pub body : B
    pub at : ℕ

abbrev pub idem_key : Runes → Runes → Runes
idem_key creator key = creator ++ 0 ∷ key

module _ {ℓ} {B : Type ℓ} where
  abbrev pub expired : ℕ → IdemEntry B → Bool
  expired now e = ltb idem_ttl (now - e.at)

  unfoldable pub get_response : ℕ → Runes → Runes → List (Runes × IdemEntry B) → Option (ℕ × B)
  get_response now creator key m = elim (lookup (idem_key creator key) m) [
    | none ↦ none
    | some e ↦ if expired now e then none else some (e.status, e.body)
  ]

  unfoldable pub sweep_expired : ℕ → List (Runes × IdemEntry B) → List (Runes × IdemEntry B)
  sweep_expired now m =
      if not (length m == 0) && length m % 1024 == 0
      then keep (λ entry. not (expired now entry.1)) m
      else m

  unfoldable pub put_response :
      ℕ → Runes → Runes → ℕ → B → List (Runes × IdemEntry B) → List (Runes × IdemEntry B)
  put_response now creator key status body m =
      insert (idem_key creator key) (record { status = status; body = body; at = now })
        (sweep_expired now m)
