-- ===== src/Review/Idem/Replay.antt =====
-- What a stored response is replayed for, and for how long.
use dabet.Prelude.Dict.{
  lookup, DistinctKeys, AllEntries, lookup-insert, lookup-absent, insert-DistinctKeys, Eq,
}
use dabet.Adapter.Ring.Bytes.{bytes_eq}
use dabet.Prelude.{
  ◌≢◌, ◌%◌, ℕ, ◌-◌, ◌≤◌, ◌≡◌, refl, Bool, false, not, ◌&&◌, ◌==◌, ltb, if◌then◌else◌, Runes, none,
  some, List, [], ◌∷◌, length, keep, arith, Bool-cases, inl, inr, All,
}
use dabet.Review.Idem.{
  IdemEntry, idem_key, idem_ttl, expired, get_response, sweep_expired, put_response,
}

module _ {ℓ κ} {K : Type ℓ} {V : Type κ} ⦃e : Eq K⦄ (p : K × V → Bool) where
  keep-AllEntries {μ} :
      (P : K → V → Type μ) (m : List (K × V)) → AllEntries P m → AllEntries P (keep p m)
  keep-AllEntries P [] a = tt
  keep-AllEntries P ((k, v) ∷ m) (h, a) = elim (Bool-cases (p (k, v))) [
    | inl kept ↦ rw kept (h, keep-AllEntries P m a)
    | inr gone ↦ rw gone (keep-AllEntries P m a)
  ]

  keep-DistinctKeys : (m : List (K × V)) → DistinctKeys m → DistinctKeys (keep p m)
  keep-DistinctKeys [] d = tt
  keep-DistinctKeys ((k, v) ∷ m) (a, d) = elim (Bool-cases (p (k, v))) [
    | inl kept ↦ rw kept (keep-AllEntries (λ j _. e.beq k j ≡ false) m a, keep-DistinctKeys m d)
    | inr gone ↦ rw gone (keep-DistinctKeys m d)
  ]

  lookup-keep :
      (k : K) (m : List (K × V))
      → DistinctKeys m
      → lookup k (keep p m)
        ≡ elim (lookup k m) [ none ↦ none | some v ↦ if p (k, v) then some v else none ]
  lookup-keep k [] d = refl
  lookup-keep k ((j, v) ∷ m) (a, d) =
      ground (arith, e.beq_iff j k, lookup-keep k m d, lookup-absent j m a)

module _ {ℓ} {B : Type ℓ} where
  sweep_expired-DistinctKeys :
      (now : ℕ) (m : List (Runes × IdemEntry B))
      → DistinctKeys m
      → DistinctKeys (sweep_expired now m)
  unfolding sweep_expired
  sweep_expired-DistinctKeys now m d =
      elim (Bool-cases (not (length m == 0) && length m % 1024 == 0)) [
        | inl full ↦ rw full (keep-DistinctKeys (λ entry. not (expired now entry.1)) m d)
        | inr small ↦ rw small d
      ]

  pub put_response-DistinctKeys :
      (now : ℕ) (creator key : Runes) (status : ℕ) (body : B) (m : List (Runes × IdemEntry B))
      → DistinctKeys m
      → DistinctKeys (put_response now creator key status body m)
  unfolding put_response
  put_response-DistinctKeys now creator key status body m d =
      insert-DistinctKeys (idem_key creator key) _ (sweep_expired now m)
        (sweep_expired-DistinctKeys now m d)

  -- A sweep takes nothing away that would still be answered with.
  get_response-sweep_expired :
      (now later : ℕ) (creator key : Runes) (m : List (Runes × IdemEntry B))
      → now ≤ later
      → DistinctKeys m
      → get_response later creator key (sweep_expired now m) ≡ get_response later creator key m
  unfolding get_response sweep_expired
  get_response-sweep_expired now later creator key m h d =
      ground (arith, lookup-keep (λ entry. not (expired now entry.1)) (idem_key creator key) m d)

  -- A stored response is answered with for a day and under its key only, and storing it, with the
  -- sweep, changes no other answer from then on.
  pub get_response-put_response :
      (now later : ℕ) (creator key creator' key' : Runes) (status : ℕ) (body : B)
      (m : List (Runes × IdemEntry B))
      → now ≤ later
      → DistinctKeys m
      → get_response later creator' key' (put_response now creator key status body m) ≡ (
          if bytes_eq.beq (idem_key creator key) (idem_key creator' key')
          then (if ltb idem_ttl (later - now) then none else some (status, body))
          else get_response later creator' key' m)
  unfolding put_response get_response
  get_response-put_response now later creator key creator' key' status body m h d =
      let entry : IdemEntry B = record { status = status; body = body; at = now } in
      ground (
        arith,
        lookup-insert (idem_key creator key) (idem_key creator' key') entry (sweep_expired now m),
        get_response-sweep_expired now later creator' key' m h d,
      )

-- Creators whose names have no zero rune share no key.
pub idem_key-injective :
    (creator creator' key key' : Runes)
    → All (λ c. c ≢ 0) creator
    → All (λ c. c ≢ 0) creator'
    → idem_key creator key ≡ idem_key creator' key'
    → (creator ≡ creator') × (key ≡ key')
idem_key-injective [] [] key key' a b h = (refl, ground arith)
idem_key-injective [] (c ∷ creator') key key' a b h = absurd (ground arith)
idem_key-injective (c ∷ creator) [] key key' a b h = absurd (ground arith)
idem_key-injective (c ∷ creator) (c' ∷ creator') key key' (x, a) (y, b) h =
    ground (arith, idem_key-injective creator creator' key key' a b)
