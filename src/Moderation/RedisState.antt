-- ===== src/Moderation/RedisState.antt =====
-- services/moderation-service/internal/mod/redisstate.go: the parameters and the result of the
-- merged stages 4 to 6, and the decoding of the script's reply.
use dabet.Prelude.{ℕ, Option, none, some, List, [], ◌∷◌, String, leb, ◌/◌, ◌==◌, if◌then◌else◌}
use dabet.Prelude.Int.{ℤ, pos, negsuc}
use dabet.Prelude.Floats.{Floats}
use dabet.Moderation.Vector.{Vec}

pub record RateParams (f : Floats) : Type 0 where
  pub capacity : f.Float
  pub refill_per_sec : f.Float
  pub now : ℕ
  pub ttl : ℕ

pub record DupParams : Type 0 where
  pub hash : String
  pub depth : ℕ
  pub ttl : ℕ

-- none, and a depth of 0, turn a stage off.
pub record CascadeParams (f : Floats) : Type 0 where
  pub rate : Option (RateParams f)
  pub dup : Option DupParams
  pub emb_depth : ℕ

pub data CascadeHit : Type 0 where
  cascade_none cascade_rate_limited cascade_duplicate : CascadeHit

pub record CascadeResult (f : Floats) : Type 0 where
  pub hit : CascadeHit
  pub vectors : List (Vec f)

-- An element of the script's reply as the Redis client hands it over.
pub data Reply : Type 0 where
  integer : ℤ → Reply
  bulk : List ℕ → Reply  -- the bytes of a string
  other : Reply

abbrev pub nanos_per_second : ℕ
nanos_per_second = 1000000000

unfoldable pub bucket_ttl_seconds : ℕ → ℕ
bucket_ttl_seconds ttl = let sec = ttl / nanos_per_second in if leb 1 sec then sec else 1

unfoldable pub hit_of : ℤ → Option CascadeHit
hit_of (negsuc n) = none
hit_of (pos code) =
    if code == 0
    then some cascade_none
    else if code == 1
    then some cascade_rate_limited
    else if code == 2
    then some cascade_duplicate
    else none

-- The vectors of a reply; `unpack` is unpackVector over the machine's float32s. An element that is no
-- string, or no whole number of floats, is passed over.
module _ (f : Floats) (unpack : List ℕ → Option (Vec f)) where
  unfoldable pub decode_vectors : List Reply → List (Vec f)
  decode_vectors [] = []
  decode_vectors (integer n ∷ raw) = decode_vectors raw
  decode_vectors (other ∷ raw) = decode_vectors raw
  decode_vectors (bulk bytes ∷ raw) =
      let rest = decode_vectors raw in elim (unpack bytes) [ none ↦ rest | some v ↦ v ∷ rest ]

  -- none is an error: a reply that does not match the contract.
  unfoldable pub decode_cascade : List Reply → Option (CascadeResult f)
  unfolding decode_vectors hit_of
  decode_cascade [] = none
  decode_cascade (bulk bytes ∷ raw) = none
  decode_cascade (other ∷ raw) = none
  decode_cascade (integer code ∷ raw) = elim (hit_of code) [
    | none ↦ none
    | some hit ↦ some (record { hit = hit; vectors = decode_vectors raw })
  ]
