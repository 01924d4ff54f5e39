-- ===== src/Examples/Ids.antt =====
-- Ids of two platforms: one that holds its native id, and one that is looked up.
use dabet.Adapter.Base62.Numbers.{digits_on, digits}
use dabet.Prelude.{◌<◌, arith, All, ◌++◌, ℕ, some, inr, ◌≡◌, List, refl, [], ◌∷◌}
use dabet.Adapter.Base62.{char_of, encode_base62, decode_base62}
use dabet.Adapter.Base62.RoundTrip.{decode_base62-encode_base62}
use dabet.Adapter.Opaque.{
  mint_content_id, message_id, native_message_id, tag, prefix_content, hashed_payload,
  prefix_msg_raw, mint_message_id,
}
use dabet.Adapter.Opaque.Natives.{native_message_id-message_id}

decode_base62-encode_base62_example :
    decode_base62 (encode_base62 (0 ∷ 0 ∷ 1 ∷ 255 ∷ [])) ≡ some (0 ∷ 0 ∷ 1 ∷ 255 ∷ [])
decode_base62-encode_base62_example =
    decode_base62-encode_base62 (0 ∷ 0 ∷ 1 ∷ 255 ∷ [])
      (omega arith, (omega arith, (omega arith, (omega arith, tt))))

-- A function in the place of SHA-256.
abbrev no_hash : List ℕ → List ℕ
no_hash b = 1 ∷ 2 ∷ 3 ∷ 4 ∷ 5 ∷ 6 ∷ 7 ∷ 8 ∷ 9 ∷ 10 ∷ 11 ∷ 12 ∷ 13 ∷ []

no_hash-bytes : (b : List ℕ) → All (λ x. x < 256) (no_hash b)
no_hash-bytes b = (
  omega arith,
  (
    omega arith,
    (
      omega arith,
      (
        omega arith,
        (
          omega arith,
          (
            omega arith,
            (
              omega arith,
              (
                omega arith,
                (omega arith, (omega arith, (omega arith, (omega arith, (omega arith, tt))))),
              ),
            ),
          ),
        ),
      ),
    ),
  ),
)

abbrev content : List ℕ
content = prefix_content ++ encode_base62 (hashed_payload no_hash 2 (104 ∷ []))

content_minted : mint_content_id no_hash "twitch" (104 ∷ []) ≡ inr content
unfolding mint_content_id tag
content_minted = refl

abbrev message : List ℕ
message = prefix_msg_raw ++ encode_base62 (3 ∷ 104 ∷ 105 ∷ [])

message_issued : message_id no_hash [] "discord" (104 ∷ 105 ∷ []) ≡ inr (message, [])
unfolding message_id mint_message_id tag encode_base62 digits digits_on char_of
message_issued = refl

native_message_id-message_id_example : native_message_id [] message ≡ some (104 ∷ 105 ∷ [])
native_message_id-message_id_example =
    native_message_id-message_id no_hash [] [] "discord" (104 ∷ 105 ∷ []) message
      (omega arith, (omega arith, tt)) (λ e. absurd (cc)) message_issued
