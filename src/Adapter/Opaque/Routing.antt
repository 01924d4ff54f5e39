-- ===== src/Adapter/Opaque/Routing.antt =====
-- The platform of an id of services/provider-adapter/internal/opaque/opaque.go.
use dabet.Prelude.{
  length, leb, str_eq_iff, Bool-cases, refl, none, ◌∙◌, zero, Bool, ◌⊎◌, suc, some, inl, arith, ap,
  take, inr, ◌<◌, ◌++◌, ◌≡◌, All, ℕ, String, List, [], ◌∷◌,
}
use dabet.Prelude.Dict.{string_eq, nat_eq, lookup}
use dabet.Adapter.Base62.{encode_base62}
use dabet.Adapter.Base62.RoundTrip.{decode_base62-encode_base62}
use dabet.Adapter.Opaque.{
  unknown_tag, platform_of, IdError, tag, payload, payload_loop, decode_payload, platform,
  platform_by_tag, mint_content_id, mint_author_id, mint_message_id, hashed_payload, prefix_content,
  prefix_sender, prefix_msg_raw, prefix_msg_hashed,
}

pub tag-lookup :
    (p : String) (t : ℕ) → tag p ≡ inr t → (lookup t platform_by_tag ≡ some p) × (0 < t) × (t < 256)
unfolding tag
tag-lookup p t h = ground (
  arith,
  str_eq_iff "youtube" p,
  str_eq_iff "twitch" p,
  str_eq_iff "discord" p,
  str_eq_iff "mock" p,
)

-- The payload that was encoded, behind any of the prefixes.
decode_payload-encode :
    (t : ℕ) (rest : List ℕ)
    → All (λ x. x < 256) (t ∷ rest)
    → decode_payload (encode_base62 (t ∷ rest)) ≡ inr (t ∷ rest)
unfolding decode_payload
decode_payload-encode t rest a = ground (arith, decode_base62-encode_base62 (t ∷ rest) a)

-- Whether an id starts with one of the prefixes and has this payload.
abbrev pub IsMinted : List ℕ → List ℕ → Type 0
IsMinted id b =
    (id ≡ prefix_content ++ encode_base62 b)
    ⊎ ((id ≡ prefix_sender ++ encode_base62 b)
        ⊎ ((id ≡ prefix_msg_raw ++ encode_base62 b) ⊎ (id ≡ prefix_msg_hashed ++ encode_base62 b)))

payload-minted :
    (id : List ℕ) (t : ℕ) (rest : List ℕ)
    → All (λ x. x < 256) (t ∷ rest)
    → IsMinted id (t ∷ rest)
    → payload id ≡ inr (t ∷ rest)
unfolding payload payload_loop
payload-minted id t rest a (inl e) = ap payload e ∙ decode_payload-encode t rest a
payload-minted id t rest a (inr (inl e)) = ap payload e ∙ decode_payload-encode t rest a
payload-minted id t rest a (inr (inr (inl e))) = ap payload e ∙ decode_payload-encode t rest a
payload-minted id t rest a (inr (inr (inr e))) = ap payload e ∙ decode_payload-encode t rest a

platform-minted :
    (p : String) (id : List ℕ) (t : ℕ) (rest : List ℕ)
    → tag p ≡ inr t
    → All (λ x. x < 256) rest
    → IsMinted id (t ∷ rest)
    → platform id ≡ inr p
unfolding platform
platform-minted p id t rest h a m =
    let (found, _, byte) = tag-lookup p t h in
    ap (λ r. elim r as (λ _. IdError ⊎ String) [ inl err ↦ inl err | inr b ↦ platform_of b ])
      (payload-minted id t rest (byte, a) m)
    ∙ ap (λ o. elim o as (λ _. IdError ⊎ String) [ none ↦ inl unknown_tag | some q ↦ inr q ]) found

pub take-All : (P : ℕ → Type 0) (n : ℕ) (l : List ℕ) → All P l → All P (take n l)
take-All P zero l a = tt
take-All P (suc n) [] a = tt
take-All P (suc n) (x ∷ l) (h, a) = (h, take-All P n l a)

pub tag-cases : (p : String) → ((t : ℕ) × (tag p ≡ inr t)) ⊎ ((err : IdError) × (tag p ≡ inl err))
tag-cases p = split (tag p) refl
  where
    split :
        (r : IdError ⊎ ℕ)
        → tag p ≡ r
        → ((t : ℕ) × (tag p ≡ inr t)) ⊎ ((err : IdError) × (tag p ≡ inl err))
    split (inl err) e = inr (err, e)
    split (inr t) e = inl (t, e)

-- An id that was minted for a platform, of content, of an author or of a message, resolves to that
-- platform: where SHA-256 gives bytes, and the native id is of bytes.
pub platform-mint :
    (sum256 : List ℕ → List ℕ) (p : String) (native id : List ℕ)
    → ((b : List ℕ) → All (λ x. x < 256) (sum256 b))
    → All (λ x. x < 256) native
    → (mint_content_id sum256 p native ≡ inr id)
      ⊎ ((mint_author_id sum256 p native ≡ inr id)
          ⊎ ((reversible : Bool) × (mint_message_id sum256 p native ≡ inr (id, reversible))))
    → platform id ≡ inr p
unfolding mint_content_id mint_author_id mint_message_id hashed_payload
platform-mint sum256 p native id bytes a h = elim (tag-cases p) [
  | inr (err, unknown) ↦ absurd (ground (arith, unknown, h))
  | inl (t, known) ↦ elim h [
    | inl content ↦
        platform-minted p id t (take 12 (sum256 native)) known
          (take-All _ 12 (sum256 native) (bytes native)) (inl (ground (arith, known, content)))
    | inr (inl author) ↦
        platform-minted p id t (take 12 (sum256 native)) known
          (take-All _ 12 (sum256 native) (bytes native)) (inr (inl (ground (arith, known, author))))
    | inr (inr (reversible, message)) ↦
        elim (Bool-cases (leb (length (prefix_msg_raw ++ encode_base62 (t ∷ native))) 64)) [
          | inl fits ↦
              platform-minted p id t native known a
                (inr (inr (inl (ground (arith, known, fits, message)))))
          | inr long ↦
              platform-minted p id t (take 12 (sum256 native)) known
                (take-All _ 12 (sum256 native) (bytes native))
                (inr (inr (inr (ground (arith, known, long, message)))))
        ]
  ]
]
