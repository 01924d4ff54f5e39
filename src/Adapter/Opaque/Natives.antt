-- ===== src/Adapter/Opaque/Natives.antt =====
-- The native message id, from a message id of services/provider-adapter/internal/opaque/opaque.go.
use dabet.Prelude.{
  ◌∙◌, sym, none, length, leb, Bool-cases, inl, ap, inr, ◌++◌, ◌≢◌, arith, some, ◌<◌, ◌≡◌, String,
  All, ℕ, List, refl, [], ◌∷◌,
}
use dabet.Prelude.Dict.{lookup, insert, lookup-insert}
use dabet.Adapter.Ring.Bytes.{bytes_eq, same_bytes_iff}
use dabet.Adapter.Base62.{encode_base62}
use dabet.Adapter.Base62.RoundTrip.{decode_base62-encode_base62}
use dabet.Adapter.Opaque.{
  Index, message_id, mint_message_id, hashed_payload, native_message_id, native_from_message_id,
  native_of, prefix_msg_raw, prefix_msg_hashed,
}
use dabet.Adapter.Opaque.Routing.{tag-cases, tag-lookup}

raw-native :
    (t : ℕ) (native : List ℕ)
    → All (λ x. x < 256) (t ∷ native)
    → native ≢ []
    → native_from_message_id (prefix_msg_raw ++ encode_base62 (t ∷ native)) ≡ some native
unfolding native_from_message_id
raw-native t [] a named = absurd (named refl)
raw-native t (b ∷ bs) a named = ap native_of (decode_base62-encode_base62 (t ∷ b ∷ bs) a)

hashed-native : (e : List ℕ) → native_from_message_id (prefix_msg_hashed ++ e) ≡ none
unfolding native_from_message_id
hashed-native e = refl

-- The index finds what was put in it last.
indexed : (idx : Index) (id native : List ℕ) → lookup id (insert id native idx) ≡ some native
indexed idx id native = ground (arith, lookup-insert id id native idx, same_bytes_iff id id)

-- A message id that was issued for a native id that is not empty is resolved to it, from the id
-- itself or, where it is too long, from the index: whatever the index held before.
pub native_message_id-message_id :
    (sum256 : List ℕ → List ℕ) (idx idx' : Index) (p : String) (native id : List ℕ)
    → All (λ x. x < 256) native
    → native ≢ []
    → message_id sum256 idx p native ≡ inr (id, idx')
    → native_message_id idx' id ≡ some native
unfolding message_id mint_message_id native_message_id
native_message_id-message_id sum256 idx idx' p native id a named h = elim (tag-cases p) [
  | inr (err, unknown) ↦ absurd (ground (arith, unknown, h))
  | inl (t, known) ↦
      let raw = prefix_msg_raw ++ encode_base62 (t ∷ native) in
      elim (Bool-cases (leb (length raw) 64)) [
        | inl fits ↦
            let same_id : raw ≡ id = ground (arith, known, fits, h) in
            ground (
              arith,
              sym (ap native_from_message_id same_id)
                  ∙ raw-native t native ((tag-lookup p t known).2, a) named,
            )
        | inr long ↦
            let e = encode_base62 (hashed_payload sum256 t native) in
            let same_id : prefix_msg_hashed ++ e ≡ id = ground (arith, known, long, h) in
            let same_index : insert id native idx ≡ idx' = ground (arith, known, long, h) in
            ground (
              arith,
              sym (ap native_from_message_id same_id) ∙ hashed-native e,
              sym (ap (lookup id) same_index) ∙ indexed idx id native,
            )
      ]
]
