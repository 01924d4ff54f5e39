-- ===== src/Adapter/Opaque.antt =====
-- services/provider-adapter/internal/opaque/opaque.go: the ids that the adapter issues. An id and a
-- native id are lists of bytes, a platform's name a string; crypto/sha256 is a parameter.
pub mod Routing
pub mod Natives
pub mod Lengths
use dabet.Prelude.{
  false, true, leb, not, ◌++◌, length, inr, ◌==◌, inl, if◌then◌else◌, Bool, ◌⊎◌, take, some, none,
  ℕ, String, Option, List, [], ◌∷◌,
}
use dabet.Prelude.Dict.{string_eq, nat_eq, lookup, insert}
use dabet.Adapter.Ring.Bytes.{bytes_eq}
use dabet.Adapter.Base62.{encode_base62, decode_base62}

abbrev pub max_id_len : ℕ
max_id_len = 64

-- "ct_", "sd_", "pm_" and "ph_".
abbrev pub prefix_content : List ℕ
prefix_content = 99 ∷ 116 ∷ 95 ∷ []

abbrev pub prefix_sender : List ℕ
prefix_sender = 115 ∷ 100 ∷ 95 ∷ []

abbrev pub prefix_msg_raw : List ℕ
prefix_msg_raw = 112 ∷ 109 ∷ 95 ∷ []

abbrev pub prefix_msg_hashed : List ℕ
prefix_msg_hashed = 112 ∷ 104 ∷ 95 ∷ []

abbrev pub hash_len : ℕ
hash_len = 12

abbrev pub tag_by_platform : List (String × ℕ)
tag_by_platform = ("youtube", 1) ∷ ("twitch", 2) ∷ ("discord", 3) ∷ ("mock", 127) ∷ []

abbrev pub inverted : List (String × ℕ) → List (ℕ × String)
inverted [] = []
inverted ((p, t) ∷ rest) = insert t p (inverted rest)

abbrev pub platform_by_tag : List (ℕ × String)
platform_by_tag = inverted tag_by_platform

pub data IdError : Type 0 where
  unknown_platform : IdError
  invalid_character : IdError
  empty_payload : IdError
  unrecognized_shape : IdError
  unknown_tag : IdError

unfoldable pub tag : String → IdError ⊎ ℕ
tag platform = elim (lookup platform tag_by_platform) [
  | none ↦ inl unknown_platform
  | some t ↦ inr t
]

unfoldable pub hashed_payload : (List ℕ → List ℕ) → ℕ → List ℕ → List ℕ
hashed_payload sum256 t native = t ∷ take hash_len (sum256 native)

unfoldable pub mint_content_id : (List ℕ → List ℕ) → String → List ℕ → IdError ⊎ List ℕ
mint_content_id sum256 platform native = elim (tag platform) [
  | inl err ↦ inl err
  | inr t ↦ inr (prefix_content ++ encode_base62 (hashed_payload sum256 t native))
]

unfoldable pub mint_author_id : (List ℕ → List ℕ) → String → List ℕ → IdError ⊎ List ℕ
mint_author_id sum256 platform native = elim (tag platform) [
  | inl err ↦ inl err
  | inr t ↦ inr (prefix_sender ++ encode_base62 (hashed_payload sum256 t native))
]

-- The id, and whether the native id can be read from it.
unfoldable pub mint_message_id : (List ℕ → List ℕ) → String → List ℕ → IdError ⊎ (List ℕ × Bool)
mint_message_id sum256 platform native = elim (tag platform) [
  | inl err ↦ inl err
  | inr t ↦
      let raw = prefix_msg_raw ++ encode_base62 (t ∷ native) in
      inr (
        if leb (length raw) max_id_len
        then (raw, true)
        else (prefix_msg_hashed ++ encode_base62 (hashed_payload sum256 t native), false))
]

-- strings.CutPrefix.
abbrev pub cut_prefix : List ℕ → List ℕ → Option (List ℕ)
cut_prefix s [] = some s
cut_prefix [] (p ∷ ps) = none
cut_prefix (c ∷ s) (p ∷ ps) = if c == p then cut_prefix s ps else none

unfoldable pub decode_payload : List ℕ → IdError ⊎ List ℕ
decode_payload rest = elim (decode_base62 rest) [
  | none ↦ inl invalid_character
  | some b ↦ if length b == 0 then inl empty_payload else inr b
]

-- The loop over the prefixes.
unfoldable pub payload_loop : List (List ℕ) → List ℕ → IdError ⊎ List ℕ
payload_loop [] id = inl unrecognized_shape
payload_loop (p ∷ ps) id = elim (cut_prefix id p) [
  | none ↦ payload_loop ps id
  | some rest ↦ decode_payload rest
]

unfoldable pub payload : List ℕ → IdError ⊎ List ℕ
payload id =
    payload_loop (prefix_content ∷ prefix_sender ∷ prefix_msg_raw ∷ prefix_msg_hashed ∷ []) id

abbrev pub platform_of : List ℕ → IdError ⊎ String
platform_of [] = inl empty_payload
platform_of (t ∷ rest) = elim (lookup t platform_by_tag) [ none ↦ inl unknown_tag | some p ↦ inr p ]

-- `payload` returns no empty list, so `b[0]` is there.
unfoldable pub platform : List ℕ → IdError ⊎ String
platform id = elim (payload id) [ inl err ↦ inl err | inr b ↦ platform_of b ]

abbrev pub native_of : Option (List ℕ) → Option (List ℕ)
native_of none = none
native_of (some []) = none
native_of (some (t ∷ [])) = none
native_of (some (t ∷ b ∷ bs)) = some (b ∷ bs)

unfoldable pub native_from_message_id : List ℕ → Option (List ℕ)
native_from_message_id id = elim (cut_prefix id prefix_msg_raw) [
  | none ↦ none
  | some rest ↦ native_of (decode_base62 rest)
]

-- The index of a Minter.
abbrev pub Index : Type 0
Index = List (List ℕ × List ℕ)

unfoldable pub content_id : (List ℕ → List ℕ) → Index → String → List ℕ → IdError ⊎ (List ℕ × Index)
content_id sum256 idx platform native = elim (mint_content_id sum256 platform native) [
  | inl err ↦ inl err
  | inr id ↦ inr (id, insert id native idx)
]

unfoldable pub message_id : (List ℕ → List ℕ) → Index → String → List ℕ → IdError ⊎ (List ℕ × Index)
message_id sum256 idx platform native = elim (mint_message_id sum256 platform native) [
  | inl err ↦ inl err
  | inr (id, reversible) ↦ inr (id, if not reversible then insert id native idx else idx)
]

unfoldable pub native_content_id : Index → List ℕ → Option (List ℕ)
native_content_id idx id = lookup id idx

unfoldable pub native_message_id : Index → List ℕ → Option (List ℕ)
native_message_id idx id = elim (native_from_message_id id) [
  | some native ↦ some native
  | none ↦ lookup id idx
]
