-- ===== src/Policy/Validate.antt =====
-- services/policy-service/internal/policy/validate.go and policy.go: the rules on a policy document,
-- and its normal form. A text is the list of its runes; an enumeration arrives as a string. The
-- message of an error is left out.
use dabet.Prelude.Int.{pos, ltb_ℤ, ℤ}
use dabet.Prelude.{
  ◌&&◌, some, none, ◌==◌, ◌++◌, ◌||◌, suc, length, false, any, ◌∷◌, true, str_eq, ltb,
  if◌then◌else◌, [], List, Bool, ℕ, String, Runes, Option,
}
pub mod Limits
pub mod Words

pub record ContentEntry : Type 0 where
  pub title : Runes
  pub description : Runes
  pub examples : List Runes

-- none is nil.
pub record Document : Type 0 where
  pub rate_limit_messages : Option ℤ
  pub rate_limit_seconds : Option ℤ
  pub spam : String
  pub restricted_words : List Runes
  pub restricted_content : List ContentEntry
  pub restricted_content_action : String

-- The field that an error names, with its indices.
pub data Field : Type 0 where
  rate_limit_messages rate_limit_seconds spam restricted_content_action : Field
  restricted_words restricted_content : Field
  word title description examples : ℕ → Field
  example : ℕ → ℕ → Field
  scope scope_id : Field

pub record ValidationError : Type 0 where
  pub field : Field
  pub limit : Option ℕ

-- The document or the first error.
pub data Checked (A : Type 0) : Type 0 where
  ok : A → Checked A
  error : ValidationError → Checked A

infixl 5 ◌>>=◌ ◌>>◌
abbrev pub ◌>>=◌ : {A B : Type 0} → Checked A → (A → Checked B) → Checked B
ok a >>= k = k a
error e >>= k = error e

abbrev pub ◌>>◌ : {B : Type 0} → Checked (Unit {0}) → Checked B → Checked B
m >> k = m >>= λ _. k

abbrev pub fail : {A : Type 0} → Field → Option ℕ → Checked A
fail f limit = error (record { field = f; limit = limit })

-- A number between two limits; the error names the one that is passed.
unfoldable pub in_range : Field → ℕ → ℕ → ℤ → Checked (Unit {0})
in_range f low high v =
    if ltb_ℤ v (pos low)
    then fail f (some low)
    else if ltb_ℤ (pos high) v
    then fail f (some high)
    else ok tt

unfoldable pub check_rate : Option ℤ → Option ℤ → Checked (Unit {0})
unfolding in_range
check_rate none none = ok tt
check_rate none (some seconds) = fail rate_limit_messages none
check_rate (some messages) none = fail rate_limit_seconds none
check_rate (some messages) (some seconds) = do
  in_range rate_limit_messages 1 1000 messages
  in_range rate_limit_seconds 1 3600 seconds

-- An empty enumeration is its default.
unfoldable pub check_spam : String → Checked String
check_spam s =
    if str_eq s ""
    then ok "none"
    else if str_eq s "none" || (str_eq s "identical" || str_eq s "semantic")
    then ok s
    else fail spam none

unfoldable pub check_action : String → Checked String
check_action s =
    if str_eq s ""
    then ok "auto"
    else if str_eq s "auto" || str_eq s "review"
    then ok s
    else fail restricted_content_action none

unfoldable pub at_most : {A : Type 0} → Field → ℕ → List A → Checked (Unit {0})
at_most f high xs = if ltb high (length xs) then fail f (some high) else ok tt

unfoldable pub sized : Field → ℕ → ℕ → Runes → Checked (Unit {0})
sized f low high w =
    if ltb (length w) low
    then fail f (some low)
    else if ltb high (length w)
    then fail f (some high)
    else ok tt

abbrev pub runes_eq : Runes → Runes → Bool
runes_eq [] [] = true
runes_eq [] (b ∷ bs) = false
runes_eq (a ∷ s) [] = false
runes_eq (a ∷ s) (b ∷ bs) = a == b && runes_eq s bs

-- The loop over the words, at position `i`, with those kept so far.
unfoldable pub check_words : (Runes → Runes) → ℕ → List Runes → List Runes → Checked (List Runes)
unfolding sized
check_words to_lower i words [] = ok words
check_words to_lower i words (w ∷ ws) =
    let lw = to_lower w in
    let words' = if any (runes_eq lw) words then words else words ++ lw ∷ [] in
    let rest = check_words to_lower (suc i) words' ws in sized (word i) 1 64 w >>= λ _. rest

unfoldable pub check_examples : ℕ → ℕ → List Runes → Checked (Unit {0})
unfolding sized
check_examples i j [] = ok tt
check_examples i j (ex ∷ exs) =
    let rest = check_examples i (suc j) exs in sized (example i j) 0 200 ex >>= λ _. rest

unfoldable pub check_content : ℕ → List ContentEntry → Checked (Unit {0})
unfolding sized at_most check_examples
check_content i [] = ok tt
check_content i (e ∷ es) =
    let rest = check_content (suc i) es in
    sized (title i) 1 100 e.title >>= λ _. sized (description i) 1 500 e.description >>= λ _.
    at_most (examples i) 10 e.examples >>= λ _. check_examples i 0 e.examples >>= λ _. rest

-- The rules on the two lists; `to_lower` is strings.ToLower.
unfoldable pub validate_lists : (Runes → Runes) → Document → Checked Document
unfolding check_words check_content at_most
validate_lists to_lower d = do
  at_most restricted_words 500 d.restricted_words
  ws ← check_words to_lower 0 [] d.restricted_words
  at_most restricted_content 20 d.restricted_content
  check_content 0 d.restricted_content
  ok (record d { restricted_words = ws })

unfoldable pub validate_and_normalize : (Runes → Runes) → Document → Checked Document
unfolding check_rate check_spam check_action validate_lists
validate_and_normalize to_lower d = do
  check_rate d.rate_limit_messages d.rate_limit_seconds
  s ← check_spam d.spam
  a ← check_action d.restricted_content_action
  validate_lists to_lower (record d { spam = s; restricted_content_action = a })
