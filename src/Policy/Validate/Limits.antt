-- ===== src/Policy/Validate/Limits.antt =====
-- What an accepted document satisfies, and that the normal form is one.
use mathlib.Core.Path.{subst}
use dabet.Prelude.{◌⊎◌, inr, inl, str_eq, Bool-cases, none, some}
use dabet.Policy.Validate.Words.{check_words_normal, check_words-normal, IsLowering, is_normal}
use dabet.Prelude.Int.{◌≤ℤ◌, pos, ℤ}
use dabet.Policy.Validate.{
  ValidationError, validate_lists, restricted_content, check_words, restricted_words, error, Field,
  validate_and_normalize, at_most, Checked, ok, Document, check_spam, check_rate, check_examples,
  check_content, check_action, ContentEntry,
}
use dabet.Prelude.{
  suc, ◌∷◌, true, [], ◌↔◌, arith, all, ◌≤◌, ◌&&◌, ◌≡◌, length, leb, List, ℕ, String, Bool, Runes,
  Option, refl,
}

abbrev pub IsRatePair : Option ℤ → Option ℤ → Type 0
IsRatePair none none = Unit
IsRatePair none (some seconds) = ⊥
IsRatePair (some messages) none = ⊥
IsRatePair (some messages) (some seconds) =
    ((pos 1 ≤ℤ messages) × (messages ≤ℤ pos 1000)) × ((pos 1 ≤ℤ seconds) × (seconds ≤ℤ pos 3600))

abbrev pub is_entry : ContentEntry → Bool
is_entry e =
    (leb 1 (length e.title) && leb (length e.title) 100)
    && ((leb 1 (length e.description) && leb (length e.description) 500)
        && (leb (length e.examples) 10 && all (λ ex. leb (length ex) 200) e.examples))

-- The limits of a stored document.
pub record IsInLimits (to_lower : Runes → Runes) (d : Document) : Type 0 where
  pub rate : IsRatePair d.rate_limit_messages d.rate_limit_seconds
  pub few_words : length d.restricted_words ≤ 500
  pub normal_words : is_normal to_lower [] d.restricted_words ≡ true
  pub few_entries : length d.restricted_content ≤ 20
  pub entries : all is_entry d.restricted_content ≡ true
  pub spam_mode : check_spam d.spam ≡ ok d.spam
  pub action : check_action d.restricted_content_action ≡ ok d.restricted_content_action

check_rate-IsRatePair : (m s : Option ℤ) → check_rate m s ≡ ok tt → IsRatePair m s
unfolding check_rate
check_rate-IsRatePair none none h = tt
check_rate-IsRatePair none (some s) h = absurd (ground arith)
check_rate-IsRatePair (some m) none h = absurd (ground arith)
check_rate-IsRatePair (some m) (some s) h = ground arith

check_rate_pair : (m s : Option ℤ) → IsRatePair m s → check_rate m s ≡ ok tt
unfolding check_rate
check_rate_pair none none h = refl
check_rate_pair none (some s) h = absurd h
check_rate_pair (some m) none h = absurd h
check_rate_pair (some m) (some s) h = ground arith

check_spam_normal : (s s' : String) → check_spam s ≡ ok s' → check_spam s' ≡ ok s'
unfolding check_spam
check_spam_normal s s' h = elim (Bool-cases (str_eq s "")) [
  | inl empty ↦
      let default : "none" ≡ s' = ground (arith, empty) in
      subst (λ x. check_spam x ≡ ok x) default refl
  | inr other ↦
      let same : s ≡ s' = ground (arith, other) in subst (λ x. check_spam x ≡ ok s') same h
]

check_action_normal : (s s' : String) → check_action s ≡ ok s' → check_action s' ≡ ok s'
unfolding check_action
check_action_normal s s' h = elim (Bool-cases (str_eq s "")) [
  | inl empty ↦
      let default : "auto" ≡ s' = ground (arith, empty) in
      subst (λ x. check_action x ≡ ok x) default refl
  | inr other ↦
      let same : s ≡ s' = ground (arith, other) in subst (λ x. check_action x ≡ ok s') same h
]

check_examples_iff :
    (i j : ℕ) (exs : List Runes)
    → (check_examples i j exs ≡ ok tt) ↔ (all (λ ex. leb (length ex) 200) exs ≡ true)
unfolding check_examples
check_examples_iff i j [] = (λ h. refl, λ h. refl)
check_examples_iff i j (ex ∷ exs) = (
  λ h. ground (arith, check_examples_iff i (suc j) exs),
  λ h. ground (arith, check_examples_iff i (suc j) exs),
)

check_content_iff :
    (i : ℕ) (es : List ContentEntry) → (check_content i es ≡ ok tt) ↔ (all is_entry es ≡ true)
unfolding check_content
check_content_iff i [] = (λ h. refl, λ h. refl)
check_content_iff i (e ∷ es) = (
  λ h. ground (arith, check_content_iff (suc i) es, check_examples_iff i 0 e.examples),
  λ h. ground (arith, check_content_iff (suc i) es, check_examples_iff i 0 e.examples),
)

at_most-length :
    {A : Type 0} (f : Field) (high : ℕ) (xs : List A) → at_most f high xs ≡ ok tt → length xs ≤ high
unfolding at_most
at_most-length f high xs h = ground arith

at_most_ok :
    {A : Type 0} (f : Field) (high : ℕ) (xs : List A) → length xs ≤ high → at_most f high xs ≡ ok tt
unfolding at_most
at_most_ok f high xs h = ground arith

-- The checks that an accepted document has passed: those on the lists, and all.
record PassedLists (to_lower : Runes → Runes) (d d' : Document) : Type 0 where
  few_words : at_most restricted_words 500 d.restricted_words ≡ ok tt
  words : check_words to_lower 0 [] d.restricted_words ≡ ok d'.restricted_words
  few_entries : at_most restricted_content 20 d.restricted_content ≡ ok tt
  content : check_content 0 d.restricted_content ≡ ok tt
  same : d' ≡ record d { restricted_words = d'.restricted_words }

validate_lists-PassedLists :
    (to_lower : Runes → Runes) (d d' : Document)
    → validate_lists to_lower d ≡ ok d'
    → PassedLists to_lower d d'
unfolding validate_lists
validate_lists-PassedLists to_lower d d' h = ground arith

Checked-cases :
    {A : Type 0} (m : Checked A) → ((a : A) × (m ≡ ok a)) ⊎ ((e : ValidationError) × (m ≡ error e))
Checked-cases (ok a) = inl (a, refl)
Checked-cases (error e) = inr (e, refl)

record Passed (to_lower : Runes → Runes) (d d' : Document) : Type 0 where
  rate : check_rate d.rate_limit_messages d.rate_limit_seconds ≡ ok tt
  spam_mode : check_spam d.spam ≡ ok d'.spam
  action : check_action d.restricted_content_action ≡ ok d'.restricted_content_action
  lists :
      PassedLists to_lower
        (record d { spam = d'.spam; restricted_content_action = d'.restricted_content_action })
        d'

validate_and_normalize-Passed :
    (to_lower : Runes → Runes) (d d' : Document)
    → validate_and_normalize to_lower d ≡ ok d'
    → Passed to_lower d d'
unfolding validate_and_normalize
validate_and_normalize-Passed to_lower d d' h = elim (Checked-cases (check_spam d.spam)) [
  | inl (s, s_ok) ↦ elim (Checked-cases (check_action d.restricted_content_action)) [
    | inl (a, a_ok) ↦
        let e : Document = record d { spam = s; restricted_content_action = a } in
        let lists_ok : validate_lists to_lower e ≡ ok d' = ground (arith, s_ok, a_ok) in
        let q = validate_lists-PassedLists to_lower e d' lists_ok in ground (arith, s_ok, a_ok, q)
    | inr (e, failed) ↦ absurd (ground (arith, s_ok, failed))
  ]
  | inr (e, failed) ↦ absurd (ground (arith, failed))
]

-- Where ToLower changes nothing a second time and keeps the number of runes, a document that is
-- accepted is within every limit, in the normal form that is stored.
pub validate_and_normalize-IsInLimits :
    (to_lower : Runes → Runes) (d d' : Document)
    → IsLowering to_lower
    → validate_and_normalize to_lower d ≡ ok d'
    → IsInLimits to_lower d'
validate_and_normalize-IsInLimits to_lower d d' l h =
    let p = validate_and_normalize-Passed to_lower d d' h in
    let (new, (eq, (normal, few))) =
      check_words-normal to_lower 0 [] d.restricted_words d'.restricted_words l p.lists.words in
    record {
      rate =
          rw p.lists.same (check_rate-IsRatePair d.rate_limit_messages d.rate_limit_seconds p.rate);
      few_words = rw eq (
          omega
            (arith, few, at_most-length restricted_words 500 d.restricted_words p.lists.few_words));
      normal_words = rw eq normal;
      few_entries =
          rw p.lists.same
            (at_most-length restricted_content 20 d.restricted_content p.lists.few_entries);
      entries = rw p.lists.same ((check_content_iff 0 d.restricted_content).0 p.lists.content);
      spam_mode = check_spam_normal d.spam d'.spam p.spam_mode;
      action =
          check_action_normal d.restricted_content_action d'.restricted_content_action p.action;
    }

-- A document within the limits is accepted as it is.
IsInLimits-ok :
    (to_lower : Runes → Runes) (d : Document)
    → IsInLimits to_lower d
    → validate_and_normalize to_lower d ≡ ok d
unfolding validate_and_normalize validate_lists
IsInLimits-ok to_lower d i = ground (
  arith,
  check_rate_pair d.rate_limit_messages d.rate_limit_seconds i.rate,
  i.spam_mode,
  i.action,
  at_most_ok restricted_words 500 d.restricted_words i.few_words,
  check_words_normal to_lower 0 [] d.restricted_words i.normal_words,
  at_most_ok restricted_content 20 d.restricted_content i.few_entries,
  (check_content_iff 0 d.restricted_content).1 i.entries,
)

-- Where ToLower changes nothing a second time and keeps the number of runes, what is stored passes
-- again, unchanged.
pub validate_and_normalize_twice :
    (to_lower : Runes → Runes) (d d' : Document)
    → IsLowering to_lower
    → validate_and_normalize to_lower d ≡ ok d'
    → validate_and_normalize to_lower d' ≡ ok d'
validate_and_normalize_twice to_lower d d' l h =
    IsInLimits-ok to_lower d' (validate_and_normalize-IsInLimits to_lower d d' l h)
