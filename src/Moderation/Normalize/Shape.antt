-- ===== src/Moderation/Normalize/Shape.antt =====
-- The shape of a normalised text: words of visible runes, parted by single blanks.
use dabet.Prelude.{
  ℕ, Runes, ◌≡◌, refl, ◌∙◌, ap, ◌⊎◌, inl, inr, Bool, true, false, ◌&&◌, [], ◌∷◌, arith, map,
  if◌then◌else◌, Bool-cases,
}
use dabet.Moderation.Normalize.Steps.{is_ink, loop_hidden, loop_space, loop_ink}
use dabet.Moderation.Normalize.{Unicode, is_zero_width, blank, normalize_loop, normalize}

-- What unicode.ToLower promises: it goes rune by rune, a second time changes nothing, and it keeps
-- spaces and invisible runes what they are.
pub record IsRunewise (u : Unicode) : Type 0 where
  pub lower : ℕ → ℕ
  pub to_lower-map : (s : Runes) → u.to_lower s ≡ map lower s
  pub lower-lower : (r : ℕ) → lower (lower r) ≡ lower r
  pub lower-space : (r : ℕ) → u.is_space r ≡ true → u.is_space (lower r) ≡ true
  pub zero_width-lower : (r : ℕ) → is_zero_width (lower r) ≡ is_zero_width r
  pub lower-blank : lower blank ≡ blank
  pub blank-space : u.is_space blank ≡ true

pub data Place : Type 0 where
  edge inside gap : Place

-- Before the first word, within a word, and after a blank.
abbrev pub IsWords : Unicode → Place → Runes → Type 0
IsWords u edge [] = Unit
IsWords u edge (r ∷ rs) = (is_ink u r ≡ true) × IsWords u inside rs
IsWords u inside [] = Unit
IsWords u inside (r ∷ rs) =
    ((is_ink u r ≡ true) × IsWords u inside rs) ⊎ ((r ≡ blank) × IsWords u gap rs)
IsWords u gap [] = ⊥
IsWords u gap (r ∷ rs) = (is_ink u r ≡ true) × IsWords u inside rs

ink_word :
    (u : Unicode) (p w : Bool) (r : ℕ) (rest : Runes)
    → is_ink u r ≡ true
    → IsWords u inside rest
    → IsWords u (if w then inside else edge) (if p && w then blank ∷ r ∷ rest else r ∷ rest)
ink_word u true true r rest ink h = inr (refl, (ink, h))
ink_word u false true r rest ink h = inl (ink, h)
ink_word u true false r rest ink h = (ink, h)
ink_word u false false r rest ink h = (ink, h)

loop-IsWords :
    (u : Unicode) (p w : Bool) (s : Runes)
    → IsWords u (if w then inside else edge) (normalize_loop u p w s)
unfolding normalize_loop
loop-IsWords u p true [] = tt
loop-IsWords u p false [] = tt
loop-IsWords u p w (r ∷ rs) = elim (Bool-cases (is_zero_width r)) [
  | inl z ↦ rw (loop_hidden u p w r rs z) (loop-IsWords u p w rs)
  | inr n ↦ elim (Bool-cases (u.is_space r)) [
    | inl b ↦ rw (loop_space u p w r rs n b) (loop-IsWords u true w rs)
    | inr k ↦
        rw (loop_ink u p w r rs (ground arith))
          (ink_word u p w r _ (ground arith) (loop-IsWords u false true rs))
  ]
]

-- A normalised text has no blank at either end, no two in a row, and no other space or invisible
-- rune.
pub normalize-IsWords : (u : Unicode) (s : Runes) → IsWords u edge (normalize u s)
unfolding normalize
normalize-IsWords u s = loop-IsWords u false false (u.to_lower s)

-- What the loop makes of such a text: itself, whatever blank was pending before its first word.
abbrev Fixed : Unicode → Place → Runes → Type 0
Fixed u edge s = (p : Bool) → normalize_loop u p false s ≡ s
Fixed u inside s = normalize_loop u false true s ≡ s
Fixed u gap s = normalize_loop u true true s ≡ blank ∷ s

IsWords-Fixed :
    (u : Unicode) (at : Place) (s : Runes) → u.is_space blank ≡ true → IsWords u at s → Fixed u at s
unfolding is_zero_width
IsWords-Fixed u edge [] b h = λ p. unfold normalize_loop in refl
IsWords-Fixed u inside [] b h = unfold normalize_loop in refl
IsWords-Fixed u gap [] b h = absurd h
IsWords-Fixed u edge (r ∷ rs) b (ink, h) =
    λ p. ground (arith, loop_ink u p false r rs ink, IsWords-Fixed u inside rs b h)
IsWords-Fixed u gap (r ∷ rs) b (ink, h) =
    ground (arith, loop_ink u true true r rs ink, IsWords-Fixed u inside rs b h)
IsWords-Fixed u inside (r ∷ rs) b (inl (ink, h)) =
    ground (arith, loop_ink u false true r rs ink, IsWords-Fixed u inside rs b h)
IsWords-Fixed u inside (r ∷ rs) b (inr (e, h)) =
    rw e (loop_space u false true blank rs refl b ∙ IsWords-Fixed u gap rs b h)

abbrev AllFixed : (ℕ → ℕ) → Runes → Type 0
AllFixed f [] = Unit
AllFixed f (r ∷ rs) = (f r ≡ r) × AllFixed f rs

AllFixed-map : (f : ℕ → ℕ) (s : Runes) → AllFixed f s → map f s ≡ s
AllFixed-map f [] h = refl
AllFixed-map f (r ∷ rs) (e, h) = rw (e, AllFixed-map f rs h)

loop-AllFixed :
    (u : Unicode) (law : IsRunewise u) (p w : Bool) (s : Runes)
    → AllFixed law.lower (normalize_loop u p w (map law.lower s))
loop-AllFixed u law p w [] = unfold normalize_loop in tt
loop-AllFixed u law p w (r ∷ rs) = elim (Bool-cases (is_zero_width (law.lower r))) [
  | inl z ↦ rw (loop_hidden u p w (law.lower r) (map law.lower rs) z) (loop-AllFixed u law p w rs)
  | inr n ↦ elim (Bool-cases (u.is_space (law.lower r))) [
    | inl b ↦
        rw (loop_space u p w (law.lower r) (map law.lower rs) n b) (loop-AllFixed u law true w rs)
    | inr k ↦
        rw (loop_ink u p w (law.lower r) (map law.lower rs) (ground arith))
          (copy p w _ (loop-AllFixed u law false true rs))
  ]
]
  where
    copy :
        (p w : Bool) (rest : Runes)
        → AllFixed law.lower rest
        → AllFixed law.lower (if p && w then blank ∷ law.lower r ∷ rest else law.lower r ∷ rest)
    copy true true rest h = (law.lower-blank, (law.lower-lower r, h))
    copy true false rest h = (law.lower-lower r, h)
    copy false w rest h = (law.lower-lower r, h)

normalize-AllFixed :
    (u : Unicode) (s : Runes) (law : IsRunewise u) → AllFixed law.lower (normalize u s)
unfolding normalize
normalize-AllFixed u s law = rw (law.to_lower-map s) (loop-AllFixed u law false false s)

-- Where ToLower goes rune by rune as IsRunewise says, normalising twice is normalising once.
pub normalize-normalize :
    (u : Unicode) (s : Runes) → IsRunewise u → normalize u (normalize u s) ≡ normalize u s
unfolding normalize
normalize-normalize u s law =
    ap (normalize_loop u false false) (
      law.to_lower-map (normalize u s)
      ∙ AllFixed-map law.lower (normalize u s) (normalize-AllFixed u s law))
    ∙ IsWords-Fixed u edge (normalize u s) law.blank-space (normalize-IsWords u s) false
