-- ===== src/Moderation/Pipeline/Rules.antt =====
-- How a property of the stages becomes one of their sequence.
use dabet.Prelude.{Bool, true, false, Option, none, some}
use dabet.Prelude.Floats.{Floats}
use dabet.Moderation.Pipeline.State.{Run, M, ◌>>=◌}

-- A stage that returns none has ended the message.
abbrev pub ended {ℓ} : {A : Type ℓ} → Option A → Bool
ended none = true
ended (some a) = false

-- `Inv` holds between the stages, and `Rel` relates the run before and after some of them, with
-- whether they ended the message.
module _ (f : Floats) (Inv : Run f → Type 0) (Rel : Run f → Run f → Bool → Type 0) where
  abbrev pub Sound : {A : Type 0} → M f A → Type 0
  Sound m = (r : Run f) → Inv r → Inv (m r).0 × Rel r (m r).0 (ended (m r).1)

  bind_step :
      {A B : Type 0} (r r' : Run f) (o : Option A) (k : A → M f B)
      → ((s t u : Run f) (b : Bool) → Rel s t false → Rel t u b → Rel s u b)
      → ((a : A) → Sound (k a))
      → Inv r' × Rel r r' (ended o)
      → (let x : Run f × Option B = elim o [ none ↦ (r', none) | some a ↦ k a r' ] in
          Inv x.0 × Rel r x.0 (ended x.1))
  bind_step r r' none k trans next h = h
  bind_step r r' (some a) k trans next (i, rel) =
      let (j, rel') = next a r' i in (j, trans r r' (k a r').0 (ended (k a r').1) rel rel')

  -- Sound stages in a row are sound, where `Rel` composes.
  pub >>=-Sound :
      {A B : Type 0} (m : M f A) (k : A → M f B)
      → ((s t u : Run f) (b : Bool) → Rel s t false → Rel t u b → Rel s u b)
      → Sound m
      → ((a : A) → Sound (k a))
      → Sound (m >>= k)
  >>=-Sound m k trans first next r i = bind_step r (m r).0 (m r).1 k trans next (first r i)

-- A stage that keeps what holds of the run, whether it ends the message or not.
pub record Preserves (f : Floats) (Inv : Run f → Type 0) {A : Type 0} (m : M f A) : Type 0 where
  pub keeps : (r : Run f) → Inv r → Inv (m r).0

module _ {f : Floats} {Inv : Run f → Type 0} where
  pub preserve_step :
      {A B : Type 0} (r' : Run f) (o : Option A) (k : A → M f B)
      → ((a : A) → Preserves f Inv (k a))
      → Inv r'
      → (let x : Run f × Option B = elim o [ none ↦ (r', none) | some a ↦ k a r' ] in Inv x.0)
  preserve_step r' none k next i = i
  preserve_step r' (some a) k next i = (next a).keeps r' i

  pub >>=-Preserves :
      {A B : Type 0} {m : M f A} {k : A → M f B}
      → Preserves f Inv m
      → ((a : A) → Preserves f Inv (k a))
      → Preserves f Inv (m >>= k)
  >>=-Preserves {m = m} {k = k} first next = record {
    keeps = λ r i. preserve_step (m r).0 (m r).1 k next (first.keeps r i);
  }

  pub pass-Preserves : {A : Type 0} (a : A) → Preserves f Inv (λ r. (r, some a))
  pass-Preserves a = record { keeps = λ r i. i }
