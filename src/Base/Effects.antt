-- ===== src/Base/Effects.antt =====
-- Results of fallible calls, and state passing with panics.

-- A Go call that may panic: a nil dereference, a failed type assertion, an index out of range.
pub data Outcome {ℓ} (A : Type ℓ) : Type ℓ where
  returned : A → Outcome A
  panicked : Outcome A

-- A call that reads and writes a state. What was written before a panic stays written.
abbrev pub Exec {ℓ} : Type ℓ → Type ℓ → Type ℓ
Exec S A = S → Outcome A × S

abbrev pub pure {ℓ} : {S A : Type ℓ} → A → Exec S A
pure a s = (returned a, s)

abbrev pub panic {ℓ} : {S A : Type ℓ} → Exec S A
panic s = (panicked, s)

abbrev pub continue {ℓ} : {S A B : Type ℓ} → Outcome A → (A → Exec S B) → Exec S B
continue (returned a) f s = f a s
continue panicked f s = (panicked, s)

infixl 10 ◌>>=◌ ◌>>◌
abbrev pub ◌>>=◌ {ℓ} : {S A B : Type ℓ} → Exec S A → (A → Exec S B) → Exec S B
◌>>=◌ m f s = let (r, s') = m s in continue r f s'

abbrev pub ◌>>◌ {ℓ} : {S A B : Type ℓ} → Exec S A → Exec S B → Exec S B
m >> n = m >>= λ _. n
