-- ===== src/Wire/Outcome.antt =====
-- Results of code that works on raw memory.

-- `fault` is a read of a byte that was never written, or an access outside the allocation; `hang` is a
-- loop that never ends.
pub data Outcome {ℓ} (A : Type ℓ) : Type ℓ where
  ok : A → Outcome A
  fault : Outcome A
  hang : Outcome A

infixl 5 ◌>>=◌
abbrev pub ◌>>=◌ {ℓ κ} : {A : Type ℓ} {B : Type κ} → Outcome A → (A → Outcome B) → Outcome B
ok a >>= f = f a
fault >>= f = fault
hang >>= f = hang
