-- ===== src/Outcome.antt =====
-- A result, or the error that a function returns in its place.
pub data Outcome {ℓ} (E A : Type ℓ) : Type ℓ where
  ok : A → Outcome E A
  err : E → Outcome E A
