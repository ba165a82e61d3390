-- ===== src/Answer.antt =====
-- How an awaited call ends: with a value, or with a thrown error.
use blend_posv.Prelude.{Option}
use blend_posv.Text.{Text}

-- The text is `err.message`, and `none` where what was thrown is no `Error`.
pub data Answer {ℓ} (A : Type ℓ) : Type ℓ where
  ok : A → Answer A
  thrown : Option Text → Answer A
