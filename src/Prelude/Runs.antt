-- ===== src/Prelude/Runs.antt =====
-- How a loop ends: with a result, in a failed assertion, or out of the rounds that it was given.

pub data Run {ℓ} (A : Type ℓ) : Type ℓ where
  done : A → Run A
  aborted : Run A
  out_of_rounds : Run A
