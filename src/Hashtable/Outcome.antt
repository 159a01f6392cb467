-- ===== src/Hashtable/Outcome.antt =====
-- How a call of a table's method ends.
pub data Outcome {ℓ} (A : Type ℓ) : Type ℓ where
  -- it returns
  done : A → Outcome A
  -- it throws `std::runtime_error`, before it has written anything
  thrown : Outcome A
  -- it reads an array out of range, which is undefined behaviour
  out_of_range : Outcome A
  -- it did not return within the steps that the model allows
  out_of_fuel : Outcome A

-- An outcome that is ruled out, at every universe level.
pub data Impossible {ℓ} : Type ℓ where
