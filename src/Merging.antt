-- ===== src/Merging.antt =====
-- Merging of sorted runs, from learned_models/learned_imv_threaded_hashing/include/utils: tuples of
-- data_structures.h, the scalar merge of eth_avx_merge/merge.h, and the multi-way merge of
-- eth_avx_merge/scalar_multiwaymerge.h.
pub mod Reference
pub mod Scalar
pub mod Ring
pub mod Copy
pub mod Kernels
pub mod Decomposed
pub mod Multiway
mod Tests
use hashing_old_archive.Prelude.{ℕ, List, Option, none, some}

pub record Tuple {ℓ} (V : Type ℓ) : Type ℓ where
  pub key : ℕ
  pub payload : V

-- A run of `num_tuples` tuples from the pointer on.
abbrev pub Relation {ℓ} : Type ℓ → Type ℓ
Relation V = List (Tuple V)

-- A chain of steps, which ends at an access out of range.
infixl 1 ◌>>=◌
abbrev pub ◌>>=◌ {ℓ κ} : {A : Type ℓ} {B : Type κ} → Option A → (A → Option B) → Option B
none >>= f = none
some x >>= f = f x
