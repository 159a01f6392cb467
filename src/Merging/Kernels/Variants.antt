-- ===== src/Merging/Kernels/Variants.antt =====
-- The kernels with a remainder and with a mask.
use hashing_old_archive.Prelude.{ℕ, Bool, Option}
use hashing_old_archive.Merging.{Relation}
use hashing_old_archive.Merging.Ring.{MergeNode, next_modulo, next_bitand}
use hashing_old_archive.Merging.Kernels.{readmerge_scalar, merge_scalar, mergestore_scalar}

module _ {ℓ} {V : Type ℓ} where
  unfoldable pub readmerge_scalar_modulo :
      ℕ → MergeNode V → Relation V → Relation V → Option (MergeNode V × Relation V × Relation V × ℕ)
  readmerge_scalar_modulo fifosize = readmerge_scalar (next_modulo fifosize) fifosize

  unfoldable pub readmerge_scalar_bitand :
      ℕ → MergeNode V → Relation V → Relation V → Option (MergeNode V × Relation V × Relation V × ℕ)
  readmerge_scalar_bitand fifosize = readmerge_scalar (next_bitand fifosize) fifosize

  unfoldable pub merge_scalar_modulo :
      ℕ
      → MergeNode V
      → MergeNode V
      → MergeNode V
      → Bool
      → Bool
      → Option (MergeNode V × MergeNode V × MergeNode V)
  merge_scalar_modulo fifosize = merge_scalar (next_modulo fifosize) fifosize

  unfoldable pub merge_scalar_bitand :
      ℕ
      → MergeNode V
      → MergeNode V
      → MergeNode V
      → Bool
      → Bool
      → Option (MergeNode V × MergeNode V × MergeNode V)
  merge_scalar_bitand fifosize = merge_scalar (next_bitand fifosize) fifosize

  unfoldable pub mergestore_scalar_modulo :
      ℕ → MergeNode V → MergeNode V → Bool → Bool → Option (Relation V × MergeNode V × MergeNode V)
  mergestore_scalar_modulo fifosize = mergestore_scalar (next_modulo fifosize) fifosize

  unfoldable pub mergestore_scalar_bitand :
      ℕ → MergeNode V → MergeNode V → Bool → Bool → Option (Relation V × MergeNode V × MergeNode V)
  mergestore_scalar_bitand fifosize = mergestore_scalar (next_bitand fifosize) fifosize
