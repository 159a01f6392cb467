-- ===== src/Merging/Multiway/Variants.antt =====
-- The kernels of the three variants keep what is promised of a variant.
use hashing_old_archive.Prelude.{ℕ, ◌^◌, ◌<◌, ◌≡◌, ◌∙◌, sym, arith}
use hashing_old_archive.Merging.Ring.{next_modulo, next_bitand}
use hashing_old_archive.Merging.Ring.Window.{wrapped, next_modulo-wrapped, next_bitand-wrapped}
use hashing_old_archive.Merging.Kernels.Variants.{
  readmerge_scalar_modulo, readmerge_scalar_bitand, merge_scalar_modulo, mergestore_scalar_modulo,
  mergestore_scalar_bitand,
}
use hashing_old_archive.Merging.Kernels.Load.{readmerge_scalar-Reads}
use hashing_old_archive.Merging.Kernels.Node.{merge_scalar-Merges}
use hashing_old_archive.Merging.Kernels.Root.{mergestore_scalar-Stores}
use hashing_old_archive.Merging.Decomposed.Load.{readmerge_scalar_decomposed-Reads}
use hashing_old_archive.Merging.Decomposed.Node.{merge_scalar_decomposed-Merges}
use hashing_old_archive.Merging.Decomposed.Root.{mergestore_scalar_decomposed-Stores}
use hashing_old_archive.Merging.Multiway.{modulo, bitand, decomposed}
use hashing_old_archive.Merging.Multiway.State.{IsVariant}

-- On a ring whose size is a power of two below 2 ^ 32, the mask and the remainder move an index on in
-- the same way.
pub next_bitand-next_modulo :
    (k index : ℕ)
    → 2 ^ k < 2 ^ 32
    → index < 2 ^ k
    → next_bitand (2 ^ k) index ≡ next_modulo (2 ^ k) index
next_bitand-next_modulo k index fit lt =
    next_bitand-wrapped k index fit lt ∙ sym (next_modulo-wrapped (2 ^ k) index fit lt)

module _ {ℓ} {V : Type ℓ} where
  pub modulo-IsVariant : (f : ℕ) → f < 2 ^ 31 → IsVariant {V = V} f (modulo f)
  unfolding modulo readmerge_scalar_modulo merge_scalar_modulo mergestore_scalar_modulo
  modulo-IsVariant f fit =
      let law : (index : ℕ) → index < f → next_modulo f index ≡ wrapped f index =
        λ index lt. next_modulo-wrapped f index (omega arith) lt in
      record {
        reads = λ node xs ys r room. readmerge_scalar-Reads f (next_modulo f) law node xs ys r;
        merges = λ after_r after_l node right left rd ld rn rr rl room no_r no_l.
            merge_scalar-Merges f (next_modulo f) law after_r after_l node right left rd ld fit rn
              rr rl room no_r no_l;
        stores = λ after_r after_l right left rd ld rr rl no_r no_l.
            mergestore_scalar-Stores f (next_modulo f) law after_r after_l right left rd ld fit rr
              rl no_r no_l;
      }

  pub bitand-IsVariant : (k : ℕ) → 2 ^ k < 2 ^ 31 → IsVariant {V = V} (2 ^ k) (bitand (2 ^ k))
  unfolding bitand readmerge_scalar_bitand merge_scalar_modulo mergestore_scalar_bitand
  bitand-IsVariant k fit =
      let law : (index : ℕ) → index < 2 ^ k → next_modulo (2 ^ k) index ≡ wrapped (2 ^ k) index =
        λ index lt. next_modulo-wrapped (2 ^ k) index (omega arith) lt in
      let law' : (index : ℕ) → index < 2 ^ k → next_bitand (2 ^ k) index ≡ wrapped (2 ^ k) index =
        λ index lt. next_bitand-wrapped k index (omega arith) lt in
      record {
        reads = λ node xs ys r room.
            readmerge_scalar-Reads (2 ^ k) (next_bitand (2 ^ k)) law' node xs ys r;
        merges = λ after_r after_l node right left rd ld rn rr rl room no_r no_l.
            merge_scalar-Merges (2 ^ k) (next_modulo (2 ^ k)) law after_r after_l node right left rd
              ld fit rn rr rl room no_r no_l;
        stores = λ after_r after_l right left rd ld rr rl no_r no_l.
            mergestore_scalar-Stores (2 ^ k) (next_bitand (2 ^ k)) law' after_r after_l right left
              rd ld fit rr rl no_r no_l;
      }

  pub decomposed-IsVariant : (f : ℕ) → f < 2 ^ 31 → IsVariant {V = V} f (decomposed f)
  unfolding decomposed
  decomposed-IsVariant f fit = record {
    reads = λ node xs ys r room. readmerge_scalar_decomposed-Reads f node xs ys fit r room;
    merges = λ after_r after_l node right left rd ld rn rr rl room no_r no_l.
        merge_scalar_decomposed-Merges f after_r after_l node right left rd ld fit rn rr rl room
          no_r no_l;
    stores = λ after_r after_l right left rd ld rr rl no_r no_l.
        mergestore_scalar_decomposed-Stores f after_r after_l right left rd ld fit rr rl no_r no_l;
  }
