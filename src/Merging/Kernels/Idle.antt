-- ===== src/Merging/Kernels/Idle.antt =====
-- When a merge takes nothing from its two children.
use hashing_old_archive.Prelude.{
  ℕ, ◌+◌, ◌<◌, ◌≡◌, Bool, false, ◌==◌, ◌&&◌, ◌++◌, not, ltb, arith, inl, inr, ap, ◌⊎◌, length,
  length-append, lt_cases,
}
use hashing_old_archive.Merging.{Relation}
use hashing_old_archive.Merging.Reference.{length-merge}
use hashing_old_archive.Merging.Ring.{MergeNode}
use hashing_old_archive.Merging.Ring.Steps.{IsRing, tuples, length-tuples}
use hashing_old_archive.Merging.Kernels.Streams.{both, Taken}

module _ {ℓ} {V : Type ℓ} where
  -- Both are empty, or one of them is empty and may still get tuples.
  abbrev pub IsIdle : Bool → Bool → MergeNode V → MergeNode V → Type 0
  IsIdle rightdone leftdone right left =
      ((right.count ≡ 0) × (left.count ≡ 0))
      ⊎ (((right.count ≡ 0) × (rightdone ≡ false)) ⊎ ((left.count ≡ 0) × (leftdone ≡ false)))

  -- Where a merge without free slots to wait for ends.
  abbrev pub Ends : Bool → MergeNode V → MergeNode V → Type 0
  Ends done right left =
      ((right.count ≡ 0) × (left.count ≡ 0))
      ⊎ ((done ≡ false) × ((right.count ≡ 0) ⊎ (left.count ≡ 0)))

  module _ (f : ℕ) (after_r after_l : Relation V) where
    -- What is taken is what the children lose.
    pub taken-count :
        (right left : MergeNode V)
        → IsRing f right
        → IsRing f left
        → (a : Taken f after_r after_l right left)
        → a.right'.count + a.left'.count + length a.taken ≡ right.count + left.count
    taken-count right left rr rl a = omega (
      arith,
      ap length a.stream,
      length-append a.taken (both f after_r after_l a.right' a.left'),
      length-merge (tuples f right ++ after_r) (tuples f left ++ after_l),
      length-merge (tuples f a.right' ++ after_r) (tuples f a.left' ++ after_l),
      length-append (tuples f right) after_r,
      length-append (tuples f left) after_l,
      length-append (tuples f a.right') after_r,
      length-append (tuples f a.left') after_l,
      length-tuples f right rr,
      length-tuples f left rl,
      length-tuples f a.right' a.right_ring,
      length-tuples f a.left' a.left_ring,
    )

    -- Unless one child has ended and is empty while the other one has not ended and holds tuples.
    pub Ends-IsIdle :
        (right left : MergeNode V) (rightdone leftdone : Bool)
        → IsRing f right
        → IsRing f left
        → (a : Taken f after_r after_l right left) → Ends (rightdone && leftdone) a.right' a.left'
        → ((rightdone && right.count == 0) && (not leftdone && ltb 0 left.count)) ≡ false
        → ((leftdone && left.count == 0) && (not rightdone && ltb 0 right.count)) ≡ false
        → (0 < length a.taken) ⊎ IsIdle rightdone leftdone right left
    Ends-IsIdle right left rightdone leftdone rr rl a end no_left no_right =
        elim (lt_cases 0 (length a.taken)) [
          | inl taken ↦ inl taken
          | inr nothing ↦ inr (
              ground (
                arith,
                taken-count right left rr rl a,
                a.right_less,
                a.left_less,
                end,
                no_left,
                no_right,
              ))
        ]
