-- ===== src/Merging/Kernels/Loops.antt =====
-- The loops of `merge_scalar` together, on the streams of the children.
use hashing_old_archive.Prelude.{
  ℕ, ◌+◌, ◌-◌, ◌<◌, ◌≡◌, refl, Bool, true, [], some, arith, Bool-cases, inl, inr, ◌⊎◌,
}
use hashing_old_archive.Merging.{Relation}
use hashing_old_archive.Merging.Ring.{MergeNode}
use hashing_old_archive.Merging.Ring.Window.{wrapped}
use hashing_old_archive.Merging.Ring.Steps.{IsRing}
use hashing_old_archive.Merging.Kernels.{drain_both, merge_loops}
use hashing_old_archive.Merging.Kernels.Streams.{Merged, merged_then, merged_right, merged_left}
use hashing_old_archive.Merging.Kernels.Merge.{drain-Moves, merge_both-Merged}
use hashing_old_archive.Merging.Kernels.Idle.{Ends}
use hashing_old_archive.Merging.Kernels.First.{right_first, left_first, stream-nil}

module _ {ℓ} {V : Type ℓ} (f : ℕ) (next : ℕ → ℕ)
    (law : (index : ℕ) → index < f → next index ≡ wrapped f index)
    (after_r after_l : Relation V) where
  drain_both-Merged :
      (slots : ℕ) (node right left : MergeNode V)
      → IsRing f node
      → IsRing f right
      → IsRing f left
      → node.count + slots ≡ f
      → (slots ≡ 0) ⊎ ((right.count ≡ 0) ⊎ (left.count ≡ 0))
      → after_r ≡ []
      → after_l ≡ []
      → (a : Merged f after_r after_l node right left) × (drain_both next slots node right left
          ≡ some (a.node', a.children.right', a.children.left'))
        × ((a.node'.count ≡ f) ⊎ ((a.children.right'.count ≡ 0) × (a.children.left'.count ≡ 0)))
  unfolding drain_both
  drain_both-Merged slots node right left rn rr rl whole reason no_r no_l =
      let (n, m, slots', runs, end, sum) = drain-Moves f next law slots node right rn rr whole in
      let (n', m', slots'', runs', end', sum') =
        drain-Moves f next law slots' m.dest' left m.dest_ring rl (omega (arith, m.dest_count)) in
      let first = merged_right f after_r after_l n node right left rr rl m (
        right_first f after_r after_l n node right left rr m (elim reason [
          | inl none_free ↦ inl (omega arith)
          | inr (inl no_right) ↦ inl (omega (arith, m.src_count))
          | inr (inr no_left) ↦ inr (stream-nil f left after_l rl no_left no_l)
        ])) in
      let second = merged_left f after_r after_l n' m.dest' m.src' left m.src_ring rl m' (
        left_first f after_r after_l n' m.dest' m.src' left rl m' (elim end [
          | inl none_free ↦ inl (omega arith)
          | inr no_right ↦ inr (stream-nil f m.src' after_r m.src_ring no_right no_r)
        ])) in
      (
        merged_then f after_r after_l first second,
        rw (runs, runs') refl,
        elim end' [
          | inl none_free ↦ inl (omega (arith, m'.dest_count, m.dest_count))
          | inr no_left ↦ elim end [
            | inl none_free ↦ inl (omega (arith, m'.dest_count, m.dest_count))
            | inr no_right ↦ inr (no_right, no_left)
          ]
        ],
      )

  -- Where the loops end: the node is full, or its children have nothing to give.
  abbrev pub LoopsEnd : Bool → MergeNode V → MergeNode V → MergeNode V → Type 0
  LoopsEnd done node right left = (node.count ≡ f) ⊎ Ends done right left

  pub merge_loops-Merged :
      (done : Bool) (node right left : MergeNode V)
      → IsRing f node
      → IsRing f right
      → IsRing f left
      → (done ≡ true → after_r ≡ [])
      → (done ≡ true → after_l ≡ [])
      → (a : Merged f after_r after_l node right left) × (merge_loops next f done node right left
          ≡ some (a.node', a.children.right', a.children.left'))
        × LoopsEnd done a.node' a.children.right' a.children.left'
  unfolding merge_loops
  merge_loops-Merged done node right left rn rr rl no_r no_l =
      let (a, slots, runs, whole, end) =
        merge_both-Merged f next law after_r after_l (f - node.count) node right left rn rr rl
          (omega (arith, rn.bounded)) in
      elim (Bool-cases done) [
        | inl e ↦
            let (b, runs', end') =
              drain_both-Merged slots a.node' a.children.right' a.children.left' a.ring
                a.children.right_ring a.children.left_ring whole end (no_r e) (no_l e) in
            (
              merged_then f after_r after_l a b,
              rw (runs, e) runs',
              elim end' [ inl full ↦ inl full | inr empty ↦ inr (inl empty) ],
            )
        | inr e ↦ (
          a,
          rw (runs, e) refl,
          elim end [
            | inl none_free ↦ inl (omega (arith, whole))
            | inr empty ↦ inr (inr (e, empty))
          ],
        )
      ]
