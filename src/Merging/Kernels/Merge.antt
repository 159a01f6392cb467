-- ===== src/Merging/Kernels/Merge.antt =====
-- The loops of `merge_scalar` on the streams of the children.
use hashing_old_archive.Prelude.{
  ℕ, zero, suc, ◌+◌, ◌<◌, ◌≡◌, refl, some, ◌==◌, ◌||◌, ltb, arith, Bool-cases, inl, inr, ◌⊎◌,
}
use hashing_old_archive.Merging.{Relation}
use hashing_old_archive.Merging.Reference.{merge-less, merge-not-less}
use hashing_old_archive.Merging.Ring.{MergeNode}
use hashing_old_archive.Merging.Ring.Window.{wrapped}
use hashing_old_archive.Merging.Ring.Steps.{IsRing, push-IsRing, advance-IsRing}
use hashing_old_archive.Merging.Copy.Moves.{Moves, moves_none, moves_one, moves_then}
use hashing_old_archive.Merging.Kernels.{merge_both, drain}
use hashing_old_archive.Merging.Kernels.Streams.{
  Merged, merged_none, merged_then, merged_right, merged_left,
}

module _ {ℓ} {V : Type ℓ} (f : ℕ) (next : ℕ → ℕ)
    (law : (index : ℕ) → index < f → next index ≡ wrapped f index) where
  -- A drain moves tuples until the node is full or the child empty.
  pub drain-Moves :
      (slots : ℕ) (node src : MergeNode V)
      → IsRing f node
      → IsRing f src
      → node.count + slots ≡ f
      → (n : ℕ) × (m : Moves f n node src) × (slots' : ℕ) × (drain next slots node src
          ≡ some (slots', m.dest', m.src'))
        × ((slots' ≡ 0) ⊎ (m.src'.count ≡ 0))
        × (n + slots' ≡ slots)
  unfolding drain
  drain-Moves zero node src rn rs whole =
      (0, moves_none f node src rn rs, 0, refl, inl refl, omega arith)
  drain-Moves (suc slots) node src rn rs whole = elim (Bool-cases (src.count == 0)) [
    | inl e ↦ (
      0,
      moves_none f node src rn rs,
      suc slots,
      rw (drain, e) refl,
      inr (ground arith),
      omega arith,
    )
    | inr e ↦
        let some_left : 0 < src.count = ground arith in
        let (x, got, rs', lost) = advance-IsRing f next law src rs some_left in
        let (e', rn', gained, _) = push-IsRing f next law x node rn (omega arith) in
        let one = moves_one f next law node src rn rs x rn' gained rs' lost some_left in
        let (n, m, slots', runs, end, sum) =
          drain-Moves slots one.dest' one.src' rn' rs' (omega arith) in
        (
          suc n,
          moves_then f 1 n (suc n) (omega arith) one rs (omega (arith, m.src_count)) m,
          slots',
          rw (drain, e, drain, got, drain, e') runs,
          end,
          omega arith,
        )
  ]

  module _ (after_r after_l : Relation V) where
    -- The loop runs until the node is full or a child empty.
    pub merge_both-Merged :
        (slots : ℕ) (node right left : MergeNode V)
        → IsRing f node
        → IsRing f right
        → IsRing f left
        → node.count + slots ≡ f
        → (a : Merged f after_r after_l node right left) × (slots' : ℕ) × (merge_both next slots
              node right left
            ≡ some (slots', a.node', a.children.right', a.children.left'))
          × (a.node'.count + slots' ≡ f)
          × ((slots' ≡ 0) ⊎ ((a.children.right'.count ≡ 0) ⊎ (a.children.left'.count ≡ 0)))
    unfolding merge_both
    merge_both-Merged zero node right left rn rr rl whole =
        (merged_none f after_r after_l node right left rn rr rl, 0, refl, whole, inl refl)
    merge_both-Merged (suc slots) node right left rn rr rl whole =
        elim (Bool-cases (right.count == 0 || left.count == 0)) [
          | inl e ↦ (
            merged_none f after_r after_l node right left rn rr rl,
            suc slots,
            rw (merge_both, e) refl,
            whole,
            inr (ground arith),
          )
          | inr e ↦
              let some_r : 0 < right.count = ground arith in
              let some_l : 0 < left.count = ground arith in
              let (a, got_a, rr', lost_a) = advance-IsRing f next law right rr some_r in
              let (b, got_b, rl', lost_b) = advance-IsRing f next law left rl some_l in
              elim (Bool-cases (ltb a.key b.key)) [
                | inl less ↦
                    let (e', rn', gained, _) = push-IsRing f next law a node rn (omega arith) in
                    let one =
                      moves_one f next law node right rn rr a rn' gained rr' lost_a some_r in
                    let step =
                      merged_right f after_r after_l 1 node right left rr rl one
                        (rw (lost_a, lost_b) (merge-less a b _ _ less)) in
                    let (m, slots', runs, whole', end) =
                      merge_both-Merged slots one.dest' one.src' left rn' rr' rl (omega arith) in
                    (
                      merged_then f after_r after_l step m,
                      slots',
                      rw
                          (
                            merge_both, e, merge_both, got_a, merge_both, got_b, merge_both, less,
                            merge_both, e',
                          )
                          runs,
                      whole',
                      end,
                    )
                | inr not_less ↦
                    let (e', rn', gained, _) = push-IsRing f next law b node rn (omega arith) in
                    let one = moves_one f next law node left rn rl b rn' gained rl' lost_b some_l in
                    let step =
                      merged_left f after_r after_l 1 node right left rr rl one
                        (rw (lost_a, lost_b) (merge-not-less a b _ _ not_less)) in
                    let (m, slots', runs, whole', end) =
                      merge_both-Merged slots one.dest' right one.src' rn' rr rl' (omega arith) in
                    (
                      merged_then f after_r after_l step m,
                      slots',
                      rw
                          (
                            merge_both, e, merge_both, got_a, merge_both, got_b, merge_both,
                            not_less, merge_both, e',
                          )
                          runs,
                      whole',
                      end,
                    )
              ]
        ]
