-- ===== src/Merging/Decomposed/Node.antt =====
-- The whole of `merge_scalar_decomposed` on the streams of the children.
use hashing_old_archive.Prelude.{
  ℕ, suc, ◌+◌, ◌^◌, ◌<◌, ◌≡◌, refl, Bool, true, false, [], some, ◌==◌, ◌&&◌, not, ltb, arith,
  Bool-cases, inl, inr, ◌⊎◌, lt_cases, length,
}
use hashing_old_archive.Merging.{Relation}
use hashing_old_archive.Merging.Ring.{MergeNode}
use hashing_old_archive.Merging.Ring.Window.{wrapped}
use hashing_old_archive.Merging.Ring.Steps.{IsRing}
use hashing_old_archive.Merging.Kernels.Streams.{
  Merged, merged_none, merged_then, merged_right, merged_left, moved_length,
}
use hashing_old_archive.Merging.Kernels.First.{right_first, left_first, stream-nil}
use hashing_old_archive.Merging.Kernels.Idle.{Ends-IsIdle}
use hashing_old_archive.Merging.Kernels.Node.{Merges, or_copy-Merges}
use hashing_old_archive.Merging.Decomposed.Fill.{wraps}
use hashing_old_archive.Merging.Decomposed.Parts.{
  Reader, new_reader, new_writer, drain_children, merge_children, merge_scalar_decomposed,
}
use hashing_old_archive.Merging.Decomposed.Readers.{IsReader, new_reader-IsReader}
use hashing_old_archive.Merging.Decomposed.Writers.{new_writer-IsWriter}
use hashing_old_archive.Merging.Decomposed.Chunks.{result, merge_parts-Run}
use hashing_old_archive.Merging.Decomposed.Turns.{drain_child-Moves}

not_done :
    {f : ℕ} (done : Bool) (count : ℕ) → (done && ltb count f) ≡ false → count < f → done ≡ false
not_done done count e lt = ground arith

module _ {ℓ} {V : Type ℓ} (f : ℕ) (after_r after_l : Relation V) where
  -- When both children have ended, the tuples of the one that still has some move on.
  drain_children-Merged :
      (node : MergeNode V) (r l : Reader V)
      → f < 2 ^ 31
      → IsRing f node
      → node.count < f
      → IsReader f r
      → IsReader f l
      → (r.node.count ≡ 0) ⊎ (l.node.count ≡ 0)
      → after_r ≡ []
      → after_l ≡ []
      → (a : Merged f after_r after_l node r.node l.node) × (drain_children f node r l
          ≡ some (a.node', a.children.right', a.children.left'))
        × ((0 < length a.children.taken) ⊎ ((r.node.count ≡ 0) × (l.node.count ≡ 0)))
  unfolding drain_children
  drain_children-Merged node r l fit rn room ir il reason no_r no_l =
      elim (Bool-cases (ltb 0 r.node.count)) [
        | inl e ↦
            let (n, m, runs, moved) =
              drain_child-Moves f node r.node r.index r.end r.wraps fit rn room ir (ground arith) in
            let no_left : l.node.count ≡ 0 = ground arith in
            (
              merged_right f after_r after_l n node r.node l.node ir.ring il.ring m (
                  right_first f after_r after_l n node r.node l.node ir.ring m
                    (inr (stream-nil f l.node after_l il.ring no_left no_l))),
              rw (e, runs) refl,
              inl (omega (arith, moved_length f after_r after_l n node r.node ir.ring m)),
            )
        | inr e ↦
            let no_right : r.node.count ≡ 0 = ground arith in
            elim (Bool-cases (ltb 0 l.node.count)) [
              | inl e' ↦
                  let (n, m, runs, moved) =
                    drain_child-Moves f node l.node l.index l.end l.wraps fit rn room il
                      (ground arith) in
                  (
                    merged_left f after_r after_l n node r.node l.node ir.ring il.ring m (
                        left_first f after_r after_l n node r.node l.node il.ring m
                          (inr (stream-nil f r.node after_r ir.ring no_right no_r))),
                    rw (e, e', runs) refl,
                    inl (omega (arith, moved_length f after_r after_l n node l.node il.ring m)),
                  )
              | inr e' ↦ (
                merged_none f after_r after_l node r.node l.node rn ir.ring il.ring,
                rw (e, e') refl,
                inr (no_right, ground arith),
              )
            ]
      ]

  merge_children-Merges :
      (node right left : MergeNode V) (rightdone leftdone : Bool)
      → f < 2 ^ 31
      → IsRing f node
      → IsRing f right
      → IsRing f left
      → node.count < f
      → (rightdone ≡ true → after_r ≡ [])
      → (leftdone ≡ true → after_l ≡ [])
      → ((rightdone && right.count == 0) && (not leftdone && ltb 0 left.count)) ≡ false
      → ((leftdone && left.count == 0) && (not rightdone && ltb 0 right.count)) ≡ false
      → Merges f
          (wrapped f)
          (wraps f)
          after_r
          after_l
          rightdone
          leftdone
          (merge_children f (rightdone && leftdone) node right left)
          node
          right
          left
  unfolding merge_children new_writer new_reader
  merge_children-Merges node right left rightdone leftdone fit rn rr rl room no_r no_l no_left
        no_right =
      let (a, runs, end) =
        merge_parts-Run f after_r after_l (suc (right.count + left.count)) (new_writer f node)
          (new_reader f right) (new_reader f left) (new_writer-IsWriter f node rn)
          (new_reader-IsReader f right rr) (new_reader-IsReader f left rl) (omega arith) in
      let (w', r', l') =
        result f after_r after_l (new_writer f node) (new_reader f right) (new_reader f left) a in
      let m = a.merged in
      elim (Bool-cases ((rightdone && leftdone) && ltb m.node'.count f)) [
        | inl e ↦
            let (b, runs', moved) =
              drain_children-Merged m.node' r' l' fit m.ring (ground arith) a.right_reader
                a.left_reader (elim end [ inl full ↦ absurd (ground arith) | inr empty ↦ empty ])
                (no_r (ground arith)) (no_l (ground arith)) in
            let all = merged_then f after_r after_l m b in
            (
              all,
              rw (runs, e) runs',
              elim moved [
                | inl some_moved ↦ inl (omega (arith, all.count, m.count, b.count))
                | inr empty ↦
                    Ends-IsIdle f after_r after_l right left rightdone leftdone rr rl all.children
                      (inl (
                        omega (arith, b.children.right_less, empty.0),
                        omega (arith, b.children.left_less, empty.1),
                      ))
                      no_left no_right
              ],
            )
        | inr e ↦ (
          m,
          rw (runs, e) refl,
          elim (lt_cases m.node'.count f) [
            | inr full ↦ inl (omega (arith, m.count))
            | inl less ↦
                Ends-IsIdle f after_r after_l right left rightdone leftdone rr rl m.children
                  (inr (
                    not_done (rightdone && leftdone) m.node'.count e less,
                    elim end [ inl full ↦ absurd (omega arith) | inr empty ↦ empty ],
                  ))
                  no_left no_right
          ],
        )
      ]

  -- A node that is not full gains the front of the merge of its children's streams, whichever branch is
  -- taken, and its children lose it, without an access out of range and within the rounds. The rings have
  -- fewer than 2 ^ 31 slots, and a child that is done gets no more tuples. If it takes no tuple, then one
  -- child is empty and not done, or both are empty.
  pub merge_scalar_decomposed-Merges :
      (node right left : MergeNode V) (rightdone leftdone : Bool)
      → f < 2 ^ 31
      → IsRing f node
      → IsRing f right
      → IsRing f left
      → node.count < f
      → (rightdone ≡ true → after_r ≡ [])
      → (leftdone ≡ true → after_l ≡ [])
      → Merges f
          (wrapped f)
          (wraps f)
          after_r
          after_l
          rightdone
          leftdone
          (merge_scalar_decomposed f node right left rightdone leftdone)
          node
          right
          left
  unfolding merge_scalar_decomposed
  merge_scalar_decomposed-Merges node right left rightdone leftdone fit rn rr rl room no_r no_l =
      or_copy-Merges f (wrapped f) (wraps f) after_r after_l node right left rightdone leftdone _
        fit rn rr rl room no_r no_l
        (merge_children-Merges node right left rightdone leftdone fit rn rr rl room no_r no_l)
