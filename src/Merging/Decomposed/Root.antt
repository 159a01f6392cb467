-- ===== src/Merging/Decomposed/Root.antt =====
-- The whole of `mergestore_scalar_decomposed` on the streams of the two nodes.
use hashing_old_archive.Prelude.{
  ℕ, suc, ◌+◌, ◌^◌, ◌<◌, ◌≡◌, refl, Bool, true, false, [], some, ◌==◌, ◌&&◌, not, ltb, arith,
  Bool-cases, inl, inr, ◌⊎◌,
}
use hashing_old_archive.Merging.{Relation}
use hashing_old_archive.Merging.Ring.{MergeNode}
use hashing_old_archive.Merging.Ring.Window.{wrapped}
use hashing_old_archive.Merging.Ring.Steps.{IsRing, tuples}
use hashing_old_archive.Merging.Kernels.Streams.{Taken, taken_none, taken_then}
use hashing_old_archive.Merging.Kernels.First.{stream-nil}
use hashing_old_archive.Merging.Kernels.Idle.{Ends-IsIdle}
use hashing_old_archive.Merging.Kernels.Store.{Stores, right_out, left_out, taken_right, taken_left}
use hashing_old_archive.Merging.Kernels.Root.{or_write-Stores}
use hashing_old_archive.Merging.Decomposed.Fill.{wraps}
use hashing_old_archive.Merging.Decomposed.Parts.{Reader, new_reader}
use hashing_old_archive.Merging.Decomposed.Output.{
  store_children, store_nodes, mergestore_scalar_decomposed,
}
use hashing_old_archive.Merging.Decomposed.Readers.{IsReader, new_reader-IsReader}
use hashing_old_archive.Merging.Decomposed.Store.{store_parts-Writes, writes_to}
use hashing_old_archive.Merging.Decomposed.Empty.{store_child-Emptied}

module _ {ℓ} {V : Type ℓ} (f : ℕ) (after_r after_l : Relation V) where
  -- When both nodes have ended, all they hold is written.
  store_children-Taken :
      (r l : Reader V)
      → f < 2 ^ 31
      → IsReader f r
      → IsReader f l
      → (r.node.count ≡ 0) ⊎ (l.node.count ≡ 0)
      → after_r ≡ []
      → after_l ≡ []
      → (a : Taken f after_r after_l r.node l.node) × (store_children f r l
          ≡ some (a.taken, a.right', a.left'))
        × ((a.right'.count ≡ 0) × (a.left'.count ≡ 0))
  unfolding store_children
  store_children-Taken r l fit ir il reason no_r no_l = elim (Bool-cases (ltb 0 r.node.count)) [
    | inl e ↦
        let (right', runs, rr', empty) =
          store_child-Emptied f r.node r.index r.end r.wraps fit ir (ground arith) in
        let no_left : l.node.count ≡ 0 = ground arith in
        (
          taken_right f (wrapped f) (wraps f) after_r after_l r.node l.node right' (tuples f r.node)
              rr' il.ring (omega arith)
              (right_out f (wrapped f) (wraps f) after_r after_l r.node l.node right' rr' empty
                (stream-nil f l.node after_l il.ring no_left no_l)),
          rw (e, runs) refl,
          (empty, no_left),
        )
    | inr e ↦
        let no_right : r.node.count ≡ 0 = ground arith in
        elim (Bool-cases (ltb 0 l.node.count)) [
          | inl e' ↦
              let (left', runs, rl', empty) =
                store_child-Emptied f l.node l.index l.end l.wraps fit il (ground arith) in
              (
                taken_left f (wrapped f) (wraps f) after_r after_l r.node l.node left'
                    (tuples f l.node) ir.ring rl' (omega arith)
                    (left_out f (wrapped f) (wraps f) after_r after_l r.node l.node left' rl' empty
                      (stream-nil f r.node after_r ir.ring no_right no_r)),
                rw (e, e', runs) refl,
                (no_right, empty),
              )
          | inr e' ↦ (
            taken_none f after_r after_l r.node l.node ir.ring il.ring,
            rw (e, e') refl,
            (no_right, ground arith),
          )
        ]
  ]

  store_nodes-Stores :
      (right left : MergeNode V) (rightdone leftdone : Bool)
      → f < 2 ^ 31
      → IsRing f right
      → IsRing f left
      → (rightdone ≡ true → after_r ≡ [])
      → (leftdone ≡ true → after_l ≡ [])
      → ((rightdone && right.count == 0) && (not leftdone && ltb 0 left.count)) ≡ false
      → ((leftdone && left.count == 0) && (not rightdone && ltb 0 right.count)) ≡ false
      → Stores f
          (wrapped f)
          (wraps f)
          after_r
          after_l
          rightdone
          leftdone
          (store_nodes f (rightdone && leftdone) right left)
          right
          left
  unfolding store_nodes new_reader
  store_nodes-Stores right left rightdone leftdone fit rr rl no_r no_l no_left no_right =
      let (a, runs, end) =
        store_parts-Writes f after_r after_l (suc (right.count + left.count)) (new_reader f right)
          (new_reader f left) (new_reader-IsReader f right rr) (new_reader-IsReader f left rl)
          (omega arith) in
      let (_, r', l') = writes_to f after_r after_l (new_reader f right) (new_reader f left) a in
      elim (Bool-cases (rightdone && leftdone)) [
        | inl e ↦
            let (b, runs', empty) =
              store_children-Taken r' l' fit a.right_reader a.left_reader end (no_r (ground arith))
                (no_l (ground arith)) in
            let all = taken_then f after_r after_l a.taken b in
            (
              all,
              rw (runs, e, runs') refl,
              inr empty,
              Ends-IsIdle f after_r after_l right left rightdone leftdone rr rl all (inl empty)
                  no_left no_right,
            )
        | inr e ↦ (
          a.taken,
          rw (runs, e) refl,
          inl e,
          Ends-IsIdle f after_r after_l right left rightdone leftdone rr rl a.taken (inr (e, end))
              no_left no_right,
        )
      ]

  -- The output gains the front of the merge of both streams, whichever branch is taken, without an access
  -- out of range and within the rounds, and both nodes are empty if both are done. The rings have fewer
  -- than 2 ^ 31 slots, and a node that is done gets no more tuples. If it takes no tuple, then one node is
  -- empty and not done, or both are empty.
  pub mergestore_scalar_decomposed-Stores :
      (right left : MergeNode V) (rightdone leftdone : Bool)
      → f < 2 ^ 31
      → IsRing f right
      → IsRing f left
      → (rightdone ≡ true → after_r ≡ [])
      → (leftdone ≡ true → after_l ≡ [])
      → Stores f
          (wrapped f)
          (wraps f)
          after_r
          after_l
          rightdone
          leftdone
          (mergestore_scalar_decomposed f right left rightdone leftdone)
          right
          left
  unfolding mergestore_scalar_decomposed
  mergestore_scalar_decomposed-Stores right left rightdone leftdone fit rr rl no_r no_l =
      or_write-Stores f (wrapped f) (wraps f) after_r after_l right left rightdone leftdone _ fit rr
        rl no_r no_l (store_nodes-Stores right left rightdone leftdone fit rr rl no_r no_l)
