-- ===== src/Merging/Kernels/Node.antt =====
-- The whole of `merge_scalar` on the streams of the children.
use hashing_old_archive.Prelude.{
  ℕ, if◌then◌else◌, ◌^◌, ◌<◌, ◌≡◌, refl, Bool, true, false, [], Option, some, ◌==◌, ◌&&◌, not, ltb,
  arith, Bool-cases, inl, inr, sym, ◌∙◌, ap, ◌⊎◌, length,
}
use hashing_old_archive.Merging.{Relation, ◌>>=◌}
use hashing_old_archive.Merging.Ring.{MergeNode}
use hashing_old_archive.Merging.Ring.Window.{wrapped}
use hashing_old_archive.Merging.Ring.Steps.{IsRing}
use hashing_old_archive.Merging.Copy.{direct_copy}
use hashing_old_archive.Merging.Copy.Direct.{direct_copy-Moves}
use hashing_old_archive.Merging.Kernels.{merge_loops, merge_scalar}
use hashing_old_archive.Merging.Kernels.Streams.{Merged, merged_right, merged_left, moved_length}
use hashing_old_archive.Merging.Kernels.Loops.{merge_loops-Merged}
use hashing_old_archive.Merging.Kernels.Idle.{IsIdle, Ends-IsIdle}
use hashing_old_archive.Merging.Kernels.First.{right_first, left_first, stream-nil}

module _ {ℓ} {V : Type ℓ} (f : ℕ) (next : ℕ → ℕ)
    (law : (index : ℕ) → index < f → next index ≡ wrapped f index)
    (after_r after_l : Relation V) where
  direct_right :
      (node right left : MergeNode V)
      → f < 2 ^ 31
      → IsRing f node
      → IsRing f right
      → IsRing f left
      → node.count < f
      → 0 < right.count
      → left.count ≡ 0
      → after_l ≡ []
      → (a : Merged f after_r after_l node right left) × (direct_copy f node right
          ≡ some (a.node', a.children.right'))
        × (a.children.left' ≡ left)
        × (0 < length a.children.taken)
  direct_right node right left fit rn rr rl room some_left no_left no_l =
      let (n, m, runs, end) = direct_copy-Moves f node right fit rn rr room some_left in
      (
        merged_right f after_r after_l n node right left rr rl m (
            right_first f after_r after_l n node right left rr m
              (inr (stream-nil f left after_l rl no_left no_l))),
        runs,
        refl,
        elim end [
          | inl full ↦ omega (arith, m.dest_count, moved_length f after_r after_l n node right rr m)
          | inr empty ↦ omega (arith, m.src_count, moved_length f after_r after_l n node right rr m)
        ],
      )

  direct_left :
      (node right left : MergeNode V)
      → f < 2 ^ 31
      → IsRing f node
      → IsRing f right
      → IsRing f left
      → node.count < f
      → 0 < left.count
      → right.count ≡ 0
      → after_r ≡ []
      → (a : Merged f after_r after_l node right left) × (direct_copy f node left
          ≡ some (a.node', a.children.left'))
        × (a.children.right' ≡ right)
        × (0 < length a.children.taken)
  direct_left node right left fit rn rr rl room some_left no_right no_r =
      let (n, m, runs, end) = direct_copy-Moves f node left fit rn rl room some_left in
      (
        merged_left f after_r after_l n node right left rr rl m (
            left_first f after_r after_l n node right left rl m
              (inr (stream-nil f right after_r rr no_right no_r))),
        runs,
        refl,
        elim end [
          | inl full ↦ omega (arith, m.dest_count, moved_length f after_r after_l n node left rl m)
          | inr empty ↦ omega (arith, m.src_count, moved_length f after_r after_l n node left rl m)
        ],
      )

  -- What `merge_scalar` does: when it takes nothing, there is nothing to take.
  abbrev pub Merges :
      Bool
      → Bool
      → Option (MergeNode V × MergeNode V × MergeNode V)
      → MergeNode V
      → MergeNode V
      → MergeNode V
      → Type ℓ
  Merges rightdone leftdone result node right left =
      (a : Merged f after_r after_l node right left) × (result
        ≡ some (a.node', a.children.right', a.children.left'))
      × ((0 < length a.children.taken) ⊎ IsIdle rightdone leftdone right left)

  loops-Merges :
      (node right left : MergeNode V) (rightdone leftdone : Bool)
      → IsRing f node
      → IsRing f right
      → IsRing f left
      → node.count < f
      → (rightdone ≡ true → after_r ≡ [])
      → (leftdone ≡ true → after_l ≡ [])
      → ((rightdone && right.count == 0) && (not leftdone && ltb 0 left.count)) ≡ false
      → ((leftdone && left.count == 0) && (not rightdone && ltb 0 right.count)) ≡ false
      → Merges rightdone leftdone
          (merge_loops next f (rightdone && leftdone) node right left)
          node
          right
          left
  loops-Merges node right left rightdone leftdone rn rr rl room no_r no_l no_left no_right =
      let (a, runs, end) =
        merge_loops-Merged f next law after_r after_l (rightdone && leftdone) node right left rn rr
          rl (λ e. no_r (ground arith)) (λ e. no_l (ground arith)) in
      (
        a,
        runs,
        elim end [
          | inl full ↦ inl (omega (arith, a.count))
          | inr ends ↦
              Ends-IsIdle f after_r after_l right left rightdone leftdone rr rl a.children ends
                no_left no_right
        ],
      )

  -- The copy of all a child holds when the other one has ended and is empty, and the loops otherwise.
  abbrev pub or_copy :
      MergeNode V
      → MergeNode V
      → MergeNode V
      → Bool
      → Bool
      → Option (MergeNode V × MergeNode V × MergeNode V)
      → Option (MergeNode V × MergeNode V × MergeNode V)
  or_copy node right left rightdone leftdone loops =
      if rightdone && right.count == 0
      then (if not leftdone && ltb 0 left.count
          then (do (node, left) ← direct_copy f node left; some (node, right, left))
          else loops)
      else if leftdone && left.count == 0
      then (if not rightdone && ltb 0 right.count
          then (do (node, right) ← direct_copy f node right; some (node, right, left))
          else loops)
      else loops

  or_copy-copy_left :
      (node right left : MergeNode V) (rightdone leftdone : Bool)
      (loops : Option (MergeNode V × MergeNode V × MergeNode V)) (node' left' : MergeNode V)
      → (rightdone && right.count == 0) ≡ true
      → (not leftdone && ltb 0 left.count) ≡ true
      → direct_copy f node left ≡ some (node', left')
      → or_copy node right left rightdone leftdone loops ≡ some (node', right, left')
  or_copy-copy_left node right left rightdone leftdone loops node' left' e e' runs =
      rw (e, e', runs) refl

  or_copy-copy_right :
      (node right left : MergeNode V) (rightdone leftdone : Bool)
      (loops : Option (MergeNode V × MergeNode V × MergeNode V)) (node' right' : MergeNode V)
      → (rightdone && right.count == 0) ≡ false
      → (leftdone && left.count == 0) ≡ true
      → (not rightdone && ltb 0 right.count) ≡ true
      → direct_copy f node right ≡ some (node', right')
      → or_copy node right left rightdone leftdone loops ≡ some (node', right', left)
  or_copy-copy_right node right left rightdone leftdone loops node' right' e e' e'' runs =
      rw (e, e', e'', runs) refl

  -- What the loops promise holds with the copies, too.
  pub or_copy-Merges :
      (node right left : MergeNode V) (rightdone leftdone : Bool)
      (loops : Option (MergeNode V × MergeNode V × MergeNode V))
      → f < 2 ^ 31
      → IsRing f node
      → IsRing f right
      → IsRing f left
      → node.count < f
      → (rightdone ≡ true → after_r ≡ [])
      → (leftdone ≡ true → after_l ≡ [])
      → (((rightdone && right.count == 0) && (not leftdone && ltb 0 left.count)) ≡ false
          → ((leftdone && left.count == 0) && (not rightdone && ltb 0 right.count)) ≡ false
          → Merges rightdone leftdone loops node right left)
      → Merges rightdone leftdone (or_copy node right left rightdone leftdone loops) node right left
  or_copy-Merges node right left rightdone leftdone loops fit rn rr rl room no_r no_l promise =
      elim (Bool-cases (rightdone && right.count == 0)) [
        | inl e ↦ elim (Bool-cases (not leftdone && ltb 0 left.count)) [
          | inl e' ↦
              let (a, runs, same, taken) =
                direct_left node right left fit rn rr rl room (ground arith) (ground arith)
                  (no_r (ground arith)) in
              (
                a,
                or_copy-copy_left node right left rightdone leftdone loops _ _ e e' runs
                    ∙ ap (λ r. some (a.node', r, a.children.left')) (sym same),
                inl taken,
              )
          | inr e' ↦ rw (e, e') (promise (ground arith) (ground arith))
        ]
        | inr e ↦ elim (Bool-cases (leftdone && left.count == 0)) [
          | inl e' ↦ elim (Bool-cases (not rightdone && ltb 0 right.count)) [
            | inl e'' ↦
                let (a, runs, same, taken) =
                  direct_right node right left fit rn rr rl room (ground arith) (ground arith)
                    (no_l (ground arith)) in
                (
                  a,
                  or_copy-copy_right node right left rightdone leftdone loops _ _ e e' e'' runs
                      ∙ ap (λ l. some (a.node', a.children.right', l)) (sym same),
                  inl taken,
                )
            | inr e'' ↦ rw (e, e', e'') (promise (ground arith) (ground arith))
          ]
          | inr e' ↦ rw (e, e') (promise (ground arith) (ground arith))
        ]
      ]

  -- A node that is not full gains the front of the merge of its children's streams, whichever branch is
  -- taken, and its children lose it, without an access out of range. The rings have fewer than 2 ^ 31
  -- slots, indices wrap round at the end, and a child that is done gets no more tuples. If it takes no
  -- tuple, then one child is empty and not done, or both are empty.
  pub merge_scalar-Merges :
      (node right left : MergeNode V) (rightdone leftdone : Bool)
      → f < 2 ^ 31
      → IsRing f node
      → IsRing f right
      → IsRing f left
      → node.count < f
      → (rightdone ≡ true → after_r ≡ [])
      → (leftdone ≡ true → after_l ≡ [])
      → Merges rightdone leftdone
          (merge_scalar next f node right left rightdone leftdone)
          node
          right
          left
  unfolding merge_scalar
  merge_scalar-Merges node right left rightdone leftdone fit rn rr rl room no_r no_l =
      or_copy-Merges node right left rightdone leftdone _ fit rn rr rl room no_r no_l
        (loops-Merges node right left rightdone leftdone rn rr rl room no_r no_l)
