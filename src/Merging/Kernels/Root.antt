-- ===== src/Merging/Kernels/Root.antt =====
-- The whole of `mergestore_scalar` on the streams of the two nodes.
use hashing_old_archive.Prelude.{
  ℕ, Option, if◌then◌else◌, ◌+◌, ◌^◌, ◌<◌, ◌≡◌, refl, Bool, true, false, [], ◌++◌, some, ◌==◌, ◌&&◌,
  not, ltb, arith, Bool-cases, inl, inr, ◌⊎◌,
}
use hashing_old_archive.Merging.{Relation, ◌>>=◌}
use hashing_old_archive.Merging.Reference.{merge}
use hashing_old_archive.Merging.Ring.{MergeNode}
use hashing_old_archive.Merging.Ring.Window.{wrapped}
use hashing_old_archive.Merging.Ring.Steps.{IsRing, tuples, length-tuples}
use hashing_old_archive.Merging.Copy.{direct_copy_to_output}
use hashing_old_archive.Merging.Copy.Output.{direct_copy_to_output-tuples, emptied}
use hashing_old_archive.Merging.Kernels.{
  store_rest, store_both_rests, store_loops, mergestore_scalar,
}
use hashing_old_archive.Merging.Kernels.Streams.{Taken, taken_then}
use hashing_old_archive.Merging.Kernels.Idle.{Ends, Ends-IsIdle}
use hashing_old_archive.Merging.Kernels.First.{stream-nil, tuples-nil}
use hashing_old_archive.Merging.Kernels.Store.{
  store_rest-tuples, store_both-Taken, Stores, right_out, left_out, taken_right, taken_left,
}

ltb-lt : (a b : ℕ) → ltb a b ≡ true → a < b
ltb-lt a b e = ground arith

module _ {ℓ} {V : Type ℓ} (f : ℕ) (next : ℕ → ℕ)
    (law : (index : ℕ) → index < f → next index ≡ wrapped f index)
    (after_r after_l : Relation V) where
  store_both_rests-out :
      (out more last : Relation V) (right left right' left' : MergeNode V)
      → store_rest next right.count right ≡ some (more, right')
      → store_rest next left.count left ≡ some (last, left')
      → store_both_rests next out right left ≡ some (out ++ (more ++ last), right', left')
  unfolding store_both_rests
  store_both_rests-out out more last right left right' left' runs runs' = rw (runs, runs') refl

  store_both_rests-Taken :
      (out : Relation V) (right left : MergeNode V)
      → IsRing f right
      → IsRing f left
      → (right.count ≡ 0) ⊎ (left.count ≡ 0)
      → after_r ≡ []
      → after_l ≡ []
      → (a : Taken f after_r after_l right left) × (store_both_rests next out right left
          ≡ some (out ++ a.taken, a.right', a.left'))
        × (a.right'.count ≡ 0)
        × (a.left'.count ≡ 0)
  unfolding merge
  store_both_rests-Taken out right left rr rl reason no_r no_l =
      let (right', runs, rr', empty) = store_rest-tuples f next law right.count right rr refl in
      let (left', runs', rl', empty') = store_rest-tuples f next law left.count left rl refl in
      let step =
        taken_right f next law after_r after_l right left right' (tuples f right) rr' rl
          (omega arith)
          (elim reason [
            | inl no_right ↦ rw (tuples-nil f right rr no_right, tuples-nil f right' rr' empty) refl
            | inr no_left ↦
                right_out f next law after_r after_l right left right' rr' empty
                  (stream-nil f left after_l rl no_left no_l)
          ]) in
      let step' =
        taken_left f next law after_r after_l right' left left' (tuples f left) rr' rl'
          (omega arith)
          (left_out f next law after_r after_l right' left left' rl' empty'
            (stream-nil f right' after_r rr' empty no_r)) in
      (
        taken_then f after_r after_l step step',
        store_both_rests-out out _ _ right left right' left' runs runs',
        empty,
        empty',
      )

  store_loops-Taken :
      (done : Bool) (right left : MergeNode V)
      → IsRing f right
      → IsRing f left
      → (done ≡ true → after_r ≡ [])
      → (done ≡ true → after_l ≡ [])
      → (a : Taken f after_r after_l right left) × (store_loops next done right left
          ≡ some (a.taken, a.right', a.left'))
        × Ends done a.right' a.left'
  unfolding store_loops
  store_loops-Taken done right left rr rl no_r no_l =
      let (a, runs, end) =
        store_both-Taken f next law after_r after_l (right.count + left.count) right left rr rl
          (omega arith) in
      elim (Bool-cases done) [
        | inl e ↦
            let (b, runs', empty, empty') =
              store_both_rests-Taken a.taken a.right' a.left' a.right_ring a.left_ring end (no_r e)
                (no_l e) in
            (taken_then f after_r after_l a b, rw (runs, e) runs', inl (empty, empty'))
        | inr e ↦ (a, rw (runs, e) refl, inr (e, end))
      ]

  loops-Stores :
      (right left : MergeNode V) (rightdone leftdone : Bool)
      → IsRing f right
      → IsRing f left
      → (rightdone ≡ true → after_r ≡ [])
      → (leftdone ≡ true → after_l ≡ [])
      → ((rightdone && right.count == 0) && (not leftdone && ltb 0 left.count)) ≡ false
      → ((leftdone && left.count == 0) && (not rightdone && ltb 0 right.count)) ≡ false
      → Stores f next law after_r after_l rightdone leftdone
          (store_loops next (rightdone && leftdone) right left)
          right
          left
  loops-Stores right left rightdone leftdone rr rl no_r no_l no_left no_right =
      let (a, runs, end) =
        store_loops-Taken (rightdone && leftdone) right left rr rl (λ e. no_r (ground arith))
          (λ e. no_l (ground arith)) in
      (
        a,
        runs,
        elim end [ inl empty ↦ inr empty | inr (unfinished, _) ↦ inl unfinished ],
        Ends-IsIdle f after_r after_l right left rightdone leftdone rr rl a end no_left no_right,
      )

  -- All a node holds goes to the output when the other one has ended and is empty, and the loops write
  -- otherwise.
  abbrev pub or_write :
      MergeNode V
      → MergeNode V
      → Bool
      → Bool
      → Option (Relation V × MergeNode V × MergeNode V)
      → Option (Relation V × MergeNode V × MergeNode V)
  or_write right left rightdone leftdone loops =
      if rightdone && right.count == 0
      then (if not leftdone && ltb 0 left.count
          then (do (out, left) ← direct_copy_to_output f left; some (out, right, left))
          else loops)
      else if leftdone && left.count == 0
      then (if not rightdone && ltb 0 right.count
          then (do (out, right) ← direct_copy_to_output f right; some (out, right, left))
          else loops)
      else loops

  or_write-copy_left :
      (right left : MergeNode V) (rightdone leftdone : Bool)
      (loops : Option (Relation V × MergeNode V × MergeNode V)) (out : Relation V)
      (left' : MergeNode V)
      → (rightdone && right.count == 0) ≡ true
      → (not leftdone && ltb 0 left.count) ≡ true
      → direct_copy_to_output f left ≡ some (out, left')
      → or_write right left rightdone leftdone loops ≡ some (out, right, left')
  or_write-copy_left right left rightdone leftdone loops out left' e e' runs = rw (e, e', runs) refl

  or_write-copy_right :
      (right left : MergeNode V) (rightdone leftdone : Bool)
      (loops : Option (Relation V × MergeNode V × MergeNode V)) (out : Relation V)
      (right' : MergeNode V)
      → (rightdone && right.count == 0) ≡ false
      → (leftdone && left.count == 0) ≡ true
      → (not rightdone && ltb 0 right.count) ≡ true
      → direct_copy_to_output f right ≡ some (out, right')
      → or_write right left rightdone leftdone loops ≡ some (out, right', left)
  or_write-copy_right right left rightdone leftdone loops out right' e e' e'' runs =
      rw (e, e', e'', runs) refl

  -- What the loops promise holds with the copies, too.
  pub or_write-Stores :
      (right left : MergeNode V) (rightdone leftdone : Bool)
      (loops : Option (Relation V × MergeNode V × MergeNode V))
      → f < 2 ^ 31
      → IsRing f right
      → IsRing f left
      → (rightdone ≡ true → after_r ≡ [])
      → (leftdone ≡ true → after_l ≡ [])
      → (((rightdone && right.count == 0) && (not leftdone && ltb 0 left.count)) ≡ false
          → ((leftdone && left.count == 0) && (not rightdone && ltb 0 right.count)) ≡ false
          → Stores f next law after_r after_l rightdone leftdone loops right left)
      → Stores f next law after_r after_l rightdone leftdone
          (or_write right left rightdone leftdone loops)
          right
          left
  or_write-Stores right left rightdone leftdone loops fit rr rl no_r no_l promise =
      elim (Bool-cases (rightdone && right.count == 0)) [
        | inl e ↦ elim (Bool-cases (not leftdone && ltb 0 left.count)) [
          | inl e' ↦
              let (runs, rl') = direct_copy_to_output-tuples f left fit rl (ground arith) in
              (
                taken_left f next law after_r after_l right left (emptied f left) (tuples f left) rr
                    rl' (omega arith)
                    (left_out f next law after_r after_l right left (emptied f left) rl'
                      (omega arith)
                      (stream-nil f right after_r rr (ground arith) (no_r (ground arith)))),
                or_write-copy_left right left rightdone leftdone loops _ _ e e' runs,
                inl (ground arith),
                inl (omega (arith, length-tuples f left rl, ltb-lt 0 left.count (ground arith))),
              )
          | inr e' ↦ rw (e, e') (promise (ground arith) (ground arith))
        ]
        | inr e ↦ elim (Bool-cases (leftdone && left.count == 0)) [
          | inl e' ↦ elim (Bool-cases (not rightdone && ltb 0 right.count)) [
            | inl e'' ↦
                let (runs, rr') = direct_copy_to_output-tuples f right fit rr (ground arith) in
                (
                  taken_right f next law after_r after_l right left (emptied f right)
                      (tuples f right) rr' rl (omega arith)
                      (right_out f next law after_r after_l right left (emptied f right) rr'
                        (omega arith)
                        (stream-nil f left after_l rl (ground arith) (no_l (ground arith)))),
                  or_write-copy_right right left rightdone leftdone loops _ _ e e' e'' runs,
                  inl (ground arith),
                  inl (
                      omega (arith, length-tuples f right rr, ltb-lt 0 right.count (ground arith))),
                )
            | inr e'' ↦ rw (e, e', e'') (promise (ground arith) (ground arith))
          ]
          | inr e' ↦ rw (e, e') (promise (ground arith) (ground arith))
        ]
      ]

  -- The output gains the front of the merge of both streams, whichever branch is taken, without an access
  -- out of range, and both nodes are empty if both are done. The rings have fewer than 2 ^ 31 slots,
  -- indices wrap round at the end, and a node that is done gets no more tuples. If it takes no tuple,
  -- then one node is empty and not done, or both are empty.
  pub mergestore_scalar-Stores :
      (right left : MergeNode V) (rightdone leftdone : Bool)
      → f < 2 ^ 31
      → IsRing f right
      → IsRing f left
      → (rightdone ≡ true → after_r ≡ [])
      → (leftdone ≡ true → after_l ≡ [])
      → Stores f next law after_r after_l rightdone leftdone
          (mergestore_scalar next f right left rightdone leftdone)
          right
          left
  unfolding mergestore_scalar
  mergestore_scalar-Stores right left rightdone leftdone fit rr rl no_r no_l =
      or_write-Stores right left rightdone leftdone _ fit rr rl no_r no_l
        (loops-Stores right left rightdone leftdone rr rl no_r no_l)
