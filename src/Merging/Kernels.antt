-- ===== src/Merging/Kernels.antt =====
-- The kernels of the scalar multi-way merge in scalar_multiwaymerge.h. The variants with a remainder
-- and with a mask, in Kernels/Variants, differ in how an index moves on, which is a parameter; a result of none stands for
-- an access out of range.
pub mod Variants
pub mod Read
pub mod Load
pub mod Streams
pub mod Merge
pub mod First
pub mod Idle
pub mod Loops
pub mod Node
pub mod Store
pub mod Root
use hashing_old_archive.Prelude.{
  ℕ, zero, suc, ◌+◌, ◌-◌, ◌&&◌, ◌||◌, not, Bool, true, false, List, [], ◌∷◌, ◌++◌, Option, none,
  some, ◌==◌, ltb, length, if◌then◌else◌,
}
use hashing_old_archive.Merging.{Tuple, Relation, ◌>>=◌}
use hashing_old_archive.Merging.Ring.{MergeNode, next_modulo, next_bitand, push, advance, front}
use hashing_old_archive.Merging.Copy.{direct_copy, direct_copy_to_output}

module _ {ℓ} {V : Type ℓ} where
  module _ (next : ℕ → ℕ) where
    -- The loop of `readmerge_scalar` while both inputs have tuples: the free slots that remain, the
    -- node and the rest of both inputs.
    unfoldable pub read_both :
        ℕ
        → MergeNode V
        → Relation V
        → Relation V
        → Option (ℕ × MergeNode V × Relation V × Relation V)
    read_both zero node xs ys = some (0, node, xs, ys)
    read_both (suc outnslots) node [] ys = some (suc outnslots, node, [], ys)
    read_both (suc outnslots) node (a ∷ xs) [] = some (suc outnslots, node, a ∷ xs, [])
    read_both (suc outnslots) node (a ∷ xs) (b ∷ ys) = elim (ltb a.key b.key) [
      | true ↦ elim (push next a node) [
        | none ↦ none
        | some node' ↦ read_both outnslots node' xs (b ∷ ys)
      ]
      | false ↦ elim (push next b node) [
        | none ↦ none
        | some node' ↦ read_both outnslots node' (a ∷ xs) ys
      ]
    ]

    -- Its loops while one input has tuples.
    unfoldable pub read_one : ℕ → MergeNode V → Relation V → Option (ℕ × MergeNode V × Relation V)
    read_one zero node xs = some (0, node, xs)
    read_one (suc outnslots) node [] = some (suc outnslots, node, [])
    read_one (suc outnslots) node (a ∷ xs) = elim (push next a node) [
      | none ↦ none
      | some node' ↦ read_one outnslots node' xs
    ]

    -- The node, the rest of both inputs, and the number of tuples read.
    unfoldable pub readmerge_scalar :
        ℕ
        → MergeNode V
        → Relation V
        → Relation V
        → Option (MergeNode V × Relation V × Relation V × ℕ)
    readmerge_scalar fifosize node in_a in_b = do
      (slots, node, xs, ys) ← read_both (fifosize - node.count) node in_a in_b
      (slots, node, xs) ← read_one slots node xs
      (slots, node, ys) ← read_one slots node ys
      some (node, xs, ys, length in_a - length xs + (length in_b - length ys))

    -- The loop of `merge_scalar` while both children have tuples: the free slots that remain, the node
    -- and its children.
    unfoldable pub merge_both :
        ℕ
        → MergeNode V
        → MergeNode V
        → MergeNode V
        → Option (ℕ × MergeNode V × MergeNode V × MergeNode V)
    merge_both zero node right left = some (0, node, right, left)
    merge_both (suc outnslots) node right left = elim (right.count == 0 || left.count == 0) [
      | true ↦ some (suc outnslots, node, right, left)
      | false ↦ elim (front right) [
        | none ↦ none
        | some a ↦ elim (front left) [
          | none ↦ none
          | some b ↦ elim (ltb a.key b.key) [
            | true ↦ elim (push next a node) [
              | none ↦ none
              | some node' ↦ merge_both outnslots node' (advance next right) left
            ]
            | false ↦ elim (push next b node) [
              | none ↦ none
              | some node' ↦ merge_both outnslots node' right (advance next left)
            ]
          ]
        ]
      ]
    ]

    -- Its loops over what one child still has.
    unfoldable pub drain : ℕ → MergeNode V → MergeNode V → Option (ℕ × MergeNode V × MergeNode V)
    drain zero node src = some (0, node, src)
    drain (suc outnslots) node src = elim (src.count == 0) [
      | true ↦ some (suc outnslots, node, src)
      | false ↦ elim (front src) [
        | none ↦ none
        | some x ↦ elim (push next x node) [
          | none ↦ none
          | some node' ↦ drain outnslots node' (advance next src)
        ]
      ]
    ]

    unfoldable pub drain_both :
        ℕ
        → MergeNode V
        → MergeNode V
        → MergeNode V
        → Option (MergeNode V × MergeNode V × MergeNode V)
    drain_both slots node right left = do
      (slots, node, right) ← drain slots node right
      (slots, node, left) ← drain slots node left
      some (node, right, left)

    unfoldable pub merge_loops :
        ℕ
        → Bool
        → MergeNode V
        → MergeNode V
        → MergeNode V
        → Option (MergeNode V × MergeNode V × MergeNode V)
    merge_loops fifosize done node right left = do
      (slots, node, right, left) ← merge_both (fifosize - node.count) node right left
      (if done then drain_both slots node right left else some (node, right, left))

    -- The node and its children.
    unfoldable pub merge_scalar :
        ℕ
        → MergeNode V
        → MergeNode V
        → MergeNode V
        → Bool
        → Bool
        → Option (MergeNode V × MergeNode V × MergeNode V)
    merge_scalar fifosize node right left rightdone leftdone =
        if rightdone && right.count == 0
        then (if not leftdone && ltb 0 left.count
            then (do (node, left) ← direct_copy fifosize node left; some (node, right, left))
            else merge_loops fifosize (rightdone && leftdone) node right left)
        else if leftdone && left.count == 0
        then (if not rightdone && ltb 0 right.count
            then (do (node, right) ← direct_copy fifosize node right; some (node, right, left))
            else merge_loops fifosize (rightdone && leftdone) node right left)
        else merge_loops fifosize (rightdone && leftdone) node right left

    -- The loop of `mergestore_scalar` while both nodes have tuples: what is written, and the nodes.
    -- Each round uses up a tuple, so as many rounds as there are tuples are enough.
    unfoldable pub store_both :
        ℕ → MergeNode V → MergeNode V → Option (Relation V × MergeNode V × MergeNode V)
    store_both zero right left =
        if right.count == 0 || left.count == 0 then some ([], right, left) else none
    store_both (suc fuel) right left = elim (right.count == 0 || left.count == 0) [
      | true ↦ some ([], right, left)
      | false ↦ elim (front right) [
        | none ↦ none
        | some a ↦ elim (front left) [
          | none ↦ none
          | some b ↦ elim (ltb a.key b.key) [
            | true ↦ (do
              (out, right, left) ← store_both fuel (advance next right) left
              some (a ∷ out, right, left))
            | false ↦ (do
              (out, right, left) ← store_both fuel right (advance next left)
              some (b ∷ out, right, left))
          ]
        ]
      ]
    ]

    -- Its loops over the `n` tuples that one node still has.
    unfoldable pub store_rest : ℕ → MergeNode V → Option (Relation V × MergeNode V)
    store_rest zero src = some ([], src)
    store_rest (suc n) src = elim (front src) [
      | none ↦ none
      | some x ↦ (do (out, src) ← store_rest n (advance next src); some (x ∷ out, src))
    ]

    unfoldable pub store_both_rests :
        Relation V → MergeNode V → MergeNode V → Option (Relation V × MergeNode V × MergeNode V)
    store_both_rests out right left = do
      (more, right) ← store_rest right.count right
      (last, left) ← store_rest left.count left
      some (out ++ (more ++ last), right, left)

    unfoldable pub store_loops :
        Bool → MergeNode V → MergeNode V → Option (Relation V × MergeNode V × MergeNode V)
    store_loops done right left = do
      (out, right, left) ← store_both (right.count + left.count) right left
      (if done then store_both_rests out right left else some (out, right, left))

    -- What is written to the output, and both nodes. The number of tuples that the source returns is
    -- the length of what is written.
    unfoldable pub mergestore_scalar :
        ℕ
        → MergeNode V
        → MergeNode V
        → Bool
        → Bool
        → Option (Relation V × MergeNode V × MergeNode V)
    mergestore_scalar fifosize right left rightdone leftdone =
        if rightdone && right.count == 0
        then (if not leftdone && ltb 0 left.count
            then (do (out, left) ← direct_copy_to_output fifosize left; some (out, right, left))
            else store_loops (rightdone && leftdone) right left)
        else if leftdone && left.count == 0
        then (if not rightdone && ltb 0 right.count
            then (do (out, right) ← direct_copy_to_output fifosize right; some (out, right, left))
            else store_loops (rightdone && leftdone) right left)
        else store_loops (rightdone && leftdone) right left
