-- ===== src/Merging/Decomposed/Output.antt =====
-- `mergestore_scalar_decomposed` of scalar_multiwaymerge.h with its kernel `serialmergestorekernel`.
use hashing_old_archive.Prelude.{
  ℕ, zero, suc, ◌+◌, ◌-◌, ◌%◌, ◌^◌, ◌&&◌, not, Bool, true, false, List, [], ◌∷◌, ◌++◌, Option, none,
  some, ◌==◌, ltb, min, if◌then◌else◌, get_elem?,
}
use hashing_old_archive.Merging.{Tuple, Relation, ◌>>=◌}
use hashing_old_archive.Merging.Ring.{MergeNode}
use hashing_old_archive.Merging.Copy.{direct_copy_to_output}
use hashing_old_archive.Merging.Decomposed.Parts.{Reader, new_reader, read_to, turn, turn_drained}

module _ {ℓ} {V : Type ℓ} where
  -- What is written and the indices; a round for each tuple of both parts is enough.
  unfoldable pub serial_mergestore_kernel :
      ℕ → ℕ → ℕ → List (Tuple V) → List (Tuple V) → ℕ → ℕ → Option (Relation V × ℕ × ℕ)
  serial_mergestore_kernel zero rend lend right left ri li =
      if ltb ri rend && ltb li lend then none else some ([], ri, li)
  serial_mergestore_kernel (suc rounds) rend lend right left ri li =
      elim (ltb ri rend && ltb li lend) [
        | false ↦ some ([], ri, li)
        | true ↦ elim (get_elem? right ri) [
          | none ↦ none
          | some a ↦ elim (get_elem? left li) [
            | none ↦ none
            | some b ↦ elim (ltb a.key b.key) [
              | true ↦ (do
                (out, ri, li) ← serial_mergestore_kernel rounds rend lend right left (ri + 1) li
                some (a ∷ out, ri, li))
              | false ↦ (do
                (out, ri, li) ← serial_mergestore_kernel rounds rend lend right left ri (li + 1)
                some (b ∷ out, ri, li))
            ]
          ]
        ]
      ]

  -- The loop while both nodes have tuples; none when its rounds run out.
  unfoldable pub store_parts :
      ℕ → ℕ → Reader V → Reader V → Option (Relation V × Reader V × Reader V)
  store_parts zero fifosize r l = none
  store_parts (suc rounds) fifosize r l = elim (ltb 0 r.node.count && ltb 0 l.node.count) [
    | false ↦ some ([], r, l)
    | true ↦
        elim (serial_mergestore_kernel (r.end - r.index + (l.end - l.index)) r.end l.end
          r.node.buffer l.node.buffer r.index l.index) [
            | none ↦ none
            | some (out, ri, li) ↦ (do
              (more, r, l) ←
                  store_parts rounds fifosize (turn (read_to fifosize ri r))
                    (turn (read_to fifosize li l))
              some (out ++ more, r, l))
          ]
  ]

  -- The inner loop over the `n` tuples that a part of one node still has.
  unfoldable pub store_part : ℕ → ℕ → MergeNode V → Option (Relation V × MergeNode V)
  store_part zero i src = some ([], src)
  store_part (suc n) i src = elim (get_elem? src.buffer i) [
    | none ↦ none
    | some x ↦ (do
      (out, src) ← store_part n (i + 1) (record src { count = src.count - 1; head = src.head + 1 })
      some (x ∷ out, src))
  ]

  -- The loop around it; none when the rounds run out.
  unfoldable pub store_rest_parts : ℕ → ℕ → Reader V → Option (Relation V × MergeNode V)
  store_rest_parts zero fifosize r = none
  store_rest_parts (suc rounds) fifosize r = do
    (out, src) ← store_part (r.end - r.index) r.index r.node
    let rest = turn_drained fifosize (record r { node = src; index = r.index + (r.end - r.index) })
    let again = (do (more, src) ← store_rest_parts rounds fifosize rest; some (out ++ more, src))
    (if ltb 0 src.count then again else some (out, rest.node))

  -- What one node still has, in at most two parts.
  unfoldable pub store_child : ℕ → Reader V → Option (Relation V × MergeNode V)
  store_child fifosize r =
      store_rest_parts 2 fifosize (record r {
        index = r.node.head;
        end = min fifosize ((r.node.head + r.node.count) % 2 ^ 32);
      })

  unfoldable pub store_children :
      ℕ → Reader V → Reader V → Option (Relation V × MergeNode V × MergeNode V)
  store_children fifosize r l =
      if ltb 0 r.node.count
      then (do (out, right) ← store_child fifosize r; some (out, right, l.node))
      else if ltb 0 l.node.count
      then (do (out, left) ← store_child fifosize l; some (out, r.node, left))
      else some ([], r.node, l.node)

  -- Each round uses up a tuple, so as many rounds as there are tuples, and one to stop, are enough.
  unfoldable pub store_nodes :
      ℕ → Bool → MergeNode V → MergeNode V → Option (Relation V × MergeNode V × MergeNode V)
  store_nodes fifosize done right left = do
    (out, r, l) ←
        store_parts (suc (right.count + left.count)) fifosize (new_reader fifosize right)
          (new_reader fifosize left)
    (if done
        then (do (more, right, left) ← store_children fifosize r l; some (out ++ more, right, left))
        else some (out, r.node, l.node))

  -- What is written to the output, and both nodes.
  unfoldable pub mergestore_scalar_decomposed :
      ℕ → MergeNode V → MergeNode V → Bool → Bool → Option (Relation V × MergeNode V × MergeNode V)
  mergestore_scalar_decomposed fifosize right left rightdone leftdone =
      if rightdone && right.count == 0
      then (if not leftdone && ltb 0 left.count
          then (do (out, left) ← direct_copy_to_output fifosize left; some (out, right, left))
          else store_nodes fifosize (rightdone && leftdone) right left)
      else if leftdone && left.count == 0
      then (if not rightdone && ltb 0 right.count
          then (do (out, right) ← direct_copy_to_output fifosize right; some (out, right, left))
          else store_nodes fifosize (rightdone && leftdone) right left)
      else store_nodes fifosize (rightdone && leftdone) right left
