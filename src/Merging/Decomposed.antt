-- ===== src/Merging/Decomposed.antt =====
-- The decomposed variant of the scalar multi-way merge, `scalar_multiway_merge` of scalar_multiwaymerge.h: its
-- kernels run through the contiguous parts of the rings, so that no index is reduced. Here are the ends of
-- the parts, and `readmerge_scalar_decomposed`; an output pointer stands at the index beside it.
pub mod Fill
pub mod First
pub mod Rest
pub mod Load
pub mod Parts
pub mod Readers
pub mod Kernel
pub mod Writers
pub mod Chunks
pub mod Drain
pub mod Turns
pub mod Node
pub mod Output
pub mod Store
pub mod Empty
pub mod Root
use hashing_old_archive.Prelude.{
  ℕ, zero, suc, ◌+◌, ◌-◌, ◌%◌, ◌^◌, ◌&&◌, not, Bool, true, false, List, [], ◌∷◌, Option, none, some,
  ◌==◌, ltb, leb, length, min, if◌then◌else◌, get_elem?, set,
}
use hashing_old_archive.Merging.{Tuple, Relation, ◌>>=◌}
use hashing_old_archive.Merging.Ring.{MergeNode}

-- `(i == fifosize) ? 0 : i`
abbrev pub at_end : ℕ → ℕ → ℕ
at_end fifosize i = if i == fifosize then 0 else i

module _ {ℓ} {V : Type ℓ} where
  -- `*Out = x`; none for a write out of range.
  unfoldable pub assign : List (Tuple V) → ℕ → Tuple V → Option (List (Tuple V))
  assign out i x = elim (get_elem? out i) [ none ↦ none | some old ↦ some (set out i x) ]

  -- The free slots before the end of the first part, and the slots of the second part.
  unfoldable pub part_end : ℕ → MergeNode V → ℕ
  part_end fifosize node = if ltb node.tail node.head then node.head else fifosize

  unfoldable pub second_part : MergeNode V → ℕ
  second_part node = if ltb node.tail node.head then 0 else node.head

  -- The loops while both inputs have tuples: the slots that remain, the index, the buffer and the rest
  -- of both inputs.
  unfoldable pub fill_both :
      ℕ
      → ℕ
      → List (Tuple V)
      → Relation V
      → Relation V
      → Option (ℕ × ℕ × List (Tuple V) × Relation V × Relation V)
  fill_both zero oi out xs ys = some (0, oi, out, xs, ys)
  fill_both (suc outnslots) oi out [] ys = some (suc outnslots, oi, out, [], ys)
  fill_both (suc outnslots) oi out (a ∷ xs) [] = some (suc outnslots, oi, out, a ∷ xs, [])
  fill_both (suc outnslots) oi out (a ∷ xs) (b ∷ ys) = elim (ltb a.key b.key) [
    | true ↦ elim (assign out oi a) [
      | none ↦ none
      | some out' ↦ fill_both outnslots (oi + 1) out' xs (b ∷ ys)
    ]
    | false ↦ elim (assign out oi b) [
      | none ↦ none
      | some out' ↦ fill_both outnslots (oi + 1) out' (a ∷ xs) ys
    ]
  ]

  -- The first part of the free slots.
  unfoldable pub fill_first :
      ℕ → MergeNode V → Relation V → Relation V → Option (ℕ × MergeNode V × Relation V × Relation V)
  fill_first fifosize node xs ys = do
    (slots, oi, out, xs, ys) ←
        fill_both (part_end fifosize node - node.tail) node.tail node.buffer xs ys
    some (
      slots,
      record node {
        buffer = out;
        count = node.count + (oi - node.tail);
        tail = at_end fifosize oi;
      },
      xs,
      ys,
    )

  -- The second part, when the first is full.
  unfoldable pub fill_second :
      ℕ
      → ℕ
      → ℕ
      → MergeNode V
      → Relation V
      → Relation V
      → Option (MergeNode V × Relation V × Relation V)
  fill_second fifosize slots oend2 node xs ys =
      if slots == 0 && not (oend2 == 0)
      then (do
        (slots, oi2, out, xs, ys) ← fill_both oend2 0 node.buffer xs ys
        some (
          record node { buffer = out; count = node.count + oi2; tail = at_end fifosize oi2 },
          xs,
          ys,
        ))
      else some (node, xs, ys)

  -- The inner loop while one input has tuples.
  unfoldable pub fill_one :
      ℕ → ℕ → MergeNode V → Relation V → Option (ℕ × ℕ × MergeNode V × Relation V)
  fill_one zero oi node xs = some (0, oi, node, xs)
  fill_one (suc outnslots) oi node [] = some (suc outnslots, oi, node, [])
  fill_one (suc outnslots) oi node (a ∷ xs) = elim (assign node.buffer oi a) [
    | none ↦ none
    | some out ↦
        fill_one outnslots (oi + 1)
          (record node { buffer = out; count = node.count + 1; tail = node.tail + 1 }) xs
  ]

  -- `nodetail` is back at the start.
  abbrev pub tail_reset : ℕ → MergeNode V → MergeNode V
  tail_reset fifosize node = record node { tail = if leb fifosize node.tail then 0 else node.tail }

  -- The loop around it, as rounds; none when they run out.
  unfoldable pub fill_rest :
      ℕ → ℕ → ℕ → ℕ → ℕ → MergeNode V → Relation V → Option (MergeNode V × Relation V)
  fill_rest zero fifosize slots oi oend node xs = none
  fill_rest (suc rounds) fifosize slots oi oend node xs = do
    (slots, oi, node, xs) ← fill_one slots oi node xs
    let turned = oi == oend
    let node = if turned then tail_reset fifosize node else node
    let again =
        if turned
        then fill_rest rounds fifosize node.head 0 node.head node xs
        else fill_rest rounds fifosize slots oi oend node xs
    (if ltb node.count fifosize && not (length xs == 0) then again else some (node, xs))

  -- What one input still has, in at most two parts.
  unfoldable pub fill_rests : ℕ → MergeNode V → Relation V → Option (MergeNode V × Relation V)
  fill_rests fifosize node xs =
      let oend = min fifosize ((node.tail + (fifosize - node.count)) % 2 ^ 32) in
      fill_rest 2 fifosize (oend - node.tail) node.tail oend node xs

  unfoldable pub fill_remaining :
      ℕ → MergeNode V → Relation V → Relation V → Option (MergeNode V × Relation V × Relation V)
  fill_remaining fifosize node (a ∷ xs) ys = do
    (node, xs) ← fill_rests fifosize node (a ∷ xs)
    some (node, xs, ys)
  fill_remaining fifosize node [] (b ∷ ys) = do
    (node, ys) ← fill_rests fifosize node (b ∷ ys)
    some (node, [], ys)
  fill_remaining fifosize node [] [] = some (node, [], [])

  -- The node, the rest of both inputs, and the number of tuples read.
  unfoldable pub readmerge_scalar_decomposed :
      ℕ → MergeNode V → Relation V → Relation V → Option (MergeNode V × Relation V × Relation V × ℕ)
  readmerge_scalar_decomposed fifosize node in_a in_b = do
    (slots, filled, xs, ys) ← fill_first fifosize node in_a in_b
    (node, xs, ys) ← fill_second fifosize slots (second_part node) filled xs ys
    (node, xs, ys) ←
        (if ltb node.count fifosize
          then fill_remaining fifosize node xs ys
          else some (node, xs, ys))
    some (node, xs, ys, length in_a - length xs + (length in_b - length ys))
