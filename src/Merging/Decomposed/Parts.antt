-- ===== src/Merging/Decomposed/Parts.antt =====
-- `merge_scalar_decomposed` and `mergestore_scalar_decomposed` of scalar_multiwaymerge.h, with their kernels
-- `serialmergekernel` and `serialmergestorekernel`. A pointer into a buffer stands at the index beside it.
use hashing_old_archive.Prelude.{
  ℕ, zero, suc, ◌+◌, ◌-◌, ◌%◌, ◌^◌, ◌&&◌, not, Bool, true, false, List, Option, none, some, ◌==◌,
  ltb, leb, min, if◌then◌else◌, get_elem?,
}
use hashing_old_archive.Merging.{Tuple, ◌>>=◌}
use hashing_old_archive.Merging.Ring.{MergeNode}
use hashing_old_archive.Merging.Copy.{direct_copy}
use hashing_old_archive.Merging.Decomposed.{at_end, assign, part_end, tail_reset}

-- Where a child is read: its index, the end of the part, and whether another part may follow. Its count
-- and its head are the local ones of the source.
pub record Reader {ℓ} (V : Type ℓ) : Type ℓ where
  pub node : MergeNode V
  pub index : ℕ
  pub end : ℕ
  pub wraps : Bool

-- Where a node is written, with the free slots of the part.
pub record Writer {ℓ} (V : Type ℓ) : Type ℓ where
  pub node : MergeNode V
  pub index : ℕ
  pub end : ℕ
  pub slots : ℕ

module _ {ℓ} {V : Type ℓ} where
  unfoldable pub new_reader : ℕ → MergeNode V → Reader V
  new_reader fifosize node = record {
    node = node;
    index = node.head;
    end = if ltb node.head node.tail then node.tail else fifosize;
    wraps = not (ltb node.head node.tail);
  }

  unfoldable pub new_writer : ℕ → MergeNode V → Writer V
  new_writer fifosize node = record {
    node = node;
    index = node.tail;
    end = part_end fifosize node;
    slots = part_end fifosize node - node.tail;
  }

  -- `rightcount -= (ri - righthead); righthead = ((ri == fifosize) ? 0 : ri)`
  abbrev pub read_to : ℕ → ℕ → Reader V → Reader V
  read_to fifosize i r = record r {
    node = record r.node { count = r.node.count - (i - r.node.head); head = at_end fifosize i };
    index = i;
  }

  abbrev pub written : ℕ → ℕ → List (Tuple V) → ℕ → Writer V → Writer V
  written fifosize slots out oi w = record w {
    node = record w.node {
      buffer = out;
      count = w.node.count + (oi - w.node.tail);
      tail = at_end fifosize oi;
    };
    index = oi;
    slots = slots;
  }

  -- At the end of a part the next one begins.
  unfoldable pub turn : Reader V → Reader V
  turn r =
      if r.wraps && r.index == r.end
      then record { node = r.node; index = 0; end = r.node.tail; wraps = false }
      else r

  unfoldable pub turn_writer : Writer V → Writer V
  turn_writer w =
      if w.index == w.end
      then record { node = w.node; index = 0; end = w.node.head; slots = w.node.head }
      else w

  -- `serialmergekernel`, from the free slots, the ends of the parts and the buffers of the children,
  -- and the buffer of the node: the slots that remain, the buffer and the indices.
  unfoldable pub serial_merge_kernel :
      ℕ
      → ℕ
      → ℕ
      → List (Tuple V)
      → List (Tuple V)
      → List (Tuple V)
      → ℕ
      → ℕ
      → ℕ
      → Option (ℕ × List (Tuple V) × ℕ × ℕ × ℕ)
  serial_merge_kernel zero rend lend right left out oi ri li = some (0, out, oi, ri, li)
  serial_merge_kernel (suc nslots) rend lend right left out oi ri li =
      elim (ltb ri rend && ltb li lend) [
        | false ↦ some (suc nslots, out, oi, ri, li)
        | true ↦ elim (get_elem? right ri) [
          | none ↦ none
          | some a ↦ elim (get_elem? left li) [
            | none ↦ none
            | some b ↦ elim (ltb a.key b.key) [
              | true ↦ elim (assign out oi a) [
                | none ↦ none
                | some out' ↦
                    serial_merge_kernel nslots rend lend right left out' (oi + 1) (ri + 1) li
              ]
              | false ↦ elim (assign out oi b) [
                | none ↦ none
                | some out' ↦
                    serial_merge_kernel nslots rend lend right left out' (oi + 1) ri (li + 1)
              ]
            ]
          ]
        ]
      ]

  -- The loop of `merge_scalar_decomposed` while both children have tuples; none when its rounds run out.
  unfoldable pub merge_parts :
      ℕ → ℕ → Writer V → Reader V → Reader V → Option (Writer V × Reader V × Reader V)
  merge_parts zero fifosize w r l = none
  merge_parts (suc rounds) fifosize w r l =
      elim (ltb w.node.count fifosize && (ltb 0 r.node.count && ltb 0 l.node.count)) [
        | false ↦ some (w, r, l)
        | true ↦
            elim (serial_merge_kernel w.slots r.end l.end r.node.buffer l.node.buffer w.node.buffer
              w.index r.index l.index) [
                | none ↦ none
                | some (slots, out, oi, ri, li) ↦
                    merge_parts rounds fifosize (turn_writer (written fifosize slots out oi w))
                      (turn (read_to fifosize ri r)) (turn (read_to fifosize li l))
              ]
      ]

  -- The inner loop over one child that still has tuples.
  unfoldable pub drain_part :
      ℕ → ℕ → ℕ → ℕ → MergeNode V → MergeNode V → Option (ℕ × ℕ × ℕ × MergeNode V × MergeNode V)
  drain_part zero rend oi ri node src = some (0, oi, ri, node, src)
  drain_part (suc outnslots) rend oi ri node src = elim (ltb ri rend) [
    | false ↦ some (suc outnslots, oi, ri, node, src)
    | true ↦ elim (get_elem? src.buffer ri) [
      | none ↦ none
      | some x ↦ elim (assign node.buffer oi x) [
        | none ↦ none
        | some out ↦
            drain_part outnslots rend (oi + 1) (ri + 1)
              (record node { buffer = out; count = node.count + 1; tail = node.tail + 1 })
              (record src { count = src.count - 1; head = src.head + 1 })
      ]
    ]
  ]

  abbrev pub head_reset : ℕ → MergeNode V → MergeNode V
  head_reset fifosize src = record src { head = if leb fifosize src.head then 0 else src.head }

  unfoldable pub turn_drained : ℕ → Reader V → Reader V
  turn_drained fifosize r =
      if r.wraps && r.index == r.end
      then record { node = head_reset fifosize r.node; index = 0; end = r.node.tail; wraps = false }
      else r

  -- The loop around it: `outnslots` is not set again. None when the rounds run out.
  unfoldable pub drain_parts :
      ℕ → ℕ → ℕ → ℕ → ℕ → MergeNode V → Reader V → Option (MergeNode V × MergeNode V)
  drain_parts zero fifosize slots oi oend node r = none
  drain_parts (suc rounds) fifosize slots oi oend node r = do
    (slots, oi, ri, node, src) ← drain_part slots r.end oi r.index node r.node
    let turned = oi == oend
    let next = if turned then tail_reset fifosize node else node
    let rest = turn_drained fifosize (record r { node = src; index = ri })
    let again =
        drain_parts rounds fifosize slots (if turned then 0 else oi)
          (if turned then node.head else oend) next rest
    (if ltb 0 slots && ltb 0 src.count then again else some (next, rest.node))

  -- What one child still has, in at most two parts.
  unfoldable pub drain_child : ℕ → MergeNode V → Reader V → Option (MergeNode V × MergeNode V)
  drain_child fifosize node r =
      let oend = min fifosize ((node.tail + (fifosize - node.count)) % 2 ^ 32) in
      drain_parts 2 fifosize (oend - node.tail) node.tail oend node (record r {
        index = r.node.head;
        end = min fifosize ((r.node.head + r.node.count) % 2 ^ 32);
      })

  unfoldable pub drain_children :
      ℕ → MergeNode V → Reader V → Reader V → Option (MergeNode V × MergeNode V × MergeNode V)
  drain_children fifosize node r l =
      if ltb 0 r.node.count
      then (do (node, right) ← drain_child fifosize node r; some (node, right, l.node))
      else if ltb 0 l.node.count
      then (do (node, left) ← drain_child fifosize node l; some (node, r.node, left))
      else some (node, r.node, l.node)

  -- Each round uses up a tuple, so as many rounds as there are tuples, and one to stop, are enough.
  unfoldable pub merge_children :
      ℕ
      → Bool
      → MergeNode V
      → MergeNode V
      → MergeNode V
      → Option (MergeNode V × MergeNode V × MergeNode V)
  merge_children fifosize done node right left = do
    (w, r, l) ←
        merge_parts (suc (right.count + left.count)) fifosize (new_writer fifosize node)
          (new_reader fifosize right) (new_reader fifosize left)
    (if done && ltb w.node.count fifosize
        then drain_children fifosize w.node r l
        else some (w.node, r.node, l.node))

  -- The node and its children.
  unfoldable pub merge_scalar_decomposed :
      ℕ
      → MergeNode V
      → MergeNode V
      → MergeNode V
      → Bool
      → Bool
      → Option (MergeNode V × MergeNode V × MergeNode V)
  merge_scalar_decomposed fifosize node right left rightdone leftdone =
      if rightdone && right.count == 0
      then (if not leftdone && ltb 0 left.count
          then (do (node, left) ← direct_copy fifosize node left; some (node, right, left))
          else merge_children fifosize (rightdone && leftdone) node right left)
      else if leftdone && left.count == 0
      then (if not rightdone && ltb 0 right.count
          then (do (node, right) ← direct_copy fifosize node right; some (node, right, left))
          else merge_children fifosize (rightdone && leftdone) node right left)
      else merge_children fifosize (rightdone && leftdone) node right left
