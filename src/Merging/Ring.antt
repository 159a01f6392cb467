-- ===== src/Merging/Ring.antt =====
-- `MergeNode` of eth_data_structures.h: a ring buffer of tuples, and one step of its readers and
-- writers. How an index moves on is a parameter; the variants of the multi-way merge differ in it.
pub mod Window
pub mod Steps
use hashing_old_archive.Prelude.{
  ℕ, zero, suc, ◌+◌, ◌-◌, ◌%◌, ◌^◌, List, [], ◌∷◌, Option, none, some, get_elem?, set, bit_and,
}
use hashing_old_archive.Merging.{Tuple, Relation}

pub record MergeNode {ℓ} (V : Type ℓ) : Type ℓ where
  pub buffer : List (Tuple V)
  pub count : ℕ
  pub head : ℕ
  pub tail : ℕ

-- `(index + 1) % fifosize`
unfoldable pub next_modulo : ℕ → ℕ → ℕ
next_modulo fifosize index = (index + 1) % 2 ^ 32 % fifosize

-- `(index + 1) & fifosize_mask`
unfoldable pub next_bitand : ℕ → ℕ → ℕ
next_bitand fifosize index = bit_and ((index + 1) % 2 ^ 32) ((fifosize + 2 ^ 32 - 1) % 2 ^ 32)

module _ {ℓ} {V : Type ℓ} (next : ℕ → ℕ) where
  -- `Out[node->tail] = x`, and the tail moves on; none for a write out of range. The source counts
  -- the tuples in a local variable, from which it sets `count` at the end.
  unfoldable pub push : Tuple V → MergeNode V → Option (MergeNode V)
  push x node = elim (get_elem? node.buffer node.tail) [
    | none ↦ none
    | some old ↦ some (record node {
      buffer = set node.buffer node.tail x;
      count = node.count + 1;
      tail = next node.tail;
    })
  ]

  -- The tuple at the head has been used.
  abbrev pub advance : MergeNode V → MergeNode V
  advance node = record node { count = node.count - 1; head = next node.head }

-- The tuple at the head.
abbrev pub front {ℓ} : {V : Type ℓ} → MergeNode V → Option (Tuple V)
front node = get_elem? node.buffer node.head
