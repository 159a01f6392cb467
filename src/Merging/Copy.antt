-- ===== src/Merging/Copy.antt =====
-- `direct_copy` and `direct_copy_to_output` of scalar_multiwaymerge.h, which copy a ring buffer in
-- blocks. A result of none stands for an access out of range, or for an assertion that fails.
pub mod Room
pub mod Moves
pub mod Blocks
pub mod Direct
pub mod Output
use hashing_old_archive.Prelude.{
  ℕ, zero, suc, ◌+◌, ◌-◌, ◌%◌, ◌^◌, ◌≡◌, Bool, true, false, List, [], ◌∷◌, ◌++◌, Option, none, some,
  ◌==◌, ltb, leb, min, not, ◌&&◌, if◌then◌else◌, get_elem?, set,
}
use hashing_old_archive.Merging.{Tuple, Relation}
use hashing_old_archive.Merging.Ring.{MergeNode}

-- A part of a buffer without a wrap.
pub record Block : Type 0 where
  pub start : ℕ
  pub size : ℕ

module _ {ℓ} {V : Type ℓ} (fifosize : ℕ) where
  -- The free slots of `dest`. Where there is no second block, its start is not initialised and not
  -- read.
  unfoldable pub dest_blocks : MergeNode V → List Block
  dest_blocks dest =
      if leb dest.head dest.tail
      then record { start = dest.tail; size = fifosize - dest.tail }
        ∷ record { start = 0; size = dest.head }
        ∷ []
      else record { start = dest.tail; size = dest.head - dest.tail }
        ∷ record { start = 0; size = 0 }
        ∷ []

  -- The tuples of `src`.
  unfoldable pub src_blocks : MergeNode V → List Block
  src_blocks src =
      if leb src.tail src.head
      then record { start = src.head; size = fifosize - src.head }
        ∷ record { start = 0; size = src.tail }
        ∷ []
      else record { start = src.head; size = src.tail - src.head }
        ∷ record { start = 0; size = 0 }
        ∷ []

-- What remains of a block, and of the blocks: one that is used up gives way to the next.
abbrev pub rest_of : ℕ → Block → List Block → List Block
rest_of copysize b later =
    if b.size - copysize == 0
    then later
    else record { start = b.start + copysize; size = b.size - copysize } ∷ later

module _ {ℓ} {V : Type ℓ} where
  -- `memcpy` of `n` tuples between two buffers.
  unfoldable pub copy_block : ℕ → ℕ → ℕ → List (Tuple V) → List (Tuple V) → Option (List (Tuple V))
  copy_block zero to from src dest = some dest
  copy_block (suc n) to from src dest = elim (get_elem? src from) [
    | none ↦ none
    | some x ↦ elim (get_elem? dest to) [
      | none ↦ none
      | some old ↦ copy_block n (to + 1) (from + 1) src (set dest to x)
    ]
  ]

  -- The loop over the blocks of both sides: each round uses up a block, so as many rounds as there are
  -- blocks are enough.
  unfoldable pub copy_blocks :
      ℕ
      → List Block
      → List Block
      → List (Tuple V)
      → List (Tuple V)
      → ℕ
      → Option (List (Tuple V) × ℕ)
  copy_blocks fuel [] ss src dest copied = some (dest, copied)
  copy_blocks fuel (d ∷ ds) [] src dest copied = some (dest, copied)
  copy_blocks zero (d ∷ ds) (s ∷ ss) src dest copied = none
  copy_blocks (suc fuel) (d ∷ ds) (s ∷ ss) src dest copied =
      let copysize = min d.size s.size in
      elim (copy_block copysize d.start s.start src dest) [
        | none ↦ none
        | some dest' ↦
            copy_blocks fuel (rest_of copysize d ds) (rest_of copysize s ss) src dest'
              (copied + copysize)
      ]

  module _ (fifosize : ℕ) where
    unfoldable pub direct_copy : MergeNode V → MergeNode V → Option (MergeNode V × MergeNode V)
    direct_copy dest src =
        if ltb dest.count fifosize && ltb 0 src.count
        then elim (copy_blocks 4 (dest_blocks fifosize dest) (src_blocks fifosize src) src.buffer
            dest.buffer 0) [
              | none ↦ none
              | some (buffer, copied) ↦ some (
                record dest {
                  buffer = buffer;
                  count = dest.count + copied;
                  tail = (dest.tail + copied) % 2 ^ 32 % fifosize;
                },
                record src {
                  count = src.count - copied;
                  head = (src.head + copied) % 2 ^ 32 % fifosize;
                },
              )
            ]
        else none

    -- `direct_copy_modulo`, with a round for each tuple of the source.
    unfoldable pub direct_copy_modulo :
        ℕ → MergeNode V → MergeNode V → Option (MergeNode V × MergeNode V)
    direct_copy_modulo zero dest src = some (dest, src)
    direct_copy_modulo (suc fuel) dest src =
        elim (not (dest.tail % fifosize == dest.head % fifosize) && ltb 0 src.count) [
          | false ↦ some (dest, src)
          | true ↦ elim (get_elem? src.buffer (src.head % fifosize)) [
            | none ↦ none
            | some x ↦ elim (get_elem? dest.buffer (dest.tail % fifosize)) [
              | none ↦ none
              | some old ↦
                  direct_copy_modulo fuel
                    (record {
                      buffer = set dest.buffer (dest.tail % fifosize) x;
                      count = (dest.count + 1) % 2 ^ 32;
                      head = dest.head;
                      tail = (dest.tail + 1) % 2 ^ 32 % fifosize;
                    })
                    (record src {
                      count = src.count - 1;
                      head = (src.head + 1) % 2 ^ 32 % fifosize;
                    })
            ]
          ]
        ]

  -- `memcpy` of `n` tuples to the output.
  unfoldable pub read_block : ℕ → ℕ → List (Tuple V) → Option (Relation V)
  read_block zero from src = some []
  read_block (suc n) from src = elim (get_elem? src from) [
    | none ↦ none
    | some x ↦ elim (read_block n (from + 1) src) [ none ↦ none | some out ↦ some (x ∷ out) ]
  ]

  unfoldable pub read_blocks : List Block → List (Tuple V) → Option (Relation V × ℕ)
  read_blocks [] src = some ([], 0)
  read_blocks (b ∷ bs) src = elim (read_block b.size b.start src) [
    | none ↦ none
    | some out ↦ elim (read_blocks bs src) [
      | none ↦ none
      | some (later, copied) ↦ some (out ++ later, b.size + copied)
    ]
  ]

  -- `direct_copy_to_output`: what is written to the output, and the node.
  unfoldable pub direct_copy_to_output : ℕ → MergeNode V → Option (Relation V × MergeNode V)
  direct_copy_to_output fifosize src = elim (read_blocks (src_blocks fifosize src) src.buffer) [
    | none ↦ none
    | some (out, copied) ↦ some (
      out,
      record src { count = src.count - copied; head = (src.head + copied) % 2 ^ 32 % fifosize },
    )
  ]
