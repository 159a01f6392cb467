-- ===== src/Merging/Tests.antt =====
-- Runs of the merges on small inputs.
use hashing_old_archive.Prelude.{
  ◌++◌, ℕ, zero, suc, ◌+◌, ◌^◌, ◌<◌, ◌≤◌, ◌/◌, ◌*◌, ltb, ◌≡◌, refl, true, false, List, [], ◌∷◌,
  some, arith, ◌⊎◌, map,
}
use hashing_old_archive.Merging.{Tuple, Relation}
use mathlib.Core.List.{Perm}
use hashing_old_archive.Merging.Reference.{IsSorted}
use hashing_old_archive.Merging.Scalar.{scalar_merge_tuples-IsSorted, scalar_merge_tuples}
use hashing_old_archive.Merging.Ring.{MergeNode, next_modulo, push}
use hashing_old_archive.Merging.Ring.Window.{wrapped, next_modulo-wrapped}
use hashing_old_archive.Merging.Ring.Steps.{IsRing}
use hashing_old_archive.Merging.Copy.{
  direct_copy, direct_copy_to_output, copy_blocks, copy_block, dest_blocks, src_blocks, read_blocks,
  read_block,
}
use hashing_old_archive.Merging.Copy.Moves.{Moves}
use hashing_old_archive.Merging.Copy.Direct.{direct_copy-Moves}
use hashing_old_archive.Merging.Kernels.Variants.{
  readmerge_scalar_modulo, merge_scalar_modulo, mergestore_scalar_modulo,
}
use hashing_old_archive.Merging.Kernels.{
  readmerge_scalar, merge_scalar, mergestore_scalar, read_both, read_one, merge_both, merge_loops,
  drain, drain_both, store_both, store_rest, store_both_rests, store_loops,
}
use hashing_old_archive.Merging.Kernels.Load.{Reads, readmerge_scalar-Reads}
use hashing_old_archive.Merging.Kernels.Node.{Merges, merge_scalar-Merges}
use hashing_old_archive.Merging.Kernels.Store.{Stores}
use hashing_old_archive.Merging.Kernels.Root.{mergestore_scalar-Stores}
use hashing_old_archive.Merging.Multiway.{
  modulo, round, rounds, leaves, leaf, read_leaf, take, drop, inners, inner, merge_inner,
  store_roots, set_at,
}
use hashing_old_archive.Merging.Multiway.Work.{sum}
use hashing_old_archive.Merging.Multiway.Inputs.{gather}
use hashing_old_archive.Merging.Multiway.Result.{
  num_tuples, scalar_multiway_merge-IsSorted, scalar_multiway_merge_modulo-IsSorted,
  scalar_multiway_merge_bitand-IsSorted,
}
use hashing_old_archive.Merging.Multiway.Start.{
  Sizes, total_fifo_size, reserved, start, segment, scalar_multiway_merge,
  scalar_multiway_merge_modulo, scalar_multiway_merge_bitand,
}
use hashing_old_archive.Prelude.{length}
use hashing_old_archive.Merging.Kernels.Read.{Fed}
use hashing_old_archive.Merging.Multiway.{decomposed}
use hashing_old_archive.Merging.Decomposed.{
  assign, part_end, second_part, fill_both, fill_first, fill_second, fill_one, fill_rest,
  fill_rests, fill_remaining, readmerge_scalar_decomposed,
}
use hashing_old_archive.Merging.Decomposed.Fill.{wraps}
use hashing_old_archive.Merging.Decomposed.Parts.{
  new_reader, new_writer, turn, turn_writer, serial_merge_kernel, merge_parts, drain_part,
  turn_drained, drain_parts, drain_child, drain_children, merge_children, merge_scalar_decomposed,
}
use hashing_old_archive.Merging.Decomposed.Output.{
  serial_mergestore_kernel, store_parts, store_part, store_rest_parts, store_child, store_children,
  store_nodes, mergestore_scalar_decomposed,
}
use hashing_old_archive.Merging.Decomposed.Load.{readmerge_scalar_decomposed-Reads}
use hashing_old_archive.Merging.Decomposed.Node.{merge_scalar_decomposed-Merges}
use hashing_old_archive.Merging.Decomposed.Root.{mergestore_scalar_decomposed-Stores}

abbrev tuple : ℕ → Tuple ℕ
tuple k = record { key = k; payload = k + 100 }

abbrev run_of : List ℕ → Relation ℕ
run_of l = map tuple l

abbrev empty_node : MergeNode ℕ
empty_node = record { buffer = tuple 0 ∷ tuple 0 ∷ []; count = 0; head = 1; tail = 1 }

empty_node-IsRing : IsRing 2 empty_node
empty_node-IsRing = record {
  size = refl;
  bounded = omega arith;
  inside = omega arith;
  tail_is = refl;
}

-- The tuple 7 wraps round to the first slot.
abbrev full_node : MergeNode ℕ
full_node = record { buffer = tuple 7 ∷ tuple 3 ∷ []; count = 2; head = 1; tail = 1 }

full_node-IsRing : IsRing 2 full_node
full_node-IsRing = record {
  size = refl;
  bounded = omega arith;
  inside = omega arith;
  tail_is = refl;
}

abbrev half_node : MergeNode ℕ
half_node = record { buffer = tuple 5 ∷ tuple 0 ∷ []; count = 1; head = 0; tail = 1 }

half_node-IsRing : IsRing 2 half_node
half_node-IsRing = record {
  size = refl;
  bounded = omega arith;
  inside = omega arith;
  tail_is = refl;
}

two_law : (index : ℕ) → index < 2 → next_modulo 2 index ≡ wrapped 2 index
two_law index lt = next_modulo-wrapped 2 index (omega arith) lt

scalar_merge_tuples-IsSorted_example :
    IsSorted (scalar_merge_tuples (run_of (1 ∷ 4 ∷ [])) (run_of (1 ∷ 2 ∷ []))).0
    × Perm
        (scalar_merge_tuples (run_of (1 ∷ 4 ∷ [])) (run_of (1 ∷ 2 ∷ []))).0
        (run_of (1 ∷ 4 ∷ []) ++ run_of (1 ∷ 2 ∷ []))
    × ((scalar_merge_tuples (run_of (1 ∷ 4 ∷ [])) (run_of (1 ∷ 2 ∷ []))).1 ≡ 4)
scalar_merge_tuples-IsSorted_example =
    scalar_merge_tuples-IsSorted (run_of (1 ∷ 4 ∷ [])) (run_of (1 ∷ 2 ∷ []))
      ((omega arith, tt), (tt, tt)) ((omega arith, tt), (tt, tt))

direct_copy-Moves_example :
    (n : ℕ) × (m : Moves 2 n empty_node full_node) × (direct_copy 2 empty_node full_node
      ≡ some (m.dest', m.src'))
    × ((m.dest'.count ≡ 2) ⊎ (m.src'.count ≡ 0))
direct_copy-Moves_example =
    direct_copy-Moves 2 empty_node full_node (omega arith) empty_node-IsRing full_node-IsRing
      (omega arith) (omega arith)

readmerge_scalar-Reads_example :
    Reads 2 (next_modulo 2) two_law empty_node (run_of (2 ∷ 3 ∷ [])) (run_of (1 ∷ 2 ∷ []))
readmerge_scalar-Reads_example =
    readmerge_scalar-Reads 2 (next_modulo 2) two_law empty_node (run_of (2 ∷ 3 ∷ []))
      (run_of (1 ∷ 2 ∷ [])) empty_node-IsRing

merge_scalar-Merges_example :
    Merges 2
      (next_modulo 2)
      two_law
      []
      (run_of (9 ∷ []))
      true
      false
      (merge_scalar (next_modulo 2) 2 empty_node full_node half_node true false)
      empty_node
      full_node
      half_node
merge_scalar-Merges_example =
    merge_scalar-Merges 2 (next_modulo 2) two_law [] (run_of (9 ∷ [])) empty_node full_node
      half_node true false (omega arith) empty_node-IsRing full_node-IsRing half_node-IsRing
      (omega arith) (λ e. refl) (λ e. absurd (ground arith))

mergestore_scalar-Stores_example :
    Stores 2
      (next_modulo 2)
      two_law
      []
      []
      true
      true
      (mergestore_scalar (next_modulo 2) 2 full_node half_node true true)
      full_node
      half_node
mergestore_scalar-Stores_example =
    mergestore_scalar-Stores 2 (next_modulo 2) two_law [] [] full_node half_node true true
      (omega arith) full_node-IsRing half_node-IsRing (λ e. refl) (λ e. refl)

abbrev memory : List (Tuple ℕ)
memory = run_of (
    0 ∷ 0 ∷ 0 ∷ 0 ∷ 0 ∷ 0 ∷ 0 ∷ 0 ∷ 0 ∷ 0 ∷ 0 ∷ 0 ∷ 0 ∷ 0 ∷ 0 ∷ 0 ∷ 0 ∷ 0 ∷ 0 ∷ 0 ∷ 0 ∷ 0 ∷ 0 ∷ 0
    ∷ 0 ∷ 0 ∷ 0 ∷ 0 ∷ 0 ∷ 0 ∷ 0 ∷ 0 ∷ 0 ∷ 0 ∷ 0 ∷ [])

-- Each of eight inputs has two tuples.
abbrev eight : ℕ → Relation ℕ
eight i = run_of (i ∷ (i + 5) ∷ [])

abbrev sizes : Sizes
sizes = record { merge_node = 8; relation = 8; tuple = 8 }

eight-IsSorted : (j : ℕ) → IsSorted (eight j)
eight-IsSorted j = ((omega arith, tt), (tt, tt))

-- With 35 tuples of memory there are 12 for the six rings.
eight_total : total_fifo_size sizes 8 35 ≡ 12
unfolding total_fifo_size reserved
eight_total = refl

eight_reserved : reserved sizes (2 * 3) 8 ≡ 15
unfolding reserved
eight_reserved = refl

eight_tuples : num_tuples 8 eight ≡ 16
unfolding sum
eight_tuples = refl

floor_log2 : ℕ → ℕ
floor_log2 n = elim (ltb n 2) [ true ↦ 0 | false ↦ 1 ]

floor_law : (n : ℕ) → 0 < n → 2 ^ floor_log2 n ≤ n
unfolding floor_log2
floor_law n lt = ground arith

two_slots : 1 < 2 ^ floor_log2 (total_fifo_size sizes 8 35 / (2 * 3))
unfolding floor_log2
two_slots = rw eight_total (omega arith)

scalar_multiway_merge_modulo-IsSorted_example :
    (out : Relation ℕ) × (scalar_multiway_merge_modulo sizes 200 eight 8 memory 35 ≡ some out)
    × IsSorted out
    × Perm out (gather 8 eight)
scalar_multiway_merge_modulo-IsSorted_example =
    scalar_multiway_merge_modulo-IsSorted sizes 3 200 8 35 memory eight refl (omega arith)
      (omega arith) (omega arith) (omega arith) (omega arith) (omega (arith, eight_reserved))
      (λ j. omega arith) eight-IsSorted (omega (arith, eight_tuples)) (rw eight_total (omega arith))

scalar_multiway_merge_bitand-IsSorted_example :
    (out : Relation ℕ) × (scalar_multiway_merge_bitand floor_log2 sizes 200 eight 8 memory 35
      ≡ some out)
    × IsSorted out
    × Perm out (gather 8 eight)
scalar_multiway_merge_bitand-IsSorted_example =
    scalar_multiway_merge_bitand-IsSorted sizes 3 200 8 35 memory eight refl (omega arith)
      (omega arith) (omega arith) (omega arith) (omega arith) (omega (arith, eight_reserved))
      (λ j. omega arith) eight-IsSorted (omega (arith, eight_tuples)) floor_log2 floor_law
      (rw eight_total (omega arith)) two_slots

scalar_multiway_merge-IsSorted_example :
    (out : Relation ℕ) × (scalar_multiway_merge sizes 200 eight 8 memory 35 ≡ some out)
    × IsSorted out
    × Perm out (gather 8 eight)
scalar_multiway_merge-IsSorted_example =
    scalar_multiway_merge-IsSorted sizes 3 200 8 35 memory eight refl (omega arith) (omega arith)
      (omega arith) (omega arith) (omega arith) (omega (arith, eight_reserved)) (λ j. omega arith)
      eight-IsSorted (omega (arith, eight_tuples)) (rw eight_total (omega arith))

readmerge_scalar_decomposed-Reads_example :
    (a : Fed 2 half_node (run_of (2 ∷ 3 ∷ [])) (run_of (1 ∷ 2 ∷ []))) × (readmerge_scalar_decomposed
        2 half_node
        (run_of (2 ∷ 3 ∷ []))
        (run_of (1 ∷ 2 ∷ []))
      ≡ some (a.node', a.xs', a.ys', length a.taken))
    × ((a.node'.count ≡ 2) ⊎ ((a.xs' ≡ []) × (a.ys' ≡ [])))
readmerge_scalar_decomposed-Reads_example =
    readmerge_scalar_decomposed-Reads 2 half_node (run_of (2 ∷ 3 ∷ [])) (run_of (1 ∷ 2 ∷ []))
      (omega arith) half_node-IsRing (omega arith)

merge_scalar_decomposed-Merges_example :
    Merges 2
      (wrapped 2)
      (wraps 2)
      []
      (run_of (9 ∷ []))
      true
      false
      (merge_scalar_decomposed 2 empty_node full_node half_node true false)
      empty_node
      full_node
      half_node
merge_scalar_decomposed-Merges_example =
    merge_scalar_decomposed-Merges 2 [] (run_of (9 ∷ [])) empty_node full_node half_node true false
      (omega arith) empty_node-IsRing full_node-IsRing half_node-IsRing (omega arith) (λ e. refl)
      (λ e. absurd (ground arith))

mergestore_scalar_decomposed-Stores_example :
    Stores 2
      (wrapped 2)
      (wraps 2)
      []
      []
      true
      true
      (mergestore_scalar_decomposed 2 full_node half_node true true)
      full_node
      half_node
mergestore_scalar_decomposed-Stores_example =
    mergestore_scalar_decomposed-Stores 2 [] [] full_node half_node true true (omega arith)
      full_node-IsRing half_node-IsRing (λ e. refl) (λ e. refl)

-- All sixteen tuples of the eight inputs are written.
eight_run :
    rounds (modulo 2) 6 2 40 (start 2 memory eight)
    ≡ some (run_of (0 ∷ 1 ∷ 2 ∷ 3 ∷ 4 ∷ 5 ∷ 5 ∷ 6 ∷ 6 ∷ 7 ∷ 7 ∷ 8 ∷ 9 ∷ 10 ∷ 11 ∷ 12 ∷ []))
unfolding rounds round leaves leaf read_leaf take drop inners inner merge_inner store_roots set_at
    start segment modulo readmerge_scalar_modulo merge_scalar_modulo mergestore_scalar_modulo
    readmerge_scalar merge_scalar mergestore_scalar read_both read_one merge_both merge_loops drain
    drain_both store_both store_rest store_both_rests store_loops direct_copy direct_copy_to_output
    copy_blocks copy_block dest_blocks src_blocks read_blocks read_block push next_modulo
eight_run = refl

decomposed_run :
    rounds (decomposed 2) 6 2 40 (start 2 memory eight)
    ≡ some (run_of (0 ∷ 1 ∷ 2 ∷ 3 ∷ 4 ∷ 5 ∷ 5 ∷ 6 ∷ 6 ∷ 7 ∷ 7 ∷ 8 ∷ 9 ∷ 10 ∷ 11 ∷ 12 ∷ []))
unfolding rounds round leaves leaf read_leaf take drop inners inner merge_inner store_roots set_at
    start segment decomposed readmerge_scalar_decomposed merge_scalar_decomposed
    mergestore_scalar_decomposed assign part_end second_part fill_both fill_first fill_second
    fill_one fill_rest fill_rests fill_remaining new_reader new_writer turn turn_writer
    serial_merge_kernel merge_parts drain_part turn_drained drain_parts drain_child drain_children
    merge_children serial_mergestore_kernel store_parts store_part store_rest_parts store_child
    store_children store_nodes direct_copy direct_copy_to_output copy_blocks copy_block dest_blocks
    src_blocks read_blocks read_block
decomposed_run = refl

-- With four inputs the nodes 0 and 1 are leaves. The second round skips a leaf that is not done but
-- holds enough tuples, so nothing clears `finished`, and the tuples from 10 on are not written.
abbrev four : ℕ → Relation ℕ
four zero = run_of (10 ∷ 11 ∷ 12 ∷ 13 ∷ 14 ∷ 15 ∷ [])
four (suc zero) = []
four (suc (suc zero)) = run_of (1 ∷ 2 ∷ 3 ∷ 4 ∷ 5 ∷ [])
four (suc (suc (suc i))) = []

four_run : rounds (modulo 4) 2 4 40 (start 4 memory four) ≡ some (run_of (1 ∷ 2 ∷ 3 ∷ 4 ∷ 5 ∷ []))
unfolding rounds round leaves leaf read_leaf take drop inners inner merge_inner store_roots set_at
    start segment modulo readmerge_scalar_modulo merge_scalar_modulo mergestore_scalar_modulo
    readmerge_scalar merge_scalar mergestore_scalar read_both read_one merge_both merge_loops drain
    drain_both store_both store_rest store_both_rests store_loops direct_copy direct_copy_to_output
    copy_blocks copy_block dest_blocks src_blocks read_blocks read_block push next_modulo
four_run = refl
