-- ===== src/Lib.antt =====
-- Verification of the hashtables of this repository, of the reducers that take a hash to a bucket, of
-- the radix spline, a learned model that stands in for a hash function, and of parts of the
-- threaded hashing: the scalar multi-way merge, the binary search and the spin lock.
--
-- The benchmarks build a hashtable of hashtable/include over a hash function and a reducer of
-- reduction/reduction.hpp: a key is hashed, the hash is reduced to an index of the directory, and the
-- table works on the bucket there. All of these are template parameters of the tables, and parameters
-- of the model: a theorem asks of a reduction only that it stays in the directory
-- (Reduction/Range).
--
--   * Prelude: shared names, Boolean tests on the native numbers, lists with indices of the native
--     numbers, masks.
--   * Reduction: reduction/reduction.hpp, one function per reducer (`Modulo`, `FastModulo`,
--     `BranchlessFastModulo`, `Fastrange`, `Clamp`, `shift`) and the folds of 128-bit hashes. A word
--     of w bits is a number below 2 ^ w and the wrap-around is written out.
--   * Hashtable/Slots, Hashtable/Contents, Hashtable/Vacant: the slots of a bucket, the loops over
--     them that the tables share, and what a table holds for a key.
--   * Hashtable/Probing: `Probing`, `LinearProbingFunc` and `QuadraticProbingFunc` of
--     hashtable/include/probing.hpp.
--   * Hashtable/Chained: `Chained` of hashtable/include/chained.hpp; the linked list of buckets, which
--     no other pointer reaches, is a list.
--   * Hashtable/Cuckoo: `Cuckoo`, `BalancedKicking` and `BiasedKicking` of
--     hashtable/include/cuckoo.hpp.
--   * RadixSpline: `RadixSpline` of learned_models/rs/radix_spline.h with the types of
--     learned_models/rs/common.h; a key is looked up in the radix table, then searched for among the
--     spline points, and its position is interpolated.
--   * RadixSpline/Builder: `Builder` of learned_models/rs/builder.h, and the build from sorted keys in
--     the constructor of `MultiMap` in learned_models/rs/multi_map.h. The lookups of RadixSpline are stated
--     for models with the predicate `IsIndexed`.
--   * RadixSpline/Serializer: `Serializer` of learned_models/rs/serializer.h on a little-endian machine.
--
--   * Merging: `scalar_merge_int64` and `scalar_merge_tuples` of
--     learned_models/learned_imv_threaded_hashing/include/utils/eth_avx_merge/merge.h, and the multi-way
--     merge of scalar_multiwaymerge.h beside it. Merging/Ring is `MergeNode`, a ring buffer;
--     Merging/Copy is `direct_copy`, `direct_copy_modulo` and `direct_copy_to_output`; Merging/Kernels
--     has `readmerge_scalar`, `merge_scalar` and `mergestore_scalar` over a way to move an index on, which
--     the variants of the source fill in; Merging/Decomposed has the kernels of the third variant,
--     `readmerge_scalar_decomposed` in Decomposed, `merge_scalar_decomposed` in Decomposed/Parts and
--     `mergestore_scalar_decomposed` in Decomposed/Output: First, Rest and Load are about the first,
--     Readers, Writers, Kernel, Chunks, Drain, Turns and Node about the second, Store, Empty and Root about
--     the third. Merging/Multiway is the loop over the tree of nodes, over the kernels of a variant.
--     Merging/Multiway/State has what the loop asks of the kernels (`IsVariant`) and
--     the invariant of the tree (`IsTree`); Merging/Multiway/Start has the sizes and the state at the start.
--     Merging/Multiway/Leaf and Leaves follow the loop over the leaves, Inner and Inners the loop over the
--     inner nodes, Store and Root the end of a round and the round. Merging/Multiway/Work measures a tree,
--     Lower follows the measure through a round, Quiet is about a round that changes nothing, Whole puts
--     the rounds together, Inputs is about the tuples of the inputs and Result about the whole merge.
--
--   * Search: `branchless_binary_search` of
--     learned_models/learned_imv_threaded_hashing/include/utils/algorithms.h; an array is a list.
--   * Locking: the spin lock of lock.h beside it, with threads that lock and unlock as a step relation. The
--     exchange is one step, and memory is sequentially consistent.
--
-- Keys are numbers and the sentinel is one of them. A payload that C++ leaves uninitialised is an
-- argument of the model. A call ends with an `Outcome`: it returns, throws, reads out of range, or
-- runs out of fuel. The fuel of the probing loops is the size of the directory, which is enough
-- because a probing function is back at its start after that many steps (the law `cycles` of
-- `Prober`). Assertions are left out, as in a release build, the default of CMakeLists.txt; the
-- theorems on `insert` and `lookup` exclude the sentinel, on which they would fail. The size of a
-- directory is rounded up in 64 bits. `linear_prober` is for directories of at most 2 ^ 63 buckets and `quadratic_prober` for
-- fewer than 2 ^ 32, so that no 64-bit sum wraps. The kick loop of the cuckoo table has its own bound,
-- `MaxKickCycleLength`.
--
-- A function of the radix spline returns none where the source would read or write out of range, shift
-- by the width of the key or more, ask for the leading zeros of 0, or overflow the counter of a loop. Its
-- doubles are a type with operations, `Doubles`, of which no law is assumed, so that the error of
-- the spline is left open. The searches have the length of their range as
-- fuel.
--
-- A result of none of a merge stands for an access out of range, or for rounds that run out. A stream is what a node holds and what
-- it still gets; a kernel takes from the front of the merge of two streams. The nodes, their flags
-- and the inputs are arrays with a check of the index. The nodes and flags lie behind the rings in the
-- same memory, and a merge begins with a check that they end in it (`in_buffer`). The number of tuples
-- of an input is cut to 32 bits where a leaf reads (`told`). The loops of a kernel recurse on the free
-- slots or the tuples that are left; the loop over the blocks has four rounds, one for each block; the
-- decomposed kernels have a round for each tuple and one to stop, and two for what one side still has;
-- the outer loop has rounds as fuel. The work of a tree is one for each node that is not done, i + 1 for
-- each tuple in node i, and for each tuple of an input one more than there are nodes; a round that does
-- not end the loop lowers it, so that the work at the start is fuel enough. The sizes of types are a parameter of
-- the size of a ring, and so is `log2` of the C library.
--
-- Not modelled: libdivide (its division is a parameter with the law that it divides), the random
-- number generator (a parameter), the count of leading zeros of the compiler (a parameter), the
-- hash functions and the other learned models, of the threaded hashing the sorting, the merges with
-- AVX, the task queues and the barrier, `RobinhoodProbing`,
-- `lookup_statistics` and the names of the tables, and the benchmarks.
pub mod Prelude
pub mod Reduction
pub mod Hashtable
pub mod Locking
pub mod Merging
pub mod RadixSpline
pub mod Search
