-- ===== src/Merging/Multiway/Result.antt =====
-- The multi-way merge of sorted inputs.
use mathlib.Core.List.{Perm}
use mathlib.Core.Path.{subst}
use native.Mathlib.Nat.{
  zero-mul, lt-div-mul-add, mul-le-mul_right, add-mul, mul-div-le, mul-le-mul_left, mul_comm,
}
use hashing_old_archive.Prelude.{
  ℕ, zero, suc, ◌+◌, ◌-◌, ◌*◌, ◌/◌, ◌%◌, ◌^◌, ◌<◌, ◌≤◌, ◌≡◌, refl, true, List, none, some,
  if◌then◌else◌, arith, sym, ◌∙◌, ap, length,
}
use hashing_old_archive.Merging.{Tuple, Relation}
use hashing_old_archive.Merging.Reference.{merge, IsSorted, merge-IsSorted}
use hashing_old_archive.Merging.Ring.Window.{window}
use hashing_old_archive.Merging.Multiway.{Variant, rounds, modulo, bitand, decomposed}
use hashing_old_archive.Merging.Multiway.State.{IsVariant}
use hashing_old_archive.Merging.Multiway.Work.{sum, work, shape}
use hashing_old_archive.Merging.Multiway.Store.{remaining}
use hashing_old_archive.Merging.Multiway.Whole.{rounds-remaining}
use hashing_old_archive.Merging.Multiway.Variants.{
  modulo-IsVariant, bitand-IsVariant, decomposed-IsVariant,
}
use hashing_old_archive.Merging.Multiway.Start.{
  Sizes, total_fifo_size, reserved, in_buffer, start, expected, expected-IsSorted, start-IsTree,
  scalar_multiway_merge, scalar_multiway_merge_modulo, scalar_multiway_merge_bitand,
}
use hashing_old_archive.Merging.Multiway.Inputs.{gather, merge-gather}

sum-mul : (n k : ℕ) (g : ℕ → ℕ) → sum n (λ i. g i * k) ≡ sum n g * k
unfolding sum
sum-mul zero k g = sym (zero-mul k)
sum-mul (suc n) k g = omega (arith, sum-mul n k g)

sum_zero : (n : ℕ) → sum n (λ i. 0 * (i + 1)) ≡ 0
unfolding sum
sum_zero zero = refl
sum_zero (suc n) = omega (arith, sum_zero n)

sum_one : (n : ℕ) → sum n (λ i. 1) ≡ n
unfolding sum
sum_one zero = refl
sum_one (suc n) = omega (arith, sum_one n)

nfifos-eq :
    (h nparts : ℕ) → nparts ≡ 2 * h + 2 → nparts < 2 ^ 32 → (nparts + 2 ^ 32 - 2) % 2 ^ 32 ≡ 2 * h
nfifos-eq h nparts even fit = omega arith

total_fifo_size-lt :
    (sizes : Sizes) (nparts bufntuples : ℕ) → total_fifo_size sizes nparts bufntuples < 2 ^ 32
unfolding total_fifo_size
total_fifo_size-lt sizes nparts bufntuples = omega arith

-- Rings of at most this size are small and fit in what they share.
fifo_size_small : (f h total : ℕ) → 3 ≤ h → f ≤ total / (2 * h) → total < 2 ^ 32 → f < 2 ^ 31
fifo_size_small f h total deep le fit =
    let share = mul-div-le total (2 * h) in
    let six_le : 6 ≤ 2 * h = omega arith in
    let six = mul-le-mul_left (total / (2 * h)) six_le in
    omega (arith, share, six, mul_comm (2 * h) (total / (2 * h)))

fifo_size_fits : (f h total : ℕ) → f ≤ total / (2 * h) → f * (2 * h) ≤ total
fifo_size_fits f h total le =
    let share = mul-div-le total (2 * h) in
    let all = mul-le-mul_left (2 * h) le in omega (arith, share, all, mul_comm (2 * h) f)

module _ {ℓ} {V : Type ℓ} where
  -- How many tuples the inputs have.
  abbrev pub num_tuples : ℕ → (ℕ → Relation V) → ℕ
  num_tuples nparts parts = sum nparts (λ c. length (parts c))

  start-work :
      (f nfifos : ℕ) (fifobuffer : List (Tuple V)) (parts : ℕ → Relation V)
      → work nfifos (shape (start f fifobuffer parts))
        ≡ num_tuples (nfifos + 2) parts * (nfifos + 1) + nfifos
  unfolding work start
  start-work f nfifos fifobuffer parts = omega (
    arith,
    sum-mul (nfifos + 2) (nfifos + 1) (λ c. length (parts c)),
    sum_zero nfifos,
    sum_one nfifos,
  )

  remaining-start :
      (f nfifos : ℕ) (fifobuffer : List (Tuple V)) (parts : ℕ → Relation V) (later : ℕ → Relation V)
      → remaining f nfifos (start f fifobuffer parts) later ≡ merge (later 0) (later 1)
  unfolding start window
  remaining-start f nfifos fifobuffer parts later = refl

  -- With rounds for each tuple and each node, and inputs of fewer than 2 ^ 32 tuples, a variant writes a sorted permutation of its inputs.
  rounds-IsSorted :
      (variant : Variant V) (f h fuel : ℕ) (fifobuffer : List (Tuple V)) (parts : ℕ → Relation V)
      → IsVariant f variant
      → 3 ≤ h
      → 1 < f
      → f * (2 * h) ≤ length fifobuffer
      → ((j : ℕ) → length (parts j) < 2 ^ 32)
      → ((j : ℕ) → IsSorted (parts j))
      → num_tuples (2 * h + 2) parts * (2 * h + 1) + 2 * h < fuel
      → (out : Relation V) × (rounds variant (2 * h) f fuel (start f fifobuffer parts) ≡ some out)
        × IsSorted out
        × Perm out (gather (2 * h + 2) parts)
  rounds-IsSorted variant f h fuel fifobuffer parts law deep slots room small sorted enough =
      let runs =
        rounds-remaining f (2 * h) variant law h fuel (start f fifobuffer parts)
          (expected (2 * h) parts (2 * h)) refl deep slots
          (omega (arith, start-work f (2 * h) fifobuffer parts))
          (start-IsTree (2 * h) parts h refl f fifobuffer (omega arith) room small) in
      (
        merge (expected (2 * h) parts (2 * h) 0) (expected (2 * h) parts (2 * h) 1),
        runs
            ∙ ap some (remaining-start f (2 * h) fifobuffer parts (expected (2 * h) parts (2 * h))),
        merge-IsSorted _ _ (expected-IsSorted (2 * h) parts (2 * h) 0 sorted)
            (expected-IsSorted (2 * h) parts (2 * h) 1 sorted),
        merge-gather (2 * h) h refl parts (omega arith),
      )

  module _ (sizes : Sizes) (h fuel nparts bufntuples : ℕ) (fifobuffer : List (Tuple V))
      (parts : ℕ → Relation V) (even : nparts ≡ 2 * h + 2) (deep : 3 ≤ h) (fit : nparts < 2 ^ 32)
      (some_bytes : 0 < sizes.tuple) (few : bufntuples < 2 ^ 32)
      (room : bufntuples ≤ length fifobuffer)
      (kept : nparts + reserved sizes (2 * h) nparts ≤ bufntuples)
      (small : (j : ℕ) → length (parts j) < 2 ^ 32) (sorted : (j : ℕ) → IsSorted (parts j))
      (enough : num_tuples nparts parts * (2 * h + 1) + 2 * h < fuel) where
    rings-eq :
        total_fifo_size sizes nparts bufntuples
        ≡ bufntuples - nparts - reserved sizes (2 * h) nparts
    unfolding total_fifo_size
    rings-eq = rw (nfifos-eq h nparts even fit) (omega (arith, kept, few, fit))

    -- The nodes and the flags end within the memory.
    in_memory :
        in_buffer sizes (2 * h) (total_fifo_size sizes nparts bufntuples) (length fifobuffer) ≡ true
    unfolding in_buffer reserved
    in_memory =
        let t = sizes.tuple in
        let used = reserved sizes (2 * h) nparts in
        let rings = total_fifo_size sizes nparts bufntuples in
        let whole : (2 * h) * sizes.merge_node + 2 * h + nparts * sizes.relation + t - 1
            < used * t + t =
          lt-div-mul-add {a = (2 * h) * sizes.merge_node + 2 * h + nparts * sizes.relation + t - 1}
            some_bytes in
        let all : (rings + used) * t ≤ length fifobuffer * t =
          mul-le-mul_right t (omega (arith, rings-eq, kept, room)) in
        ground (arith, whole, all, add-mul rings used t)

    -- Kernels on rings that share the memory evenly.
    equal_rings :
        (variant : ℕ → Variant V)
        → ((f : ℕ) → f < 2 ^ 31 → IsVariant f (variant f))
        → 1 < total_fifo_size sizes nparts bufntuples / (2 * h)
        → let nfifos = (nparts + 2 ^ 32 - 2) % 2 ^ 32 in
          let totalfifosize = total_fifo_size sizes nparts bufntuples in
          let fifosize = totalfifosize / nfifos in
          (out : Relation V) × ((if in_buffer sizes nfifos totalfifosize (length fifobuffer)
              then rounds (variant fifosize) nfifos fifosize fuel (start fifosize fifobuffer parts)
              else none)
            ≡ some out)
          × IsSorted out
          × Perm out (gather nparts parts)
    equal_rings variant law slots =
        let total = total_fifo_size sizes nparts bufntuples in
        let f = total / (2 * h) in
        let (out, runs, is_sorted, perm) =
          rounds-IsSorted (variant f) f h fuel fifobuffer parts
            (law f (
              fifo_size_small f h total deep (omega arith)
                (total_fifo_size-lt sizes nparts bufntuples)))
            deep slots (omega (arith, fifo_size_fits f h total (omega arith), rings-eq, room)) small
            sorted (rw even at enough) in
        (
          out,
          rw (nfifos-eq h nparts even fit, in_memory) runs,
          is_sorted,
          subst (λ n. Perm out (gather n parts)) (sym even) perm,
        )

    -- For an even number of sorted inputs, at least eight and fewer than 2 ^ 32, each of fewer than 2 ^ 32
    -- tuples, and memory for fewer than 2 ^ 32 tuples with room for the nodes, their flags, what is kept for the
    -- inputs, and rings of at least two slots each, the variant with a remainder ends without an access out of
    -- range and writes a sorted permutation of all inputs. The fuel is enough if it is above the number of
    -- tuples times the number of nodes and one, plus the number of nodes.
    pub scalar_multiway_merge_modulo-IsSorted :
        1 < total_fifo_size sizes nparts bufntuples / (2 * h)
        → (out : Relation V) × (scalar_multiway_merge_modulo sizes fuel parts nparts fifobuffer
              bufntuples
            ≡ some out)
          × IsSorted out
          × Perm out (gather nparts parts)
    unfolding scalar_multiway_merge_modulo
    scalar_multiway_merge_modulo-IsSorted = equal_rings modulo modulo-IsVariant

    -- For an even number of sorted inputs, at least eight and fewer than 2 ^ 32, each of fewer than 2 ^ 32
    -- tuples, and memory for fewer than 2 ^ 32 tuples with room for the nodes, their flags, what is kept for the
    -- inputs, and rings of at least two slots each, the decomposed variant ends without an access out of
    -- range and writes a sorted permutation of all inputs. The fuel is enough if it is above the number of
    -- tuples times the number of nodes and one, plus the number of nodes.
    pub scalar_multiway_merge-IsSorted :
        1 < total_fifo_size sizes nparts bufntuples / (2 * h)
        → (out : Relation V) × (scalar_multiway_merge sizes fuel parts nparts fifobuffer bufntuples
            ≡ some out)
          × IsSorted out
          × Perm out (gather nparts parts)
    unfolding scalar_multiway_merge
    scalar_multiway_merge-IsSorted = equal_rings decomposed decomposed-IsVariant

    -- For an even number of sorted inputs, at least eight and fewer than 2 ^ 32, each of fewer than 2 ^ 32
    -- tuples, and memory for fewer than 2 ^ 32 tuples with room for the nodes, their flags, what is kept for the
    -- inputs, and rings of at least two slots each,
    -- whose size `log2` rounds down, the variant with a mask ends without an access out of
    -- range and writes a sorted permutation of all inputs. The fuel is enough if it is above the number of
    -- tuples times the number of nodes and one, plus the number of nodes.
    pub scalar_multiway_merge_bitand-IsSorted :
        (log2 : ℕ → ℕ)
        → ((n : ℕ) → 0 < n → 2 ^ log2 n ≤ n)
        → 0 < total_fifo_size sizes nparts bufntuples / (2 * h)
        → 1 < 2 ^ log2 (total_fifo_size sizes nparts bufntuples / (2 * h))
        → (out : Relation V) × (scalar_multiway_merge_bitand log2 sizes fuel parts nparts fifobuffer
              bufntuples
            ≡ some out)
          × IsSorted out
          × Perm out (gather nparts parts)
    unfolding scalar_multiway_merge_bitand
    scalar_multiway_merge_bitand-IsSorted log2 floor positive slots =
        let total = total_fifo_size sizes nparts bufntuples in
        let k = log2 (total / (2 * h)) in
        let (out, runs, is_sorted, perm) =
          rounds-IsSorted (bitand (2 ^ k)) (2 ^ k) h fuel fifobuffer parts
            (bitand-IsVariant k (
              fifo_size_small (2 ^ k) h total deep (floor (total / (2 * h)) positive)
                (total_fifo_size-lt sizes nparts bufntuples)))
            deep slots
            (omega (
              arith,
              fifo_size_fits (2 ^ k) h total (floor (total / (2 * h)) positive),
              rings-eq,
              room,
            ))
            small sorted (rw even at enough) in
        (
          out,
          rw (nfifos-eq h nparts even fit, in_memory) runs,
          is_sorted,
          subst (λ n. Perm out (gather n parts)) (sym even) perm,
        )
