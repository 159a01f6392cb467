-- ===== src/Merging/Multiway/Start.antt =====
-- The start of the multi-way merge: the memory that is handed in is cut into the ring buffers.
use hashing_old_archive.Prelude.{
  ℕ, zero, suc, ◌+◌, ◌-◌, ◌*◌, ◌/◌, ◌%◌, ◌^◌, ◌<◌, ◌≤◌, ◌≡◌, refl, Bool, true, false, List, [], ◌∷◌,
  Option, none, leb, if◌then◌else◌, arith, inl, inr, sym, ◌∙◌, ap, length, Bool-cases, lt_cases,
}
use native.Mathlib.Nat.{mul-suc}
use hashing_old_archive.Merging.{Tuple, Relation}
use hashing_old_archive.Merging.Reference.{merge, IsSorted, merge-IsSorted}
use hashing_old_archive.Merging.Ring.Window.{window}
use hashing_old_archive.Merging.Multiway.{Fifos, rounds, modulo, bitand, decomposed}
use hashing_old_archive.Merging.Multiway.State.{IsTree}

-- The sizes in bytes of the types that share the memory with the ring buffers.
pub record Sizes : Type 0 where
  pub merge_node : ℕ
  pub relation : ℕ
  pub tuple : ℕ

-- What the nodes, the flags and the inputs take of the memory, in tuples, rounded up.
unfoldable pub reserved : Sizes → ℕ → ℕ → ℕ
reserved sizes nfifos nparts =
    (nfifos * sizes.merge_node + nfifos + nparts * sizes.relation + sizes.tuple - 1) / sizes.tuple

-- `totalfifosize`, of 32 bits, from an expression of 64 bits.
unfoldable pub total_fifo_size : Sizes → ℕ → ℕ → ℕ
total_fifo_size sizes nparts bufntuples =
    let nfifos = (nparts + 2 ^ 32 - 2) % 2 ^ 32 in
    ((bufntuples + 2 ^ 32 - nparts) % 2 ^ 32 + 2 ^ 64 - reserved sizes nfifos nparts)
    % 2 ^ 64
    % 2 ^ 32

-- Whether the nodes and the flags, which lie behind the rings, end within memory for `ntuples`
-- tuples. The rings end before them, so that the two are kept apart in the state.
unfoldable pub in_buffer : Sizes → ℕ → ℕ → ℕ → Bool
in_buffer sizes nfifos totalfifosize ntuples =
    leb (totalfifosize * sizes.tuple + nfifos * sizes.merge_node + nfifos) (ntuples * sizes.tuple)

-- The part of an array from an index on.
unfoldable pub segment {ℓ} : {A : Type ℓ} → ℕ → ℕ → List A → List A
segment i n [] = []
segment zero zero (x ∷ l) = []
segment zero (suc n) (x ∷ l) = x ∷ segment zero n l
segment (suc i) n (x ∷ l) = segment i n l

length-segment {ℓ} :
    {A : Type ℓ} (i n : ℕ) (l : List A) → i + n ≤ length l → length (segment i n l) ≡ n
unfolding segment
length-segment zero zero [] le = refl
length-segment zero (suc n) [] le = absurd (omega arith)
length-segment (suc i) n [] le = absurd (omega arith)
length-segment zero zero (x ∷ l) le = refl
length-segment zero (suc n) (x ∷ l) le = ap suc (length-segment zero n l (omega arith))
length-segment (suc i) n (x ∷ l) le = length-segment i n l (omega arith)

segment_end : (f i n : ℕ) → i < n → f * i + f ≤ f * n
segment_end f i zero lt = absurd (omega arith)
segment_end f zero (suc n) lt = rw (mul-suc f n) (omega arith)
segment_end f (suc i) (suc n) lt =
    rw (mul-suc f i, mul-suc f n) (omega (arith, segment_end f i n (omega arith)))

module _ {ℓ} {V : Type ℓ} where
  unfoldable pub start : ℕ → List (Tuple V) → (ℕ → Relation V) → Fifos V
  start fifosize fifobuffer parts = record {
    nodes = λ i. record {
      buffer = segment (fifosize * i) fifosize fifobuffer;
      count = 0;
      head = 0;
      tail = 0;
    };
    done = λ i. false;
    parts = parts;
  }

  -- `scalar_multiway_merge`, the decomposed variant, with rounds as fuel. None also when the
  -- nodes and the flags do not fit in the memory.
  unfoldable pub scalar_multiway_merge :
      Sizes → ℕ → (ℕ → Relation V) → ℕ → List (Tuple V) → ℕ → Option (Relation V)
  scalar_multiway_merge sizes fuel parts nparts fifobuffer bufntuples =
      let nfifos = (nparts + 2 ^ 32 - 2) % 2 ^ 32 in
      let totalfifosize = total_fifo_size sizes nparts bufntuples in
      let fifosize = totalfifosize / nfifos in
      if in_buffer sizes nfifos totalfifosize (length fifobuffer)
      then rounds (decomposed fifosize) nfifos fifosize fuel (start fifosize fifobuffer parts)
      else none

  -- `scalar_multiway_merge_modulo`.
  unfoldable pub scalar_multiway_merge_modulo :
      Sizes → ℕ → (ℕ → Relation V) → ℕ → List (Tuple V) → ℕ → Option (Relation V)
  scalar_multiway_merge_modulo sizes fuel parts nparts fifobuffer bufntuples =
      let nfifos = (nparts + 2 ^ 32 - 2) % 2 ^ 32 in
      let totalfifosize = total_fifo_size sizes nparts bufntuples in
      let fifosize = totalfifosize / nfifos in
      if in_buffer sizes nfifos totalfifosize (length fifobuffer)
      then rounds (modulo fifosize) nfifos fifosize fuel (start fifosize fifobuffer parts)
      else none

  -- `scalar_multiway_merge_bitand`; `log2` is that of the C library, rounded down.
  unfoldable pub scalar_multiway_merge_bitand :
      (ℕ → ℕ) → Sizes → ℕ → (ℕ → Relation V) → ℕ → List (Tuple V) → ℕ → Option (Relation V)
  scalar_multiway_merge_bitand log2 sizes fuel parts nparts fifobuffer bufntuples =
      let nfifos = (nparts + 2 ^ 32 - 2) % 2 ^ 32 in
      let totalfifosize = total_fifo_size sizes nparts bufntuples in
      let fifosize = 2 ^ log2 (totalfifosize / nfifos) in
      if in_buffer sizes nfifos totalfifosize (length fifobuffer)
      then rounds (bitand fifosize) nfifos fifosize fuel (start fifosize fifobuffer parts)
      else none

  module _ (nfifos : ℕ) (parts : ℕ → Relation V) where
    -- What the inputs below a node merge to; the fuel bounds the depth.
    unfoldable pub expected : ℕ → ℕ → Relation V
    expected zero i = []
    expected (suc fuel) i =
        let right = expected fuel (2 * i + 2) in
        let left = expected fuel (2 * i + 3) in
        if leb nfifos (2 * i + 2)
        then merge (parts (2 * (nfifos - 1 - i))) (parts (2 * (nfifos - 1 - i) + 1))
        else merge right left

    pub expected-leaf :
        (fuel i : ℕ)
        → nfifos ≤ 2 * i + 2
        → expected (suc fuel) i
          ≡ merge (parts (2 * (nfifos - 1 - i))) (parts (2 * (nfifos - 1 - i) + 1))
    unfolding expected
    expected-leaf fuel i le =
        let e : leb nfifos (2 * i + 2) ≡ true = ground arith in rw (expected, e) refl

    pub expected-inner :
        (fuel i : ℕ)
        → 2 * i + 3 < nfifos
        → expected (suc fuel) i ≡ merge (expected fuel (2 * i + 2)) (expected fuel (2 * i + 3))
    unfolding expected
    expected-inner fuel i lt =
        let e : leb nfifos (2 * i + 2) ≡ false = ground arith in rw (expected, e) refl

    module _ (h : ℕ) (even : nfifos ≡ 2 * h) where
      -- With fuel for the rest of the nodes, more fuel changes nothing.
      pub expected-stable :
          (fuel fuel' i : ℕ)
          → nfifos ≤ i + fuel
          → nfifos ≤ i + fuel'
          → i < nfifos
          → expected fuel i ≡ expected fuel' i
      expected-stable zero fuel' i enough enough' lt = absurd (omega arith)
      expected-stable (suc fuel) zero i enough enough' lt = absurd (omega arith)
      expected-stable (suc fuel) (suc fuel') i enough enough' lt =
          elim (lt_cases (2 * i + 2) nfifos) [
            | inr low ↦ expected-leaf fuel i low ∙ sym (expected-leaf fuel' i low)
            | inl above ↦
                expected-inner fuel i (omega arith)
                ∙ ap (λ l. merge l (expected fuel (2 * i + 3)))
                    (expected-stable fuel fuel' (2 * i + 2) (omega arith) (omega arith)
                      (omega arith))
                ∙ ap (merge (expected fuel' (2 * i + 2))) (
                    expected-stable fuel fuel' (2 * i + 3) (omega arith) (omega arith)
                      (omega arith))
                ∙ sym (expected-inner fuel' i (omega arith))
          ]

      -- At the start, with inputs of fewer than 2 ^ 32 tuples and memory for the ring buffers of an even number of nodes, of at least one slot each, the invariant
      -- of the tree holds, and each node gets what the inputs below it merge to.
      pub start-IsTree :
          (f : ℕ) (fifobuffer : List (Tuple V))
          → 0 < f
          → f * nfifos ≤ length fifobuffer
          → ((j : ℕ) → length (parts j) < 2 ^ 32)
          → IsTree f nfifos (start f fifobuffer parts) (expected nfifos)
      unfolding start window
      start-IsTree f fifobuffer some_slots room small = record {
        ring = λ i lt. record {
          size = length-segment (f * i) f fifobuffer (omega (arith, segment_end f i nfifos lt));
          bounded = omega arith;
          inside = some_slots;
          tail_is = ground arith;
        };
        inner = λ i lt.
            expected-stable nfifos (suc nfifos) i (omega arith) (omega arith) (omega arith)
            ∙ expected-inner nfifos i lt;
        leaf = λ i lt le.
            expected-stable nfifos (suc nfifos) i (omega arith) (omega arith) lt
            ∙ expected-leaf nfifos i le;
        ended = λ i lt d. absurd (ground arith);
        closed = λ i lt d. absurd (ground arith);
        small = small;
      }

    -- Sorted inputs merge to a sorted run.
    pub expected-IsSorted :
        (fuel i : ℕ) → ((j : ℕ) → IsSorted (parts j)) → IsSorted (expected fuel i)
    unfolding expected
    expected-IsSorted zero i sorted = tt
    expected-IsSorted (suc fuel) i sorted = elim (Bool-cases (leb nfifos (2 * i + 2))) [
      | inl e ↦ rw (expected, e) (merge-IsSorted _ _ (sorted _) (sorted _))
      | inr e ↦
          rw (expected, e)
            (merge-IsSorted _ _ (expected-IsSorted fuel (2 * i + 2) sorted)
              (expected-IsSorted fuel (2 * i + 3) sorted))
    ]
