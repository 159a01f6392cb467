-- ===== src/Merging/Decomposed/First.antt =====
-- `readmerge_scalar_decomposed` while both inputs have tuples, in both parts of the free slots.
use hashing_old_archive.Prelude.{
  ℕ, ◌+◌, ◌-◌, ◌<◌, ◌≡◌, refl, [], some, ◌==◌, arith, Bool-cases, inl, inr, not, ◌&&◌, sym, ◌∙◌, ap,
  ◌⊎◌,
}
use hashing_old_archive.Merging.{Relation}
use hashing_old_archive.Merging.Ring.{MergeNode}
use hashing_old_archive.Merging.Ring.Steps.{IsRing}
use hashing_old_archive.Merging.Kernels.Read.{Fed, fed_none}
use hashing_old_archive.Merging.Decomposed.{at_end, part_end, second_part, fill_first, fill_second}
use hashing_old_archive.Merging.Decomposed.Fill.{FreePart, Filled, fill_both-Filled}

module _ {ℓ} {V : Type ℓ} (f : ℕ) where
  -- The state that the source stores behind a part.
  filled_node :
      (node : MergeNode V) (oi slots count : ℕ) (xs ys : Relation V)
      (a : Filled f node oi slots xs ys)
      → count ≡ node.count + (a.oi' - oi)
      → record node { buffer = a.fed.node'.buffer; count = count; tail = at_end f a.oi' }
        ≡ a.fed.node'
  filled_node node oi slots count xs ys a e =
      let whole : count ≡ a.fed.node'.count = omega (arith, a.counts, a.fed.count) in
      λ j. record {
        buffer = a.fed.node'.buffer;
        count = whole j;
        head = sym a.head j;
        tail = sym a.part.tail j;
      }

  pub first_part :
      (node : MergeNode V)
      → IsRing f node
      → node.count < f
      → FreePart f node node.tail (part_end f node - node.tail)
  unfolding part_end
  first_part node r room = record {
    tail = ground (arith, r.tail_is, r.inside);
    inside = ground (arith, r.tail_is, r.inside);
    free = ground (arith, r.tail_is, r.inside);
  }

  -- The loops over both inputs, on the first part and on both.
  abbrev pub First : MergeNode V → Relation V → Relation V → Type ℓ
  First node xs ys = Filled f node node.tail (part_end f node - node.tail) xs ys

  pub fill_first-Filled :
      (node : MergeNode V) (xs ys : Relation V)
      → IsRing f node
      → node.count < f
      → (a : First node xs ys) × (fill_first f node xs ys
          ≡ some (a.slots', a.fed.node', a.fed.xs', a.fed.ys'))
        × ((a.slots' ≡ 0) ⊎ ((a.fed.xs' ≡ []) ⊎ (a.fed.ys' ≡ [])))
  unfolding fill_first
  fill_first-Filled node xs ys r room =
      let (a, runs, end) =
        fill_both-Filled f (part_end f node - node.tail) node.tail node xs ys r
          (first_part node r room) in
      (
        a,
        rw runs (
            ap (λ n. some (a.slots', n, a.fed.xs', a.fed.ys'))
              (filled_node node node.tail (part_end f node - node.tail) _ xs ys a refl)),
        end,
      )

  -- The first part is full, and there is no second one.
  one_part :
      (node : MergeNode V) (xs ys : Relation V)
      → IsRing f node
      → node.count < f
      → (a : First node xs ys) → a.slots' ≡ 0
      → second_part node ≡ 0
      → a.fed.node'.count ≡ f
  unfolding part_end second_part
  one_part node xs ys r room a full none_second =
      ground (arith, r.tail_is, r.inside, a.indices, a.counts, full, none_second)

  two_parts :
      (node : MergeNode V) (xs ys : Relation V)
      → IsRing f node
      → node.count < f
      → (a : First node xs ys) → a.slots' ≡ 0
      → 0 < second_part node
      → FreePart f a.fed.node' 0 (second_part node) × (a.fed.node'.count + second_part node ≡ f)
  unfolding part_end second_part
  two_parts node xs ys r room a full some_second = (
    record {
      tail =
          a.part.tail ∙ ground (arith, r.tail_is, r.inside, a.indices, a.counts, full, some_second);
      inside = ground (arith, r.tail_is, r.inside);
      free = ground (arith, r.tail_is, r.inside, a.indices, a.counts, full, some_second);
    },
    ground (arith, r.tail_is, r.inside, a.indices, a.counts, full, some_second),
  )

  -- Where both inputs have been read from: the node is full, or one of them is empty.
  abbrev pub Stopped : MergeNode V → Relation V → Relation V → Type ℓ
  Stopped node xs ys = (node.count ≡ f) ⊎ ((xs ≡ []) ⊎ (ys ≡ []))

  pub fill_second-Fed :
      (node : MergeNode V) (xs ys : Relation V)
      → IsRing f node
      → node.count < f
      → (a : First node xs ys) → (a.slots' ≡ 0) ⊎ ((a.fed.xs' ≡ []) ⊎ (a.fed.ys' ≡ []))
      → (b : Fed f a.fed.node' a.fed.xs' a.fed.ys') × (fill_second f a.slots'
            (second_part node)
            a.fed.node'
            a.fed.xs'
            a.fed.ys'
          ≡ some (b.node', b.xs', b.ys'))
        × Stopped b.node' b.xs' b.ys'
  unfolding fill_second
  fill_second-Fed node xs ys r room a end =
      elim (Bool-cases (a.slots' == 0 && not (second_part node == 0))) [
        | inl e ↦
            let (part, whole) = two_parts node xs ys r room a (ground arith) (ground arith) in
            let (b, runs, end') =
              fill_both-Filled f (second_part node) 0 a.fed.node' a.fed.xs' a.fed.ys' a.fed.ring
                part in
            (
              b.fed,
              rw (e, runs)
                  (ap (λ n. some (n, b.fed.xs', b.fed.ys'))
                    (filled_node a.fed.node' 0 (second_part node) _ a.fed.xs' a.fed.ys' b
                      (omega arith))),
              elim end' [
                | inl full ↦ inl (omega (arith, b.indices, b.counts, full, whole))
                | inr empty ↦ inr empty
              ],
            )
        | inr e ↦ (
          fed_none f a.fed.node' a.fed.xs' a.fed.ys' a.fed.ring,
          rw e refl,
          elim end [
            | inl full ↦ inl (one_part node xs ys r room a full (ground arith))
            | inr empty ↦ inr empty
          ],
        )
      ]
