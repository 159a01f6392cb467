-- ===== src/Merging/Decomposed/Writers.antt =====
-- The cursor of a node that is written: a part of its free slots, and where the next part begins.
use hashing_old_archive.Prelude.{
  ℕ, ◌+◌, ◌-◌, ◌<◌, ◌≤◌, ◌≡◌, refl, ◌==◌, arith, Bool-cases, inl, inr, sym, ◌∙◌, ◌⊎◌, lt_cases,
}
use hashing_old_archive.Merging.Ring.{MergeNode}
use hashing_old_archive.Merging.Ring.Steps.{IsRing}
use hashing_old_archive.Merging.Decomposed.{at_end, part_end}
use hashing_old_archive.Merging.Decomposed.Fill.{FreePart}
use hashing_old_archive.Merging.Decomposed.Parts.{Writer, turn_writer, new_writer}

pub moved_or_not : (i i' end : ℕ) → i < end → (i < i') ⊎ (i' < end)
moved_or_not i i' end lt = elim (lt_cases i' end) [
  | inl less ↦ inr less
  | inr le ↦ inl (omega arith)
]

module _ {ℓ} {V : Type ℓ} (f : ℕ) where
  -- While a node is not full, a part of its free slots begins at its tail, and either the next one begins
  -- at the start of the ring or it is the last one.
  pub record IsFree (w : Writer V) : Type 0 where
    pub at : w.index ≡ w.node.tail
    pub more : 0 < w.slots
    pub whole : w.index + w.slots ≡ w.end
    pub part : FreePart f w.node w.index w.slots
    pub parts : (w.end ≡ f) ⊎ (w.node.count + w.slots ≡ f)

  pub record IsWriter (w : Writer V) : Type 0 where
    pub ring : IsRing f w.node
    pub free : w.node.count < f → IsFree w

  pub new_writer-IsWriter : (node : MergeNode V) → IsRing f node → IsWriter (new_writer f node)
  unfolding new_writer part_end
  new_writer-IsWriter node r = record {
    ring = r;
    free = λ room. record {
      at = refl;
      more = ground (arith, r.tail_is, r.inside);
      whole = ground (arith, r.tail_is, r.inside);
      part = record {
        tail = ground (arith, r.tail_is, r.inside);
        inside = ground (arith, r.tail_is, r.inside);
        free = ground (arith, r.tail_is, r.inside);
      };
      parts = ground (arith, r.tail_is, r.inside);
    };
  }

  pub turn_writer-IsWriter :
      (w : Writer V) (node' : MergeNode V) (i' slots' : ℕ)
      → IsFree w
      → IsRing f node'
      → FreePart f node' i' slots'
      → i' + slots' ≡ w.index + w.slots
      → node'.count + w.index ≡ w.node.count + i'
      → node'.head ≡ w.node.head
      → (i : ℕ) × (e : ℕ) × (n : ℕ) × (turn_writer
            (record w { node = node'; index = i'; slots = slots' })
          ≡ record { node = node'; index = i; end = e; slots = n })
        × IsWriter (record { node = node'; index = i; end = e; slots = n })
  unfolding turn_writer
  turn_writer-IsWriter w node' i' slots' o ring p indices counts head =
      elim (Bool-cases (i' == w.end)) [
        | inl e ↦ (
          0,
          node'.head,
          node'.head,
          rw e refl,
          record {
            ring = ring;
            free = λ room.
                let ended : i' ≡ w.end = ground arith in
                let moved : w.index < i' = omega (arith, o.more, o.whole) in
                let last : w.end ≡ f = elim o.parts [
                  | inl whole ↦ whole
                  | inr full ↦ absurd (omega (arith, o.whole))
                ] in
                let tail : node'.tail ≡ 0 = p.tail ∙ ground arith in
                let left : node'.count + node'.head ≡ f =
                  ground (arith, ring.tail_is, ring.inside) in
                record {
                  at = sym tail;
                  more = omega arith;
                  whole = omega arith;
                  part = record {
                    tail = tail ∙ ground arith;
                    inside = omega arith;
                    free = omega arith;
                  };
                  parts = inr left;
                };
          },
        )
        | inr e ↦ (
          i',
          w.end,
          slots',
          rw e refl,
          record {
            ring = ring;
            free = λ room.
                let more : i' < w.end = ground (arith, o.whole) in
                record {
                  at = sym (p.tail ∙ ground (arith, p.inside, o.whole));
                  more = omega (arith, o.whole);
                  whole = indices ∙ o.whole;
                  part = p;
                  parts = elim o.parts [ inl whole ↦ inl whole | inr full ↦ inr (omega arith) ];
                };
          },
        )
      ]

  -- What the source stores for the node.
  pub written_node :
      (w : Writer V) (node' : MergeNode V) (i' slots' : ℕ)
      → w.index ≡ w.node.tail
      → FreePart f node' i' slots'
      → node'.count + w.index ≡ w.node.count + i'
      → w.node.count ≤ node'.count
      → node'.head ≡ w.node.head
      → record w.node {
        buffer = node'.buffer;
        count = w.node.count + (i' - w.node.tail);
        tail = at_end f i';
      }
        ≡ node'
  written_node w node' i' slots' at p counts le head =
      let count : w.node.count + (i' - w.node.tail) ≡ node'.count = omega arith in
      λ j. record { buffer = node'.buffer; count = count j; head = sym head j; tail = sym p.tail j }
