-- ===== src/Merging/Decomposed/Kernel.antt =====
-- `serialmergekernel` on the streams of the children.
use hashing_old_archive.Prelude.{
  ℕ, zero, suc, ◌+◌, ◌≡◌, refl, ◌++◌, some, ◌&&◌, ltb, arith, Bool-cases, inl, inr, ◌⊎◌, ◌∙◌,
}
use hashing_old_archive.Merging.{Relation}
use hashing_old_archive.Merging.Reference.{merge-less, merge-not-less}
use hashing_old_archive.Merging.Ring.{MergeNode}
use hashing_old_archive.Merging.Ring.Window.{wrapped}
use hashing_old_archive.Merging.Ring.Steps.{IsRing}
use hashing_old_archive.Merging.Copy.Moves.{Moves, moves_one}
use hashing_old_archive.Merging.Kernels.Streams.{
  both, Merged, merged_none, merged_then, merged_right, merged_left,
}
use hashing_old_archive.Merging.Decomposed.Fill.{FreePart, assign-pushed, wraps}
use hashing_old_archive.Merging.Decomposed.Parts.{serial_merge_kernel}
use hashing_old_archive.Merging.Decomposed.Readers.{
  Span, span_step, Advanced, advanced_none, advanced_then,
}

module _ {ℓ} {V : Type ℓ} (f : ℕ) (after_r after_l : Relation V) (rend lend : ℕ) where
  -- What the kernel leaves.
  pub record Chunk (node right left : MergeNode V) (slots oi ri li : ℕ) : Type ℓ where
    pub merged : Merged f after_r after_l node right left
    pub slots' : ℕ
    pub oi' : ℕ
    pub ri' : ℕ
    pub li' : ℕ
    pub part : FreePart f merged.node' oi' slots'
    pub indices : oi' + slots' ≡ oi + slots
    pub counts : merged.node'.count + oi ≡ node.count + oi'
    pub head : merged.node'.head ≡ node.head
    pub right_moves : Advanced f right merged.children.right' ri ri' rend
    pub left_moves : Advanced f left merged.children.left' li li' lend

  abbrev chunk_none :
      (node right left : MergeNode V) (slots oi ri li : ℕ)
      → IsRing f node
      → IsRing f right
      → IsRing f left
      → FreePart f node oi slots
      → Span f right ri rend
      → Span f left li lend
      → Chunk node right left slots oi ri li
  chunk_none node right left slots oi ri li rn rr rl p sr sl = record {
    merged = merged_none f after_r after_l node right left rn rr rl;
    slots' = slots;
    oi' = oi;
    ri' = ri;
    li' = li;
    part = p;
    indices = refl;
    counts = refl;
    head = refl;
    right_moves = advanced_none f right ri rend sr;
    left_moves = advanced_none f left li lend sl;
  }

  abbrev chunk_right :
      (node right left : MergeNode V) (slots oi ri li : ℕ) (rr : IsRing f right)
      (rl : IsRing f left) (m : Moves f 1 node right)
      (stream : both f after_r after_l right left ≡ m.moved ++ both f after_r after_l m.src' left)
      → (c : Chunk m.dest' m.src' left slots (oi + 1) (ri + 1) li)
      → Chunk node right left (suc slots) oi ri li
  chunk_right node right left slots oi ri li rr rl m stream c = record {
    merged =
        merged_then f after_r after_l
          (merged_right f after_r after_l 1 node right left rr rl m stream) c.merged;
    slots' = c.slots';
    oi' = c.oi';
    ri' = c.ri';
    li' = c.li';
    part = c.part;
    indices = omega (arith, c.indices);
    counts = omega (arith, c.counts, m.dest_count);
    head = c.head ∙ m.dest_head;
    right_moves =
        advanced_then f right m.src' c.merged.children.right' ri (ri + 1) c.ri' rend m.src_buffer
          m.src_tail (omega (arith, m.src_count)) (omega arith) c.right_moves;
    left_moves = c.left_moves;
  }

  abbrev chunk_left :
      (node right left : MergeNode V) (slots oi ri li : ℕ) (rr : IsRing f right)
      (rl : IsRing f left) (m : Moves f 1 node left)
      (stream : both f after_r after_l right left ≡ m.moved ++ both f after_r after_l right m.src')
      → (c : Chunk m.dest' right m.src' slots (oi + 1) ri (li + 1))
      → Chunk node right left (suc slots) oi ri li
  chunk_left node right left slots oi ri li rr rl m stream c = record {
    merged =
        merged_then f after_r after_l
          (merged_left f after_r after_l 1 node right left rr rl m stream) c.merged;
    slots' = c.slots';
    oi' = c.oi';
    ri' = c.ri';
    li' = c.li';
    part = c.part;
    indices = omega (arith, c.indices);
    counts = omega (arith, c.counts, m.dest_count);
    head = c.head ∙ m.dest_head;
    right_moves = c.right_moves;
    left_moves =
        advanced_then f left m.src' c.merged.children.left' li (li + 1) c.li' lend m.src_buffer
          m.src_tail (omega (arith, m.src_count)) (omega arith) c.left_moves;
  }

  -- The kernel runs to the end of one of the three parts.
  pub serial_merge_kernel-Chunk :
      (slots oi ri li : ℕ) (node right left : MergeNode V)
      → IsRing f node
      → IsRing f right
      → IsRing f left
      → FreePart f node oi slots
      → Span f right ri rend
      → Span f left li lend
      → (c : Chunk node right left slots oi ri li) × (serial_merge_kernel slots rend lend
            right.buffer left.buffer node.buffer oi ri li
          ≡ some (c.slots', c.merged.node'.buffer, c.oi', c.ri', c.li'))
        × ((c.slots' ≡ 0) ⊎ ((c.ri' ≡ rend) ⊎ (c.li' ≡ lend)))
  unfolding serial_merge_kernel
  serial_merge_kernel-Chunk zero oi ri li node right left rn rr rl p sr sl =
      (chunk_none node right left 0 oi ri li rn rr rl p sr sl, refl, inl refl)
  serial_merge_kernel-Chunk (suc slots) oi ri li node right left rn rr rl p sr sl =
      elim (Bool-cases (ltb ri rend && ltb li lend)) [
        | inr e ↦ (
          chunk_none node right left (suc slots) oi ri li rn rr rl p sr sl,
          rw (serial_merge_kernel, e) refl,
          inr (ground (arith, sr.ordered, sl.ordered)),
        )
        | inl e ↦
            let (a, got_a, rr', lost_a, sr', some_r) =
              span_step f right ri rend rr sr (ground arith) in
            let (b, got_b, rl', lost_b, sl', some_l) =
              span_step f left li lend rl sl (ground arith) in
            elim (Bool-cases (ltb a.key b.key)) [
              | inl less ↦
                  let (e', rn', gained, p') = assign-pushed f node oi slots a rn p in
                  let m =
                    moves_one f (wrapped f) (wraps f) node right rn rr a rn' gained rr' lost_a
                      some_r in
                  let (c, runs, end) =
                    serial_merge_kernel-Chunk slots (oi + 1) (ri + 1) li m.dest' m.src' left rn' rr'
                      rl p' sr' sl in
                  (
                    chunk_right node right left slots oi ri li rr rl m
                        (rw (lost_a, lost_b) (merge-less a b _ _ less)) c,
                    rw
                        (
                          serial_merge_kernel, e, serial_merge_kernel, got_a, serial_merge_kernel,
                          got_b, serial_merge_kernel, less, serial_merge_kernel, e',
                        )
                        runs,
                    end,
                  )
              | inr not_less ↦
                  let (e', rn', gained, p') = assign-pushed f node oi slots b rn p in
                  let m =
                    moves_one f (wrapped f) (wraps f) node left rn rl b rn' gained rl' lost_b
                      some_l in
                  let (c, runs, end) =
                    serial_merge_kernel-Chunk slots (oi + 1) ri (li + 1) m.dest' right m.src' rn' rr
                      rl' p' sr sl' in
                  (
                    chunk_left node right left slots oi ri li rr rl m
                        (rw (lost_a, lost_b) (merge-not-less a b _ _ not_less)) c,
                    rw
                        (
                          serial_merge_kernel, e, serial_merge_kernel, got_a, serial_merge_kernel,
                          got_b, serial_merge_kernel, not_less, serial_merge_kernel, e',
                        )
                        runs,
                    end,
                  )
            ]
      ]
