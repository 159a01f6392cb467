-- ===== src/Merging/Decomposed/Store.antt =====
-- The loop of `mergestore_scalar_decomposed` while both nodes have tuples.
use hashing_old_archive.Prelude.{
  ℕ, zero, suc, ◌+◌, ◌-◌, ◌<◌, ◌≤◌, ◌≡◌, refl, Bool, true, false, [], ◌∷◌, ◌++◌, some, ◌&&◌, ltb,
  arith, Bool-cases, inl, inr, ◌∙◌, ◌⊎◌,
}
use hashing_old_archive.Merging.{Relation}
use hashing_old_archive.Merging.Reference.{merge-less, merge-not-less}
use hashing_old_archive.Merging.Ring.{MergeNode, advance}
use hashing_old_archive.Merging.Ring.Window.{wrapped}
use hashing_old_archive.Merging.Ring.Steps.{IsRing}
use hashing_old_archive.Merging.Kernels.Streams.{Taken, taken_none, taken_then}
use hashing_old_archive.Merging.Kernels.Store.{taken_right, taken_left}
use hashing_old_archive.Merging.Decomposed.Fill.{wraps}
use hashing_old_archive.Merging.Decomposed.Parts.{Reader, read_to, turn}
use hashing_old_archive.Merging.Decomposed.Output.{serial_mergestore_kernel, store_parts}
use hashing_old_archive.Merging.Decomposed.Readers.{
  Span, span_step, Advanced, advanced_none, advanced_then, advanced_node, IsReader, turn-IsReader,
}
use hashing_old_archive.Merging.Decomposed.Writers.{moved_or_not}

module _ {ℓ} {V : Type ℓ} (f : ℕ) (after_r after_l : Relation V) where
  -- What the kernel leaves.
  record Piece (right left : MergeNode V) (ri li rend lend : ℕ) : Type ℓ where
    taken : Taken f after_r after_l right left
    ri' : ℕ
    li' : ℕ
    right_moves : Advanced f right taken.right' ri ri' rend
    left_moves : Advanced f left taken.left' li li' lend

  abbrev piece_none :
      (right left : MergeNode V) (ri li rend lend : ℕ)
      → IsRing f right
      → IsRing f left
      → Span f right ri rend
      → Span f left li lend
      → Piece right left ri li rend lend
  piece_none right left ri li rend lend rr rl sr sl = record {
    taken = taken_none f after_r after_l right left rr rl;
    ri' = ri;
    li' = li;
    right_moves = advanced_none f right ri rend sr;
    left_moves = advanced_none f left li lend sl;
  }

  -- The kernel runs to the end of one of the two parts.
  serial_mergestore_kernel-Piece :
      (rounds ri li rend lend : ℕ) (right left : MergeNode V)
      → IsRing f right
      → IsRing f left
      → Span f right ri rend
      → Span f left li lend
      → rend - ri + (lend - li) ≤ rounds
      → (c : Piece right left ri li rend lend) × (serial_mergestore_kernel rounds rend lend
            right.buffer left.buffer ri li
          ≡ some (c.taken.taken, c.ri', c.li'))
        × ((c.ri' ≡ rend) ⊎ (c.li' ≡ lend))
  unfolding serial_mergestore_kernel
  serial_mergestore_kernel-Piece zero ri li rend lend right left rr rl sr sl enough =
      let e : (ltb ri rend && ltb li lend) ≡ false = ground arith in
      (
        piece_none right left ri li rend lend rr rl sr sl,
        rw (serial_mergestore_kernel, e) refl,
        inl (omega (arith, sr.ordered)),
      )
  serial_mergestore_kernel-Piece (suc rounds) ri li rend lend right left rr rl sr sl enough =
      elim (Bool-cases (ltb ri rend && ltb li lend)) [
        | inr e ↦ (
          piece_none right left ri li rend lend rr rl sr sl,
          rw (serial_mergestore_kernel, e) refl,
          ground (arith, sr.ordered, sl.ordered),
        )
        | inl e ↦
            let (a, got_a, rr', lost_a, sr', some_r) =
              span_step f right ri rend rr sr (ground arith) in
            let (b, got_b, rl', lost_b, sl', some_l) =
              span_step f left li lend rl sl (ground arith) in
            elim (Bool-cases (ltb a.key b.key)) [
              | inl less ↦
                  let step =
                    taken_right f (wrapped f) (wraps f) after_r after_l right left
                      (advance (wrapped f) right) (a ∷ []) rr' rl (omega arith)
                      (rw (lost_a, lost_b) (merge-less a b _ _ less)) in
                  let (c, runs, end) =
                    serial_mergestore_kernel-Piece rounds (ri + 1) li rend lend
                      (advance (wrapped f) right) left rr' rl sr' sl (ground arith) in
                  (
                    record {
                      taken = taken_then f after_r after_l step c.taken;
                      ri' = c.ri';
                      li' = c.li';
                      right_moves =
                          advanced_then f right (advance (wrapped f) right) c.taken.right' ri
                            (ri + 1) c.ri' rend refl refl (omega arith) (omega arith) c.right_moves;
                      left_moves = c.left_moves;
                    },
                    rw
                        (
                          serial_mergestore_kernel, e, serial_mergestore_kernel, got_a,
                          serial_mergestore_kernel, got_b, serial_mergestore_kernel, less,
                          serial_mergestore_kernel, runs,
                        )
                        refl,
                    end,
                  )
              | inr not_less ↦
                  let step =
                    taken_left f (wrapped f) (wraps f) after_r after_l right left
                      (advance (wrapped f) left) (b ∷ []) rr rl' (omega arith)
                      (rw (lost_a, lost_b) (merge-not-less a b _ _ not_less)) in
                  let (c, runs, end) =
                    serial_mergestore_kernel-Piece rounds ri (li + 1) rend lend right
                      (advance (wrapped f) left) rr rl' sr sl' (ground arith) in
                  (
                    record {
                      taken = taken_then f after_r after_l step c.taken;
                      ri' = c.ri';
                      li' = c.li';
                      right_moves = c.right_moves;
                      left_moves =
                          advanced_then f left (advance (wrapped f) left) c.taken.left' li (li + 1)
                            c.li' lend refl refl (omega arith) (omega arith) c.left_moves;
                    },
                    rw
                        (
                          serial_mergestore_kernel, e, serial_mergestore_kernel, got_a,
                          serial_mergestore_kernel, got_b, serial_mergestore_kernel, not_less,
                          serial_mergestore_kernel, runs,
                        )
                        refl,
                    end,
                  )
            ]
      ]

  -- The nodes and their cursors afterwards.
  pub record Writes (r l : Reader V) : Type ℓ where
    pub taken : Taken f after_r after_l r.node l.node
    pub ri : ℕ
    pub re : ℕ
    pub rb : Bool
    pub li : ℕ
    pub le : ℕ
    pub lb : Bool
    pub right_reader : IsReader f (record { node = taken.right'; index = ri; end = re; wraps = rb })
    pub left_reader : IsReader f (record { node = taken.left'; index = li; end = le; wraps = lb })

  abbrev pub writes_to : (r l : Reader V) → Writes r l → Relation V × Reader V × Reader V
  writes_to r l a = (
    a.taken.taken,
    record { node = a.taken.right'; index = a.ri; end = a.re; wraps = a.rb },
    record { node = a.taken.left'; index = a.li; end = a.le; wraps = a.lb },
  )

  store_parts-step :
      (rounds ri li : ℕ) (out more : Relation V) (r l r' l' : Reader V)
      → (ltb 0 r.node.count && ltb 0 l.node.count) ≡ true
      → serial_mergestore_kernel
          (r.end - r.index + (l.end - l.index))
          r.end
          l.end
          r.node.buffer
          l.node.buffer
          r.index
          l.index
        ≡ some (out, ri, li)
      → store_parts rounds f (turn (read_to f ri r)) (turn (read_to f li l)) ≡ some (more, r', l')
      → store_parts (suc rounds) f r l ≡ some (out ++ more, r', l')
  unfolding store_parts
  store_parts-step rounds ri li out more r l r' l' some_left runs later =
      rw (store_parts, some_left, store_parts, runs, store_parts, later) refl

  -- The loop runs until a node is empty, within a round for each tuple.
  pub store_parts-Writes :
      (rounds : ℕ) (r l : Reader V)
      → IsReader f r
      → IsReader f l
      → r.node.count + l.node.count < rounds
      → (a : Writes r l) × (store_parts rounds f r l ≡ some (writes_to r l a))
        × ((a.taken.right'.count ≡ 0) ⊎ (a.taken.left'.count ≡ 0))
  unfolding store_parts
  store_parts-Writes zero r l ir il enough = absurd (omega arith)
  store_parts-Writes (suc rounds) r l ir il enough =
      elim (Bool-cases (ltb 0 r.node.count && ltb 0 l.node.count)) [
        | inr e ↦ (
          record {
            taken = taken_none f after_r after_l r.node l.node ir.ring il.ring;
            ri = r.index;
            re = r.end;
            rb = r.wraps;
            li = l.index;
            le = l.end;
            lb = l.wraps;
            right_reader = ir;
            left_reader = il;
          },
          rw (store_parts, e) refl,
          ground arith,
        )
        | inl e ↦
            let ro = ir.opened (ground arith) in
            let lo = il.opened (ground arith) in
            let (c, runs, end) =
              serial_mergestore_kernel-Piece (r.end - r.index + (l.end - l.index)) r.index l.index
                r.end l.end r.node l.node ir.ring il.ring ro.span lo.span (omega arith) in
            let (ri, re, rb, er, ir') =
              turn-IsReader f r c.taken.right' c.ri' ro (moved_or_not r.index c.ri' r.end ro.more)
                c.taken.right_ring ir.ring.bounded c.right_moves in
            let (li, le, lb, el, il') =
              turn-IsReader f l c.taken.left' c.li' lo (moved_or_not l.index c.li' l.end lo.more)
                c.taken.left_ring il.ring.bounded c.left_moves in
            let right = advanced_node f r c.taken.right' c.ri' ro.at c.right_moves in
            let left = advanced_node f l c.taken.left' c.li' lo.at c.left_moves in
            let less : c.taken.right'.count + c.taken.left'.count < r.node.count + l.node.count =
              elim end [
                | inl ended ↦ omega (arith, c.right_moves.counts, ended, ro.more, c.taken.left_less)
                | inr ended ↦ omega (arith, c.left_moves.counts, ended, lo.more, c.taken.right_less)
              ] in
            let (a, runs', end') =
              store_parts-Writes rounds _ _ ir' il' (omega (arith, less, enough)) in
            (
              record {
                taken = taken_then f after_r after_l c.taken a.taken;
                ri = a.ri;
                re = a.re;
                rb = a.rb;
                li = a.li;
                le = a.le;
                lb = a.lb;
                right_reader = a.right_reader;
                left_reader = a.left_reader;
              },
              store_parts-step rounds c.ri' c.li' c.taken.taken a.taken.taken r l _ _ e runs (
                  (λ j.
                    store_parts rounds f (turn (record r { node = right j; index = c.ri' }))
                      (turn (record l { node = left j; index = c.li' })))
                  ∙ (λ j. store_parts rounds f (er j) (el j))
                  ∙ runs'),
              end',
            )
      ]
