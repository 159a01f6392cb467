-- ===== src/Merging/Decomposed/Chunks.antt =====
-- The loop of `merge_scalar_decomposed` while both children have tuples.
use hashing_old_archive.Prelude.{
  ℕ, zero, suc, ◌+◌, ◌<◌, ◌≡◌, refl, some, ◌&&◌, ltb, arith, Bool-cases, inl, inr, ◌∙◌, ◌⊎◌, true,
  Bool,
}
use hashing_old_archive.Merging.{Relation}
use hashing_old_archive.Merging.Ring.Steps.{IsRing}
use hashing_old_archive.Merging.Kernels.Streams.{Merged, merged_none, merged_then}
use hashing_old_archive.Merging.Kernels.Idle.{taken-count}
use hashing_old_archive.Merging.Decomposed.Parts.{
  Reader, Writer, serial_merge_kernel, read_to, written, turn, turn_writer, merge_parts,
}
use hashing_old_archive.Merging.Decomposed.Readers.{IsReader, advanced_node, turn-IsReader}
use hashing_old_archive.Merging.Decomposed.Kernel.{Chunk, serial_merge_kernel-Chunk}
use hashing_old_archive.Merging.Decomposed.Writers.{
  IsFree, IsWriter, turn_writer-IsWriter, written_node, moved_or_not,
}

module _ {ℓ} {V : Type ℓ} (f : ℕ) where
  module _ (after_r after_l : Relation V) where
    -- A node that is written from two children that are read, and their cursors afterwards.
    pub record Run (w : Writer V) (r l : Reader V) : Type ℓ where
      pub merged : Merged f after_r after_l w.node r.node l.node
      pub wi : ℕ
      pub we : ℕ
      pub ws : ℕ
      pub ri : ℕ
      pub re : ℕ
      pub rb : Bool
      pub li : ℕ
      pub le : ℕ
      pub lb : Bool
      pub writer : IsWriter f (record { node = merged.node'; index = wi; end = we; slots = ws })
      pub right_reader :
          IsReader f (record { node = merged.children.right'; index = ri; end = re; wraps = rb })
      pub left_reader :
          IsReader f (record { node = merged.children.left'; index = li; end = le; wraps = lb })

    abbrev pub result : (w : Writer V) (r l : Reader V) → Run w r l → Writer V × Reader V × Reader V
    result w r l a = (
      record { node = a.merged.node'; index = a.wi; end = a.we; slots = a.ws },
      record { node = a.merged.children.right'; index = a.ri; end = a.re; wraps = a.rb },
      record { node = a.merged.children.left'; index = a.li; end = a.le; wraps = a.lb },
    )

    abbrev run_none :
        (w : Writer V) (r l : Reader V) → IsWriter f w → IsReader f r → IsReader f l → Run w r l
    run_none w r l iw ir il = record {
      merged = merged_none f after_r after_l w.node r.node l.node iw.ring ir.ring il.ring;
      wi = w.index;
      we = w.end;
      ws = w.slots;
      ri = r.index;
      re = r.end;
      rb = r.wraps;
      li = l.index;
      le = l.end;
      lb = l.wraps;
      writer = iw;
      right_reader = ir;
      left_reader = il;
    }

    abbrev run_then :
        (w : Writer V) (r l : Reader V) (m : Merged f after_r after_l w.node r.node l.node)
        (wi we ws ri re : ℕ) (rb : Bool) (li le : ℕ) (lb : Bool)
        → Run
            (record { node = m.node'; index = wi; end = we; slots = ws })
            (record { node = m.children.right'; index = ri; end = re; wraps = rb })
            (record { node = m.children.left'; index = li; end = le; wraps = lb })
        → Run w r l
    run_then w r l m wi we ws ri re rb li le lb a = record {
      merged = merged_then f after_r after_l m a.merged;
      wi = a.wi;
      we = a.we;
      ws = a.ws;
      ri = a.ri;
      re = a.re;
      rb = a.rb;
      li = a.li;
      le = a.le;
      lb = a.lb;
      writer = a.writer;
      right_reader = a.right_reader;
      left_reader = a.left_reader;
    }

    merge_parts-step :
        (rounds slots oi ri li : ℕ) (out : Relation V) (w : Writer V) (r l : Reader V)
        → (ltb w.node.count f && (ltb 0 r.node.count && ltb 0 l.node.count)) ≡ true
        → serial_merge_kernel w.slots r.end l.end r.node.buffer l.node.buffer w.node.buffer w.index
            r.index l.index
          ≡ some (slots, out, oi, ri, li)
        → merge_parts (suc rounds) f w r l
          ≡ merge_parts rounds f
              (turn_writer (written f slots out oi w))
              (turn (read_to f ri r))
              (turn (read_to f li l))
    unfolding merge_parts
    merge_parts-step rounds slots oi ri li out w r l more runs =
        rw (merge_parts, more, merge_parts, runs) refl

    -- The kernel has used up a tuple.
    less_left :
        (w : Writer V) (r l : Reader V)
        (c : Chunk f after_r after_l r.end l.end w.node r.node l.node w.slots w.index r.index
          l.index)
        → IsRing f r.node
        → IsRing f l.node
        → IsFree f w
        → r.index < r.end
        → l.index < l.end
        → (c.slots' ≡ 0) ⊎ ((c.ri' ≡ r.end) ⊎ (c.li' ≡ l.end))
        → c.merged.children.right'.count + c.merged.children.left'.count
          < r.node.count + l.node.count
    less_left w r l c rr rl o some_r some_l end =
        let right = c.merged.children.right_less in
        let left = c.merged.children.left_less in
        elim end [
          | inl full ↦ omega (
            arith,
            c.indices,
            c.counts,
            full,
            o.more,
            c.merged.count,
            taken-count f after_r after_l r.node l.node rr rl c.merged.children,
          )
          | inr (inl ended) ↦ omega (arith, c.right_moves.counts, ended)
          | inr (inr ended) ↦ omega (arith, c.left_moves.counts, ended)
        ]

    -- The loop runs until the node is full or a child empty, within a round for each tuple.
    pub merge_parts-Run :
        (rounds : ℕ) (w : Writer V) (r l : Reader V)
        → IsWriter f w
        → IsReader f r
        → IsReader f l
        → r.node.count + l.node.count < rounds
        → (a : Run w r l) × (merge_parts rounds f w r l ≡ some (result w r l a))
          × ((a.merged.node'.count ≡ f)
              ⊎ ((a.merged.children.right'.count ≡ 0) ⊎ (a.merged.children.left'.count ≡ 0)))
    unfolding merge_parts
    merge_parts-Run zero w r l iw ir il enough = absurd (omega arith)
    merge_parts-Run (suc rounds) w r l iw ir il enough =
        elim (Bool-cases (ltb w.node.count f && (ltb 0 r.node.count && ltb 0 l.node.count))) [
          | inr e ↦
              (run_none w r l iw ir il, rw (merge_parts, e) refl, ground (arith, iw.ring.bounded))
          | inl e ↦
              let o = iw.free (ground arith) in
              let ro = ir.opened (ground arith) in
              let lo = il.opened (ground arith) in
              let (c, runs, end) =
                serial_merge_kernel-Chunk f after_r after_l r.end l.end w.slots w.index r.index
                  l.index w.node r.node l.node iw.ring ir.ring il.ring o.part ro.span lo.span in
              let (wi, we, ws, ew, iw') =
                turn_writer-IsWriter f w c.merged.node' c.oi' c.slots' o c.merged.ring c.part
                  c.indices c.counts c.head in
              let (ri, re, rb, er, ir') =
                turn-IsReader f r c.merged.children.right' c.ri' ro
                  (moved_or_not r.index c.ri' r.end ro.more) c.merged.children.right_ring
                  ir.ring.bounded c.right_moves in
              let (li, le, lb, el, il') =
                turn-IsReader f l c.merged.children.left' c.li' lo
                  (moved_or_not l.index c.li' l.end lo.more) c.merged.children.left_ring
                  il.ring.bounded c.left_moves in
              let node =
                written_node f w c.merged.node' c.oi' c.slots' o.at c.part c.counts
                  (omega (arith, c.merged.count)) c.head in
              let right = advanced_node f r c.merged.children.right' c.ri' ro.at c.right_moves in
              let left = advanced_node f l c.merged.children.left' c.li' lo.at c.left_moves in
              let less = less_left w r l c ir.ring il.ring o ro.more lo.more end in
              let (a, runs', end') =
                merge_parts-Run rounds _ _ _ iw' ir' il' (omega (arith, less, enough)) in
              (
                run_then w r l c.merged wi we ws ri re rb li le lb a,
                merge_parts-step rounds c.slots' c.oi' c.ri' c.li' c.merged.node'.buffer w r l e
                      runs
                    ∙ (λ j.
                        merge_parts rounds f
                          (turn_writer
                            (record w { node = node j; index = c.oi'; slots = c.slots' }))
                          (turn (record r { node = right j; index = c.ri' }))
                          (turn (record l { node = left j; index = c.li' })))
                    ∙ (λ j. merge_parts rounds f (ew j) (er j) (el j))
                    ∙ runs',
                end',
              )
        ]
