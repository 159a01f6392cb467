-- ===== src/Merging/Decomposed/Turns.antt =====
-- The loops of `merge_scalar_decomposed` over a child that still has tuples, in both its parts.
use mathlib.Core.Path.{subst}
use hashing_old_archive.Prelude.{
  ℕ, ◌+◌, ◌-◌, ◌%◌, ◌^◌, ◌<◌, ◌≡◌, refl, some, ◌==◌, ◌&&◌, ltb, leb, arith, Bool-cases, inl, inr,
  ◌∙◌, ap, true, false, min, if◌then◌else◌, Bool,
}
use hashing_old_archive.Merging.Ring.{MergeNode}
use hashing_old_archive.Merging.Ring.Steps.{IsRing}
use hashing_old_archive.Merging.Copy.Moves.{Moves, moves_then}
use hashing_old_archive.Merging.Decomposed.{tail_reset}
use hashing_old_archive.Merging.Decomposed.Fill.{FreePart, with_tail}
use hashing_old_archive.Merging.Decomposed.Rest.{no_wrap, rest_end, rest_part, if_true}
use hashing_old_archive.Merging.Decomposed.Parts.{turn_drained, drain_parts, drain_child}
use hashing_old_archive.Merging.Decomposed.Readers.{Span, IsOpen, IsReader}
use hashing_old_archive.Merging.Decomposed.Drain.{
  Drained, Drains, drain_part-Drained, reader_at, drain_parts-step, drain_parts-stop, DrainEnds,
  last_parts,
}

module _ {ℓ} {V : Type ℓ} (f : ℕ) where
  pub turn_at_end :
      (src : MergeNode V) (ri end : ℕ)
      → Span f src ri end
      → ri ≡ end
      → end ≡ f
      → turn_drained f (reader_at f src ri end true) ≡ reader_at f src 0 src.tail false
  unfolding turn_drained
  turn_at_end src ri end s ended whole =
      let e : (true && ri == end) ≡ true = ground arith in
      let head : (if leb f ri then 0 else ri) ≡ 0 = ground arith in
      rw e (
        ap
          (λ h. record { node = record src { head = h }; index = 0; end = src.tail; wraps = false })
          head)

  -- The child goes on with its second part.
  second_part-DrainEnds :
      (slots oi oend ri end : ℕ) (node src : MergeNode V) (d : Drained f node src slots oi ri end)
      → IsRing f src
      → Drains f node src slots oi ri end d
      → oi + slots ≡ oend
      → ri < end
      → end ≡ f
      → d.ri' ≡ end
      → 0 < d.slots'
      → 0 < d.moves.src'.count
      → DrainEnds f 2 slots oi oend ri end true node src
  second_part-DrainEnds slots oi oend ri end node src d rs runs at some_left whole ended free held =
      let more : (ltb 0 d.slots' && ltb 0 d.moves.src'.count) ≡ true = ground arith in
      let turned : (d.oi' == oend) ≡ false = ground (arith, d.oi_is, d.slots_is) in
      let src' = d.moves.src' in
      let head : src'.head ≡ 0 = d.span.head ∙ ground arith in
      let less : src'.count < f = omega (arith, d.moves.src_count, d.ri_is, rs.bounded) in
      let tail : src'.tail ≡ src'.count = d.moves.src_ring.tail_is ∙ ground arith in
      let (n, m, runs', moved) =
        last_parts f 0 d.slots' d.oi' oend 0 src'.tail d.moves.dest' src' d.moves.dest_ring
          d.moves.src_ring d.part
          (record {
            head = head ∙ ground arith;
            ordered = omega arith;
            inside = omega arith;
            held = omega arith;
          })
          (omega (arith, d.oi_is, d.slots_is)) free (omega arith) (omega arith) (omega arith) in
      (
        d.n + n,
        moves_then f d.n n (d.n + n) refl d.moves rs (omega (arith, d.moves.src_count, m.src_count))
            m,
        drain_parts-step f 1 slots oi oend ri end true node src d runs
            ∙ if_true _ _ more
            ∙ (λ j.
                drain_parts 1 f d.slots' (if turned j then 0 else d.oi')
                  (if turned j then d.moves.dest'.head else oend)
                  (if turned j
                    then tail_reset f (with_tail f d.oi' d.moves.dest')
                    else with_tail f d.oi' d.moves.dest')
                  (turn_at_end src' d.ri' end d.span ended whole j))
            ∙ runs',
        omega arith,
      )

  both_parts-DrainEnds :
      (slots oi oend ri end : ℕ) (node src : MergeNode V)
      → IsRing f node
      → IsRing f src
      → FreePart f node oi slots
      → Span f src ri end
      → oi + slots ≡ oend
      → 0 < slots
      → ri < end
      → end ≡ f
      → DrainEnds f 2 slots oi oend ri end true node src
  both_parts-DrainEnds slots oi oend ri end node src rn rs p s at some_free some_left whole =
      let (d, runs, stop) = drain_part-Drained f slots oi ri end node src rn rs p s in
      elim (Bool-cases (ltb 0 d.slots' && ltb 0 d.moves.src'.count)) [
        | inl more ↦
            let ended : d.ri' ≡ end = elim stop [
              | inl full ↦ absurd (ground arith)
              | inr ended ↦ ended
            ] in
            second_part-DrainEnds slots oi oend ri end node src d rs runs at some_left whole ended
              (ground arith) (ground arith)
        | inr last ↦ (
          d.n,
          d.moves,
          drain_parts-stop f 1 slots oi oend ri end true node src d runs at (inl (refl, whole))
              last,
          elim stop [ inl full ↦ omega (arith, d.slots_is) | inr ended ↦ omega (arith, d.ri_is) ],
        )
      ]

  pub open_at :
      (src : MergeNode V) (i end : ℕ) (b : Bool)
      → IsOpen f (record { node = src; index = i; end = end; wraps = b })
      → min f (src.head + src.count) ≡ end
  open_at src i end b o = elim o.parts [
    | inl (on, whole) ↦ ground (arith, o.at, o.span.held)
    | inr (off, last, short) ↦ ground (arith, o.at)
  ]

  pub IsOpen-from :
      (src : MergeNode V) (i end : ℕ) (b : Bool)
      → IsOpen f (record { node = src; index = i; end = end; wraps = b })
      → IsOpen f (record { node = src; index = src.head; end = end; wraps = b })
  IsOpen-from src i end b o =
      subst (λ k. IsOpen f (record { node = src; index = k; end = end; wraps = b })) o.at o

  opened-DrainEnds :
      (slots oi oend end : ℕ) (b : Bool) (node src : MergeNode V)
      → IsRing f node
      → IsRing f src
      → FreePart f node oi slots
      → oi + slots ≡ oend
      → 0 < slots
      → IsOpen f (record { node = src; index = src.head; end = end; wraps = b })
      → DrainEnds f 2 slots oi oend src.head end b node src
  opened-DrainEnds slots oi oend end true node src rn rs p at some_free o =
      both_parts-DrainEnds slots oi oend src.head end node src rn rs p o.span at some_free o.more
        (elim o.parts [ inl (on, whole) ↦ whole | inr (off, _, _) ↦ absurd (ground arith) ])
  opened-DrainEnds slots oi oend end false node src rn rs p at some_free o =
      let (last, short) : (end ≡ src.count + src.head) × (end < f) = elim o.parts [
        | inl (on, _) ↦ absurd (ground arith)
        | inr (off, last, short) ↦ (last, short)
      ] in
      last_parts f 1 slots oi oend src.head end node src rn rs p o.span at some_free o.more last
        short

  -- A node that is not full takes tuples from a child that has some.
  pub drain_child-Moves :
      (node src : MergeNode V) (i end : ℕ) (b : Bool)
      → f < 2 ^ 31
      → IsRing f node
      → node.count < f
      → IsReader f (record { node = src; index = i; end = end; wraps = b })
      → 0 < src.count
      → (n : ℕ) × (m : Moves f n node src) × (drain_child f node
            (record { node = src; index = i; end = end; wraps = b })
          ≡ some (m.dest', m.src'))
        × (0 < n)
  unfolding drain_child
  drain_child-Moves node src i end b fit rn room reader held =
      let o = reader.opened held in
      let oend = if ltb node.tail node.head then node.head else f in
      let (p, at) = rest_part f node oend rn room refl in
      let (n, m, runs, some_moved) =
        opened-DrainEnds (oend - node.tail) node.tail oend end b node src rn reader.ring p at
          (ground (arith, rn.tail_is, rn.inside)) (IsOpen-from src i end b o) in
      let whole_end : min f ((node.tail + (f - node.count)) % 2 ^ 32) ≡ oend =
        ap (min f) (
          no_wrap f node.tail (f - node.count) fit (ground (arith, rn.tail_is, rn.inside))
            (omega arith))
        ∙ rest_end f node.count node.tail node.head rn.tail_is rn.inside room in
      let read_end : min f ((src.head + src.count) % 2 ^ 32) ≡ end =
        ap (min f)
          (no_wrap f src.head src.count fit (omega (arith, reader.ring.inside)) reader.ring.bounded)
        ∙ open_at src i end b o in
      (
        n,
        m,
        (λ j.
              drain_parts 2 f (whole_end j - node.tail) node.tail (whole_end j) node
                (record { node = src; index = src.head; end = read_end j; wraps = b }))
            ∙ runs,
        some_moved,
      )
