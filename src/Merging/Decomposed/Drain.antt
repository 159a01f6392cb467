-- ===== src/Merging/Decomposed/Drain.antt =====
-- The loops of `merge_scalar_decomposed` over a child that still has tuples.
use hashing_old_archive.Prelude.{
  ℕ, zero, suc, ◌+◌, ◌<◌, ◌≡◌, refl, some, ◌==◌, ◌&&◌, ltb, leb, arith, Bool-cases, inl, inr, ◌∙◌,
  ap, ◌⊎◌, true, false, if◌then◌else◌, Bool,
}
use hashing_old_archive.Merging.Ring.{MergeNode}
use hashing_old_archive.Merging.Ring.Window.{wrapped}
use hashing_old_archive.Merging.Ring.Steps.{IsRing}
use hashing_old_archive.Merging.Copy.Moves.{Moves, moves_none, moves_one, moves_then}
use hashing_old_archive.Merging.Decomposed.{tail_reset}
use hashing_old_archive.Merging.Decomposed.Fill.{FreePart, with_tail, assign-pushed, wraps}
use hashing_old_archive.Merging.Decomposed.Rest.{turned_node}
use hashing_old_archive.Merging.Decomposed.Parts.{Reader, drain_part, turn_drained, drain_parts}
use hashing_old_archive.Merging.Decomposed.Readers.{Span, span_step}

module _ {ℓ} {V : Type ℓ} (f : ℕ) where
  -- The local head is the index itself.
  abbrev pub with_head : ℕ → MergeNode V → MergeNode V
  with_head i src = record src { head = i }

  -- What a loop over one part of each ring leaves.
  pub record Drained (node src : MergeNode V) (slots oi ri end : ℕ) : Type ℓ where
    pub n : ℕ
    pub moves : Moves f n node src
    pub slots' : ℕ
    pub oi' : ℕ
    pub ri' : ℕ
    pub part : FreePart f moves.dest' oi' slots'
    pub span : Span f moves.src' ri' end
    pub slots_is : slots' + n ≡ slots
    pub oi_is : oi' ≡ oi + n
    pub ri_is : ri' ≡ ri + n

  abbrev pub Drains :
      (node src : MergeNode V) (slots oi ri end : ℕ) → Drained node src slots oi ri end → Type ℓ
  Drains node src slots oi ri end d =
      drain_part slots end oi ri (with_tail f oi node) (with_head ri src)
      ≡ some (d.slots', d.oi', d.ri', with_tail f d.oi' d.moves.dest', with_head d.ri' d.moves.src')

  abbrev drained_none :
      (node src : MergeNode V) (slots oi ri end : ℕ)
      → IsRing f node
      → IsRing f src
      → FreePart f node oi slots
      → Span f src ri end
      → Drained node src slots oi ri end
  drained_none node src slots oi ri end rn rs p s = record {
    n = 0;
    moves = moves_none f node src rn rs;
    slots' = slots;
    oi' = oi;
    ri' = ri;
    part = p;
    span = s;
    slots_is = omega arith;
    oi_is = omega arith;
    ri_is = omega arith;
  }

  pub drain_part-Drained :
      (slots oi ri end : ℕ) (node src : MergeNode V)
      → IsRing f node
      → IsRing f src
      → FreePart f node oi slots
      → Span f src ri end
      → (d : Drained node src slots oi ri end) × Drains node src slots oi ri end d
        × ((d.slots' ≡ 0) ⊎ (d.ri' ≡ end))
  unfolding drain_part
  drain_part-Drained zero oi ri end node src rn rs p s =
      (drained_none node src 0 oi ri end rn rs p s, refl, inl refl)
  drain_part-Drained (suc slots) oi ri end node src rn rs p s = elim (Bool-cases (ltb ri end)) [
    | inr e ↦ (
      drained_none node src (suc slots) oi ri end rn rs p s,
      rw (drain_part, e) refl,
      inr (ground (arith, s.ordered)),
    )
    | inl e ↦
        let (x, got, rs', lost, s', some_left) = span_step f src ri end rs s (ground arith) in
        let (e', rn', gained, p') = assign-pushed f node oi slots x rn p in
        let one =
          moves_one f (wrapped f) (wraps f) node src rn rs x rn' gained rs' lost some_left in
        let (d, runs, stop) =
          drain_part-Drained slots (oi + 1) (ri + 1) end one.dest' one.src' rn' rs' p' s' in
        (
          record {
            n = suc d.n;
            moves =
                moves_then f 1 d.n (suc d.n) (omega arith) one rs (omega (arith, d.moves.src_count))
                  d.moves;
            slots' = d.slots';
            oi' = d.oi';
            ri' = d.ri';
            part = d.part;
            span = d.span;
            slots_is = omega (arith, d.slots_is);
            oi_is = omega (arith, d.oi_is);
            ri_is = omega (arith, d.ri_is);
          },
          rw (drain_part, e, drain_part, got, drain_part, e') runs,
          stop,
        )
  ]

  abbrev pub reader_at : MergeNode V → ℕ → ℕ → Bool → Reader V
  reader_at src i end b = record { node = with_head i src; index = i; end = end; wraps = b }

  -- A round of the outer loop.
  pub drain_parts-step :
      (rounds slots oi oend ri end : ℕ) (b : Bool) (node src : MergeNode V)
      (d : Drained node src slots oi ri end)
      → Drains node src slots oi ri end d
      → drain_parts (suc rounds) f slots oi oend (with_tail f oi node) (reader_at src ri end b) ≡ (
          if ltb 0 d.slots' && ltb 0 d.moves.src'.count
          then drain_parts rounds f d.slots'
              (if d.oi' == oend then 0 else d.oi')
              (if d.oi' == oend then d.moves.dest'.head else oend)
              (if d.oi' == oend
                then tail_reset f (with_tail f d.oi' d.moves.dest')
                else with_tail f d.oi' d.moves.dest')
              (turn_drained f (reader_at d.moves.src' d.ri' end b))
          else some (
            if d.oi' == oend
                then tail_reset f (with_tail f d.oi' d.moves.dest')
                else with_tail f d.oi' d.moves.dest',
            (turn_drained f (reader_at d.moves.src' d.ri' end b)).node,
          ))
  unfolding drain_parts
  drain_parts-step rounds slots oi oend ri end b node src d runs = rw (drain_parts, runs) refl

  -- When the next part begins, the head is in the ring again.
  pub turned_reader :
      (src : MergeNode V) (ri end : ℕ) (b : Bool)
      → Span f src ri end
      → ((b ≡ true) × (end ≡ f)) ⊎ ((b ≡ false) × (end < f))
      → (turn_drained f (reader_at src ri end b)).node ≡ src
  unfolding turn_drained
  turned_reader src ri end b s parts = elim (Bool-cases (b && ri == end)) [
    | inl e ↦
        let head : (if leb f ri then 0 else ri) ≡ src.head = elim parts [
          | inl (on, whole) ↦ ground (arith, s.head)
          | inr (off, short) ↦ absurd (ground arith)
        ] in
        rw e (ap (λ h. record src { head = h }) head)
    | inr e ↦
        let head : ri ≡ src.head = elim parts [
          | inl (on, whole) ↦ ground (arith, s.head, s.ordered)
          | inr (off, short) ↦ ground (arith, s.head, s.ordered)
        ] in
        rw e (ap (λ h. record src { head = h }) head)
  ]

  pub drain_parts-stop :
      (rounds slots oi oend ri end : ℕ) (b : Bool) (node src : MergeNode V)
      (d : Drained node src slots oi ri end)
      → Drains node src slots oi ri end d
      → oi + slots ≡ oend
      → ((b ≡ true) × (end ≡ f)) ⊎ ((b ≡ false) × (end < f))
      → (ltb 0 d.slots' && ltb 0 d.moves.src'.count) ≡ false
      → drain_parts (suc rounds) f slots oi oend (with_tail f oi node) (reader_at src ri end b)
        ≡ some (d.moves.dest', d.moves.src')
  drain_parts-stop rounds slots oi oend ri end b node src d runs at parts stop =
      drain_parts-step rounds slots oi oend ri end b node src d runs
      ∙ rw stop (λ j. some (
        turned_node f d.moves.dest' d.oi' d.slots' oend d.part
            (omega (arith, d.oi_is, d.slots_is, at)) j,
        turned_reader d.moves.src' d.ri' end b d.span parts j,
      ))

  -- Tuples have moved, and the loop has ended.
  abbrev pub DrainEnds : ℕ → ℕ → ℕ → ℕ → ℕ → ℕ → Bool → MergeNode V → MergeNode V → Type ℓ
  DrainEnds rounds slots oi oend ri end b node src =
      (n : ℕ) × (m : Moves f n node src) × (drain_parts rounds f slots oi oend (with_tail f oi node)
          (reader_at src ri end b)
        ≡ some (m.dest', m.src'))
      × (0 < n)

  pub last_parts :
      (rounds slots oi oend ri end : ℕ) (node src : MergeNode V)
      → IsRing f node
      → IsRing f src
      → FreePart f node oi slots
      → Span f src ri end
      → oi + slots ≡ oend
      → 0 < slots
      → ri < end
      → end ≡ src.count + ri
      → end < f
      → DrainEnds (suc rounds) slots oi oend ri end false node src
  last_parts rounds slots oi oend ri end node src rn rs p s at some_free some_left last short =
      let (d, runs, stop) = drain_part-Drained slots oi ri end node src rn rs p s in
      (
        d.n,
        d.moves,
        drain_parts-stop rounds slots oi oend ri end false node src d runs at (inr (refl, short))
            (elim stop [
              | inl full ↦ ground arith
              | inr ended ↦
                  let empty : d.moves.src'.count ≡ 0 = omega (arith, d.moves.src_count, d.ri_is) in
                  ground arith
            ]),
        elim stop [ inl full ↦ omega (arith, d.slots_is) | inr ended ↦ omega (arith, d.ri_is) ],
      )
