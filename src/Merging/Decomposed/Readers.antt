-- ===== src/Merging/Decomposed/Readers.antt =====
-- The cursors of the decomposed kernels: a part of the tuples of a child, and where the next part begins.
use hashing_old_archive.Prelude.{
  ℕ, ◌+◌, ◌-◌, ◌<◌, ◌≤◌, ◌≡◌, refl, Bool, true, false, ◌∷◌, some, ◌==◌, ◌&&◌, ltb, arith,
  Bool-cases, inl, inr, sym, ◌∙◌, ap, get_elem?, ◌⊎◌,
}
use hashing_old_archive.Merging.{Tuple}
use hashing_old_archive.Merging.Ring.{MergeNode, advance}
use hashing_old_archive.Merging.Ring.Window.{wrapped}
use hashing_old_archive.Merging.Ring.Steps.{IsRing, tuples, advance-IsRing}
use hashing_old_archive.Merging.Decomposed.{at_end}
use hashing_old_archive.Merging.Decomposed.Fill.{at_end_suc, wraps}
use hashing_old_archive.Merging.Decomposed.Parts.{Reader, new_reader, turn}

module _ {ℓ} {V : Type ℓ} (f : ℕ) where
  -- A part of the tuples of a child, from its head on, which is at an index that may be the end.
  pub record Span (src : MergeNode V) (i end : ℕ) : Type 0 where
    pub head : src.head ≡ at_end f i
    pub ordered : i ≤ end
    pub inside : end ≤ f
    pub held : end ≤ src.count + i

  pub span_step :
      (src : MergeNode V) (i end : ℕ)
      → IsRing f src
      → Span src i end
      → i < end
      → (x : Tuple V) × (get_elem? src.buffer i ≡ some x)
        × IsRing f (advance (wrapped f) src)
        × (tuples f src ≡ x ∷ tuples f (advance (wrapped f) src))
        × Span (advance (wrapped f) src) (i + 1) end
        × (0 < src.count)
  span_step src i end r s lt =
      let some_left : 0 < src.count = omega (arith, s.held) in
      let (x, got, r', lost) = advance-IsRing f (wrapped f) (wraps f) src r some_left in
      let here : src.head ≡ i = s.head ∙ ground (arith, s.inside) in
      (
        x,
        ap (get_elem? src.buffer) (sym here) ∙ got,
        r',
        lost,
        record {
          head = ap (wrapped f) s.head ∙ at_end_suc f i (omega (arith, s.inside));
          ordered = omega arith;
          inside = s.inside;
          held = omega (arith, s.held);
        },
        some_left,
      )

  -- While a child holds tuples, a part of them begins at its head, and either it is the last one or the
  -- next one begins at the start of the ring.
  pub record IsOpen (r : Reader V) : Type 0 where
    pub at : r.index ≡ r.node.head
    pub more : r.index < r.end
    pub span : Span r.node r.index r.end
    pub parts :
        ((r.wraps ≡ true) × (r.end ≡ f))
        ⊎ ((r.wraps ≡ false) × (r.end ≡ r.node.count + r.index) × (r.end < f))

  pub record IsReader (r : Reader V) : Type 0 where
    pub ring : IsRing f r.node
    pub opened : 0 < r.node.count → IsOpen r

  pub new_reader-IsReader : (node : MergeNode V) → IsRing f node → IsReader (new_reader f node)
  unfolding new_reader
  new_reader-IsReader node r = elim (Bool-cases (ltb node.head node.tail)) [
    | inl e ↦ rw e (record {
      ring = r;
      opened = λ some_left.
          let count : node.tail ≡ node.count + node.head = ground (arith, r.tail_is, r.inside) in
          record {
            at = refl;
            more = ground arith;
            span = record {
              head = ground (arith, r.inside);
              ordered = ground arith;
              inside = ground (arith, r.tail_is, r.inside, r.bounded);
              held = omega (arith, count);
            };
            parts = inr (refl, count, ground (arith, r.tail_is, r.inside));
          };
    })
    | inr e ↦ rw e (record {
      ring = r;
      opened = λ some_left. record {
        at = refl;
        more = r.inside;
        span = record {
          head = ground (arith, r.inside);
          ordered = omega (arith, r.inside);
          inside = omega arith;
          held = ground (arith, r.tail_is, r.inside, r.bounded);
        };
        parts = inl (refl, refl);
      };
    })
  ]

  -- A child after its reader has moved on inside its part.
  pub record Advanced (src src' : MergeNode V) (i i' end : ℕ) : Type ℓ where
    pub span : Span src' i' end
    pub moved : i ≤ i'
    pub counts : src'.count + i' ≡ src.count + i
    pub buffer : src'.buffer ≡ src.buffer
    pub tail : src'.tail ≡ src.tail

  abbrev pub advanced_none :
      (src : MergeNode V) (i end : ℕ) → Span src i end → Advanced src src i i end
  advanced_none src i end s = record {
    span = s;
    moved = omega arith;
    counts = refl;
    buffer = refl;
    tail = refl;
  }

  abbrev pub advanced_then :
      (src src' src'' : MergeNode V) (i i' i'' end : ℕ)
      → src'.buffer ≡ src.buffer
      → src'.tail ≡ src.tail
      → src'.count + i' ≡ src.count + i
      → i ≤ i'
      → Advanced src' src'' i' i'' end
      → Advanced src src'' i i'' end
  advanced_then src src' src'' i i' i'' end buffer tail counts le a = record {
    span = a.span;
    moved = omega (arith, a.moved);
    counts = omega (arith, a.counts);
    buffer = a.buffer ∙ buffer;
    tail = a.tail ∙ tail;
  }

  -- What the source stores for a child whose reader has moved on.
  pub advanced_node :
      (r : Reader V) (src' : MergeNode V) (i' : ℕ)
      → r.index ≡ r.node.head
      → (a : Advanced r.node src' r.index i' r.end)
      → record r.node { count = r.node.count - (i' - r.node.head); head = at_end f i' } ≡ src'
  advanced_node r src' i' at a =
      let count : r.node.count - (i' - r.node.head) ≡ src'.count =
        omega (arith, a.counts, a.moved) in
      λ j. record {
        buffer = sym a.buffer j;
        count = count j;
        head = sym a.span.head j;
        tail = sym a.tail j;
      }

  -- After a move the next part begins where the last one has ended.
  pub turn-IsReader :
      (r : Reader V) (src' : MergeNode V) (i' : ℕ)
      → IsOpen r
      → (r.index < i') ⊎ (i' < r.end)
      → IsRing f src'
      → r.node.count ≤ f
      → (a : Advanced r.node src' r.index i' r.end)
      → (i : ℕ) × (e : ℕ) × (b : Bool) × (turn (record r { node = src'; index = i' })
          ≡ record { node = src'; index = i; end = e; wraps = b })
        × IsReader (record { node = src'; index = i; end = e; wraps = b })
  unfolding turn
  turn-IsReader r src' i' o moved ring bound a = elim (Bool-cases (r.wraps && i' == r.end)) [
    | inl e ↦ (
      0,
      src'.tail,
      false,
      rw e refl,
      record {
        ring = ring;
        opened = λ some_left.
            let whole : r.end ≡ f = elim o.parts [
              | inl (_, end) ↦ end
              | inr (off, _, _) ↦ absurd (ground arith)
            ] in
            let ended : i' ≡ r.end = ground arith in
            let head : src'.head ≡ 0 = a.span.head ∙ ground arith in
            let less : src'.count < f = elim moved [
              | inl l ↦ omega (arith, a.counts)
              | inr l ↦ absurd (omega arith)
            ] in
            let tail : src'.tail ≡ src'.count = ring.tail_is ∙ ground arith in
            record {
              at = sym head;
              more = omega arith;
              span = record {
                head = head ∙ ground arith;
                ordered = omega arith;
                inside = omega arith;
                held = omega arith;
              };
              parts = inr (refl, omega arith, omega arith);
            };
      },
    )
    | inr e ↦ (
      i',
      r.end,
      r.wraps,
      rw e refl,
      record {
        ring = ring;
        opened = λ some_left.
            let more : i' < r.end = elim o.parts [
              | inl (on, _) ↦ ground (arith, a.span.ordered)
              | inr (_, last, _) ↦ omega (arith, a.counts)
            ] in
            record {
              at = sym (a.span.head ∙ ground (arith, a.span.inside));
              more = more;
              span = a.span;
              parts = elim o.parts [
                | inl (on, whole) ↦ inl (on, whole)
                | inr (off, last, short) ↦ inr (off, omega (arith, a.counts), short)
              ];
            };
      },
    )
  ]
