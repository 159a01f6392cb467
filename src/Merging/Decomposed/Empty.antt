-- ===== src/Merging/Decomposed/Empty.antt =====
-- The loops of `mergestore_scalar_decomposed` over a node that still has tuples.
use mathlib.Core.List.{append-nil}
use mathlib.Core.Path.{subst}
use hashing_old_archive.Prelude.{
  ℕ, Option, zero, suc, ◌+◌, ◌-◌, ◌^◌, ◌<◌, ◌≤◌, ◌≡◌, refl, Bool, true, false, [], ◌∷◌, ◌++◌, some,
  ltb, arith, Bool-cases, inl, inr, sym, ◌∙◌, ap, ◌⊎◌,
}
use hashing_old_archive.Merging.{Tuple, Relation, ◌>>=◌}
use hashing_old_archive.Merging.Ring.{MergeNode, advance}
use hashing_old_archive.Merging.Ring.Window.{wrapped}
use hashing_old_archive.Merging.Ring.Steps.{IsRing, tuples}
use hashing_old_archive.Merging.Kernels.First.{tuples-nil}
use hashing_old_archive.Merging.Decomposed.Parts.{turn_drained}
use hashing_old_archive.Merging.Decomposed.Rest.{no_wrap}
use hashing_old_archive.Merging.Decomposed.Output.{store_part, store_rest_parts, store_child}
use hashing_old_archive.Merging.Decomposed.Readers.{Span, span_step, IsOpen, IsReader}
use hashing_old_archive.Merging.Decomposed.Drain.{with_head, reader_at, turned_reader}
use hashing_old_archive.Merging.Decomposed.Turns.{turn_at_end, open_at, IsOpen-from}

module _ {ℓ} {V : Type ℓ} (f : ℕ) where
  -- `n` tuples of a node have been written.
  record Written (n : ℕ) (src : MergeNode V) (i : ℕ) : Type ℓ where
    src' : MergeNode V
    out : Relation V
    ring : IsRing f src'
    span : Span f src' (i + n) (i + n)
    lost : tuples f src ≡ out ++ tuples f src'
    counts : src'.count + n ≡ src.count
    runs : store_part n i (with_head f i src) ≡ some (out, with_head f (i + n) src')

  abbrev before : Tuple V → Option (Relation V × MergeNode V) → Option (Relation V × MergeNode V)
  before x later = do (out, src) ← later; some (x ∷ out, src)

  store_part-Written :
      (n i : ℕ) (src : MergeNode V) → IsRing f src → Span f src i (i + n) → Written n src i
  unfolding store_part
  store_part-Written zero i src r s =
      let same : i + 0 ≡ i = omega arith in
      record {
        src' = src;
        out = [];
        ring = r;
        span = rw same (record {
          head = s.head;
          ordered = omega arith;
          inside = omega (arith, s.inside);
          held = omega arith;
        });
        lost = refl;
        counts = omega arith;
        runs = rw same refl;
      }
  store_part-Written (suc n) i src r s =
      let (x, got, r', lost, s', some_left) = span_step f src i (i + suc n) r s (omega arith) in
      let same : i + suc n ≡ i + 1 + n = omega arith in
      let a = store_part-Written n (i + 1) (advance (wrapped f) src) r' (record {
        head = s'.head;
        ordered = omega arith;
        inside = omega (arith, s'.inside);
        held = omega (arith, s'.held);
      }) in
      record {
        src' = a.src';
        out = x ∷ a.out;
        ring = a.ring;
        span = subst (λ k. Span f a.src' k k) (sym same) a.span;
        lost = lost ∙ ap (λ l. x ∷ l) a.lost;
        counts = omega (arith, a.counts);
        runs =
            rw (store_part, got)
              (ap (before x) a.runs ∙ ap (λ k. some (x ∷ a.out, with_head f k a.src')) (sym same));
      }

  -- All the tuples of a node are written, and it is empty.
  abbrev pub Emptied : MergeNode V → Option (Relation V × MergeNode V) → Type ℓ
  Emptied src result =
      (src' : MergeNode V) × (result ≡ some (tuples f src, src')) × IsRing f src' × (src'.count ≡ 0)

  store_rest_parts-stop :
      (rounds i end : ℕ) (b : Bool) (src : MergeNode V) (a : Written (end - i) src i)
      → i ≤ end
      → ((b ≡ true) × (end ≡ f)) ⊎ ((b ≡ false) × (end < f))
      → a.src'.count ≡ 0
      → Emptied src (store_rest_parts (suc rounds) f (reader_at f src i end b))
  unfolding store_rest_parts
  store_rest_parts-stop rounds i end b src a le parts empty =
      let stop : ltb 0 a.src'.count ≡ false = ground arith in
      let all : a.out ≡ tuples f src =
        sym (a.lost ∙ ap (λ l. a.out ++ l) (tuples-nil f a.src' a.ring empty) ∙ append-nil a.out) in
      let at : i + (end - i) ≡ end = omega arith in
      let span : Span f a.src' (i + (end - i)) end = record {
        head = a.span.head;
        ordered = omega arith;
        inside = omega (arith, a.span.inside);
        held = omega arith;
      } in
      (
        a.src',
        rw (store_rest_parts, a.runs, stop)
            (λ j. some (all j, turned_reader f a.src' (i + (end - i)) end b span parts j)),
        a.ring,
        empty,
      )

  abbrev and_then :
      Relation V → Option (Relation V × MergeNode V) → Option (Relation V × MergeNode V)
  and_then out later = do (more, src) ← later; some (out ++ more, src)

  store_rest_parts-next :
      (rounds i end : ℕ) (b : Bool) (src : MergeNode V) (a : Written (end - i) src i)
      → ltb 0 a.src'.count ≡ true
      → store_rest_parts (suc rounds) f (reader_at f src i end b)
        ≡ and_then a.out
            (store_rest_parts rounds f (turn_drained f (reader_at f a.src' (i + (end - i)) end b)))
  unfolding store_rest_parts
  store_rest_parts-next rounds i end b src a more = rw (store_rest_parts, a.runs, more) refl

  store_rest_parts-more :
      (i end : ℕ) (src : MergeNode V) (a : Written (end - i) src i)
      → IsRing f src
      → i < end
      → end ≡ f
      → 0 < a.src'.count
      → Emptied src (store_rest_parts 2 f (reader_at f src i end true))
  store_rest_parts-more i end src a r le whole held =
      let more : ltb 0 a.src'.count ≡ true = ground arith in
      let at : i + (end - i) ≡ end = omega arith in
      let head : a.src'.head ≡ 0 = a.span.head ∙ ground arith in
      let less : a.src'.count < f = omega (arith, a.counts, r.bounded) in
      let tail : a.src'.tail ≡ a.src'.count = a.ring.tail_is ∙ ground arith in
      let span : Span f a.src' (i + (end - i)) end = record {
        head = a.span.head;
        ordered = omega arith;
        inside = omega (arith, a.span.inside);
        held = omega arith;
      } in
      let b = store_part-Written (a.src'.tail - 0) 0 a.src' a.ring (record {
        head = head ∙ ground arith;
        ordered = omega arith;
        inside = omega arith;
        held = omega arith;
      }) in
      let (src', runs, ring, empty) =
        store_rest_parts-stop 0 0 a.src'.tail false a.src' b (omega arith) (inr (refl, omega arith))
          (omega (arith, b.counts)) in
      (
        src',
        store_rest_parts-next 1 i end true src a more
            ∙ ap (λ r. and_then a.out (store_rest_parts 1 f r))
                (turn_at_end f a.src' (i + (end - i)) end span at whole)
            ∙ ap (and_then a.out) runs
            ∙ ap (λ l. some (l, src')) (sym a.lost),
        ring,
        empty,
      )

  store_open :
      (end : ℕ) (b : Bool) (src : MergeNode V)
      → IsRing f src
      → IsOpen f (record { node = src; index = src.head; end = end; wraps = b })
      → Emptied src (store_rest_parts 2 f (reader_at f src src.head end b))
  store_open end b src r o =
      let at : src.head + (end - src.head) ≡ end = omega (arith, o.more) in
      let a = store_part-Written (end - src.head) src.head src r (rw at o.span) in
      elim (Bool-cases (ltb 0 a.src'.count)) [
        | inl more ↦ elim o.parts [
          | inl (on, whole) ↦
              rw on (store_rest_parts-more src.head end src a r o.more whole (ground arith))
          | inr (off, last, short) ↦ absurd (ground (arith, a.counts))
        ]
        | inr stop ↦
            store_rest_parts-stop 1 src.head end b src a (omega (arith, o.more))
              (elim o.parts [
                | inl (on, whole) ↦ inl (on, whole)
                | inr (off, last, short) ↦ inr (off, short)
              ])
              (ground arith)
      ]

  pub store_child-Emptied :
      (src : MergeNode V) (i end : ℕ) (b : Bool)
      → f < 2 ^ 31
      → IsReader f (record { node = src; index = i; end = end; wraps = b })
      → 0 < src.count
      → Emptied src (store_child f (record { node = src; index = i; end = end; wraps = b }))
  unfolding store_child
  store_child-Emptied src i end b fit reader held =
      let o = reader.opened held in
      let sum =
        no_wrap f src.head src.count fit (omega (arith, reader.ring.inside)) reader.ring.bounded in
      rw (sum, open_at f src i end b o)
        (store_open end b src reader.ring (IsOpen-from f src i end b o))
