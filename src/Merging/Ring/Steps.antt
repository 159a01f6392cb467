-- ===== src/Merging/Ring/Steps.antt =====
-- What one step of a reader or a writer does to the tuples of a ring buffer.
use hashing_old_archive.Prelude.{
  ℕ, zero, suc, ◌+◌, ◌-◌, ◌<◌, ◌≤◌, ◌≡◌, refl, List, [], ◌∷◌, ◌++◌, some, get_elem?, set, length,
  arith, ap, sym, ◌∙◌, length-set,
}
use hashing_old_archive.Merging.{Tuple, Relation}
use hashing_old_archive.Merging.Ring.{MergeNode, push, advance, front}
use hashing_old_archive.Merging.Ring.Window.{
  wrapped, ahead, window, window-set, window-suc, get-some, get_elem?-set_self,
}

module _ {ℓ} {V : Type ℓ} (f : ℕ) where
  -- A ring buffer of `f` slots, whose tail is `count` steps behind its head.
  pub record IsRing (node : MergeNode V) : Type 0 where
    pub size : length node.buffer ≡ f
    pub bounded : node.count ≤ f
    pub inside : node.head < f
    pub tail_is : node.tail ≡ ahead f node.head node.count

  -- The tuples of a node, the oldest first.
  abbrev pub tuples : MergeNode V → Relation V
  tuples node = window f node.count node.buffer node.head

  length-window :
      (n : ℕ) (buffer : List (Tuple V)) (head : ℕ)
      → length buffer ≡ f
      → head < f
      → length (window f n buffer head) ≡ n
  unfolding window
  length-window zero buffer head size h = refl
  length-window (suc n) buffer head size h =
      let (x, got) = get-some f buffer head (rw size h) in
      rw (window, got, window)
        (ap suc (length-window n buffer (wrapped f head) size (ground arith)))

  pub length-tuples : (node : MergeNode V) → IsRing node → length (tuples node) ≡ node.count
  length-tuples node ring = length-window node.count node.buffer node.head ring.size ring.inside

  module _ (next : ℕ → ℕ) (law : (index : ℕ) → index < f → next index ≡ wrapped f index) where
    abbrev pub pushed : Tuple V → MergeNode V → MergeNode V
    pushed x node = record node {
      buffer = set node.buffer node.tail x;
      count = node.count + 1;
      tail = next node.tail;
    }

    -- A push on a ring that is not full adds its tuple at the end.
    pub push-IsRing :
        (x : Tuple V) (node : MergeNode V)
        → IsRing node
        → node.count < f
        → (push next x node ≡ some (pushed x node))
          × IsRing (pushed x node)
          × (tuples (pushed x node) ≡ tuples node ++ (x ∷ []))
          × ((old : Tuple V) × (get_elem? node.buffer node.tail ≡ some old))
    unfolding push
    push-IsRing x node ring room =
        let t : node.tail < f = ground (arith, ring.inside, ring.tail_is) in
        let (old, got) = get-some f node.buffer node.tail (rw ring.size t) in
        let moved : next node.tail ≡ ahead f node.head (node.count + 1) =
          law node.tail t ∙ ground (arith, ring.inside, ring.tail_is) in
        let buffer' = set node.buffer node.tail x in
        let at_tail : get_elem? buffer' (ahead f node.head node.count) ≡ some x =
          ap (get_elem? buffer') (sym ring.tail_is)
          ∙ get_elem?-set_self f node.buffer node.tail x (rw ring.size t) in
        (
          rw (push, got) refl,
          record {
            size = length-set node.buffer node.tail x ∙ ring.size;
            bounded = omega arith;
            inside = ring.inside;
            tail_is = moved;
          },
          (let e : node.count + 1 ≡ suc node.count = omega arith in
              rw e (
                window-suc f node.count buffer' node.head x ring.inside room
                  (length-set node.buffer node.tail x ∙ ring.size) at_tail
                ∙ ap (λ l. l ++ (x ∷ []))
                    (window-set f node.count node.buffer node.head node.tail x ring.inside t
                      (ground (arith, ring.inside, ring.tail_is, room))))),
          (old, got),
        )

    -- The tuple at the head of a ring that is not empty is its oldest, and goes as the head moves on.
    pub advance-IsRing :
        (node : MergeNode V)
        → IsRing node
        → 0 < node.count
        → (x : Tuple V) × (front node ≡ some x)
          × IsRing (advance next node)
          × (tuples node ≡ x ∷ tuples (advance next node))
    unfolding window
    advance-IsRing node ring some_left =
        let (x, got) = get-some f node.buffer node.head (rw ring.size ring.inside) in
        let moved = law node.head ring.inside in
        (
          x,
          got,
          record {
            size = ring.size;
            bounded = omega (arith, ring.bounded);
            inside = rw moved (ground (arith, ring.inside));
            tail_is = ring.tail_is ∙ rw moved (ground (arith, ring.inside, ring.bounded));
          },
          (let e : node.count ≡ suc (node.count - 1) = omega arith in
              ap (λ n. window f n node.buffer node.head) e ∙ rw (window, got, window, moved) refl),
        )
