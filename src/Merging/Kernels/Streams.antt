-- ===== src/Merging/Kernels/Streams.antt =====
-- A merge of two rings into a third, or to the output, as it acts on the streams of the children: a
-- child's stream is what its ring holds and what comes after.
use mathlib.Core.List.{append_assoc, append-nil}
use hashing_old_archive.Prelude.{
  ℕ, ◌+◌, ◌≤◌, ◌≡◌, refl, [], ◌++◌, arith, sym, ◌∙◌, ap, length, length-append,
}
use hashing_old_archive.Merging.{Relation}
use hashing_old_archive.Merging.Reference.{merge}
use hashing_old_archive.Merging.Ring.{MergeNode}
use hashing_old_archive.Merging.Ring.Steps.{IsRing, tuples, length-tuples}
use hashing_old_archive.Merging.Copy.Moves.{Moves}

module _ {ℓ} {V : Type ℓ} (f : ℕ) (after_r after_l : Relation V) where
  -- The merge of the streams of two children.
  abbrev pub both : MergeNode V → MergeNode V → Relation V
  both right left = merge (tuples f right ++ after_r) (tuples f left ++ after_l)

  -- Tuples leave the front of the merge of two streams.
  pub record Taken (right left : MergeNode V) : Type ℓ where
    pub right' : MergeNode V
    pub left' : MergeNode V
    pub taken : Relation V
    pub right_ring : IsRing f right'
    pub left_ring : IsRing f left'
    pub right_less : right'.count ≤ right.count
    pub left_less : left'.count ≤ left.count
    pub stream : both right left ≡ taken ++ both right' left'

  abbrev pub taken_none :
      (right left : MergeNode V) → IsRing f right → IsRing f left → Taken right left
  taken_none right left rr rl = record {
    right' = right;
    left' = left;
    taken = [];
    right_ring = rr;
    left_ring = rl;
    right_less = omega arith;
    left_less = omega arith;
    stream = refl;
  }

  abbrev pub taken_then :
      {right left : MergeNode V} (a : Taken right left) → Taken a.right' a.left' → Taken right left
  taken_then a b = record {
    right' = b.right';
    left' = b.left';
    taken = a.taken ++ b.taken;
    right_ring = b.right_ring;
    left_ring = b.left_ring;
    right_less = omega (arith, a.right_less, b.right_less);
    left_less = omega (arith, a.left_less, b.left_less);
    stream =
        a.stream
        ∙ ap (λ l. a.taken ++ l) b.stream
        ∙ sym (append_assoc a.taken b.taken (both b.right' b.left'));
  }

  -- What is taken goes to a node.
  pub record Merged (node right left : MergeNode V) : Type ℓ where
    pub children : Taken right left
    pub node' : MergeNode V
    pub ring : IsRing f node'
    pub gained : tuples f node' ≡ tuples f node ++ children.taken
    pub count : node'.count ≡ node.count + length children.taken

  abbrev pub merged_none :
      (node right left : MergeNode V)
      → IsRing f node
      → IsRing f right
      → IsRing f left
      → Merged node right left
  merged_none node right left rn rr rl = record {
    children = taken_none right left rr rl;
    node' = node;
    ring = rn;
    gained = sym (append-nil (tuples f node));
    count = omega arith;
  }

  abbrev pub merged_then :
      {node right left : MergeNode V} (a : Merged node right left)
      → Merged a.node' a.children.right' a.children.left'
      → Merged node right left
  merged_then {node} a b = record {
    children = taken_then a.children b.children;
    node' = b.node';
    ring = b.ring;
    gained =
        b.gained
        ∙ ap (λ l. l ++ b.children.taken) a.gained
        ∙ append_assoc (tuples f node) a.children.taken b.children.taken;
    count = omega (arith, a.count, b.count, length-append a.children.taken b.children.taken);
  }

  pub moved_length :
      (n : ℕ) (dest src : MergeNode V)
      → IsRing f src
      → (m : Moves f n dest src) → length m.moved ≡ n
  moved_length n dest src rs m = omega (
    arith,
    ap length m.lost,
    length-append m.moved (tuples f m.src'),
    length-tuples f src rs,
    length-tuples f m.src' m.src_ring,
    m.src_count,
  )

  -- The right child's tuples, when none of the left one's can come first.
  abbrev pub merged_right :
      (n : ℕ) (node right left : MergeNode V)
      → IsRing f right
      → IsRing f left
      → (m : Moves f n node right) → (both right left ≡ m.moved ++ both m.src' left)
      → Merged node right left
  merged_right n node right left rr rl m stream = record {
    children = record {
      right' = m.src';
      left' = left;
      taken = m.moved;
      right_ring = m.src_ring;
      left_ring = rl;
      right_less = omega (arith, m.src_count);
      left_less = omega arith;
      stream = stream;
    };
    node' = m.dest';
    ring = m.dest_ring;
    gained = m.gained;
    count = omega (arith, m.dest_count, moved_length n node right rr m);
  }

  abbrev pub merged_left :
      (n : ℕ) (node right left : MergeNode V)
      → IsRing f right
      → IsRing f left
      → (m : Moves f n node left) → (both right left ≡ m.moved ++ both right m.src')
      → Merged node right left
  merged_left n node right left rr rl m stream = record {
    children = record {
      right' = right;
      left' = m.src';
      taken = m.moved;
      right_ring = rr;
      left_ring = m.src_ring;
      right_less = omega arith;
      left_less = omega (arith, m.src_count);
      stream = stream;
    };
    node' = m.dest';
    ring = m.dest_ring;
    gained = m.gained;
    count = omega (arith, m.dest_count, moved_length n node left rl m);
  }
