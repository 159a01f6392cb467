-- ===== src/Merging/Multiway/Inner.antt =====
-- A merge at an inner node keeps the streams of the other nodes.
use mathlib.Core.List.{append_assoc}
use hashing_old_archive.Prelude.{
  ℕ, ◌+◌, ◌*◌, ◌<◌, ◌≡◌, ◌≢◌, refl, Bool, true, false, [], ◌++◌, arith, inl, inr, sym, ◌∙◌, ap,
  eq_cases,
}
use hashing_old_archive.Merging.{Relation}
use hashing_old_archive.Merging.Reference.{merge}
use hashing_old_archive.Merging.Ring.{MergeNode}
use hashing_old_archive.Merging.Ring.Steps.{IsRing, tuples}
use hashing_old_archive.Merging.Kernels.First.{stream-nil}
use hashing_old_archive.Merging.Kernels.Streams.{both, Merged}
use hashing_old_archive.Merging.Multiway.{Fifos, set_at}
use hashing_old_archive.Merging.Multiway.State.{
  done-undone, IsTree, stream, set_at_same, set_at_other,
}

module _ {ℓ} {V : Type ℓ} (f nfifos m : ℕ) (is_inner : 2 * m + 3 < nfifos) where
  module _ (nodes : ℕ → MergeNode V) (node right left : MergeNode V) where
    abbrev pub nodes_after : ℕ → MergeNode V
    nodes_after = set_at (2 * m + 3) left (set_at (2 * m + 2) right (set_at m node nodes))

    pub nodes_after_node : (i : ℕ) → i ≡ m → nodes_after i ≡ node
    nodes_after_node i e =
        set_at_other (2 * m + 3) i left _ (λ q. omega arith)
        ∙ set_at_other (2 * m + 2) i right _ (λ q. omega arith)
        ∙ set_at_same m i node nodes e

    pub nodes_after_right : (i : ℕ) → i ≡ 2 * m + 2 → nodes_after i ≡ right
    nodes_after_right i e =
        set_at_other (2 * m + 3) i left _ (λ q. omega arith) ∙ set_at_same (2 * m + 2) i right _ e

    pub nodes_after_left : (i : ℕ) → i ≡ 2 * m + 3 → nodes_after i ≡ left
    nodes_after_left i e = set_at_same (2 * m + 3) i left _ e

    pub nodes_after_other :
        (i : ℕ) → i ≢ m → i ≢ 2 * m + 2 → i ≢ 2 * m + 3 → nodes_after i ≡ nodes i
    nodes_after_other i n n' n'' =
        set_at_other (2 * m + 3) i left _ n''
        ∙ set_at_other (2 * m + 2) i right _ n'
        ∙ set_at_other m i node nodes n

  module _ (fifos : Fifos V) (later : ℕ → Relation V) (tree : IsTree f nfifos fifos later)
      (a : Merged f
        (later (2 * m + 2))
        (later (2 * m + 3))
        (fifos.nodes m)
        (fifos.nodes (2 * m + 2))
        (fifos.nodes (2 * m + 3)))
      (ended : Bool) where
    abbrev pub after_merge : Fifos V
    after_merge = record fifos {
      nodes = nodes_after fifos.nodes a.node' a.children.right' a.children.left';
      done = set_at m ended fifos.done;
    }

    abbrev coming : Relation V
    coming = both f (later (2 * m + 2)) (later (2 * m + 3)) a.children.right' a.children.left'

    abbrev pub later_merge : ℕ → Relation V
    later_merge =
        set_at m (both f (later (2 * m + 2)) (later (2 * m + 3)) a.children.right' a.children.left')
          later

    pub stream-after_merge :
        (i : ℕ)
        → i ≢ 2 * m + 2
        → i ≢ 2 * m + 3
        → stream f after_merge later_merge i ≡ stream f fifos later i
    stream-after_merge i n n' = elim (eq_cases i m) [
      | inl e ↦
          rw
            (
              nodes_after_node fifos.nodes a.node' a.children.right' a.children.left' i e,
              set_at_same m i coming later e,
            )
            (ap (λ l. l ++ coming) a.gained
              ∙ append_assoc (tuples f (fifos.nodes m)) a.children.taken coming
              ∙ ap (λ l. tuples f (fifos.nodes m) ++ l)
                  (sym a.children.stream ∙ sym (tree.inner m is_inner))
              ∙ ap (λ k. stream f fifos later k) (sym e))
      | inr n'' ↦
          rw
            (
              nodes_after_other fifos.nodes a.node' a.children.right' a.children.left' i n'' n n',
              set_at_other m i coming later n'',
            )
            refl
    ]

    right-after_merge :
        (i : ℕ)
        → i ≡ 2 * m + 2
        → stream f after_merge later_merge i ≡ tuples f a.children.right' ++ later (2 * m + 2)
    right-after_merge i e =
        rw
          (
            nodes_after_right fifos.nodes a.node' a.children.right' a.children.left' i e,
            set_at_other m i coming later (λ q. omega arith),
          )
          (ap (λ k. tuples f a.children.right' ++ later k) e)

    left-after_merge :
        (i : ℕ)
        → i ≡ 2 * m + 3
        → stream f after_merge later_merge i ≡ tuples f a.children.left' ++ later (2 * m + 3)
    left-after_merge i e =
        rw
          (
            nodes_after_left fifos.nodes a.node' a.children.right' a.children.left' i e,
            set_at_other m i coming later (λ q. omega arith),
          )
          (ap (λ k. tuples f a.children.left' ++ later k) e)

    IsRing-after_merge : (i : ℕ) → i < nfifos → IsRing f (after_merge.nodes i)
    IsRing-after_merge i lt = elim (eq_cases i m) [
      | inl e ↦
          rw (nodes_after_node fifos.nodes a.node' a.children.right' a.children.left' i e) a.ring
      | inr n ↦ elim (eq_cases i (2 * m + 2)) [
        | inl e ↦
            rw (nodes_after_right fifos.nodes a.node' a.children.right' a.children.left' i e)
              a.children.right_ring
        | inr n' ↦ elim (eq_cases i (2 * m + 3)) [
          | inl e ↦
              rw (nodes_after_left fifos.nodes a.node' a.children.right' a.children.left' i e)
                a.children.left_ring
          | inr n'' ↦
              rw
                (nodes_after_other fifos.nodes a.node' a.children.right' a.children.left' i n n'
                  n'')
                (tree.ring i lt)
        ]
      ]
    ]

    inner-after_merge :
        (i : ℕ)
        → 2 * i + 3 < nfifos
        → later_merge i
          ≡ merge
              (stream f after_merge later_merge (2 * i + 2))
              (stream f after_merge later_merge (2 * i + 3))
    inner-after_merge i lt = elim (eq_cases i m) [
      | inl e ↦
          set_at_same m i coming later e
          ∙ ap (λ l. merge l (tuples f a.children.left' ++ later (2 * m + 3)))
              (sym (right-after_merge (2 * i + 2) (omega arith)))
          ∙ ap (merge (stream f after_merge later_merge (2 * i + 2)))
              (sym (left-after_merge (2 * i + 3) (omega arith)))
      | inr n ↦
          set_at_other m i coming later n
          ∙ tree.inner i lt
          ∙ ap (λ l. merge l (stream f fifos later (2 * i + 3)))
              (sym (stream-after_merge (2 * i + 2) (λ q. omega arith) (λ q. omega arith)))
          ∙ ap (merge (stream f after_merge later_merge (2 * i + 2)))
              (sym (stream-after_merge (2 * i + 3) (λ q. omega arith) (λ q. omega arith)))
    ]

    pub after_merge-IsTree :
        fifos.done m ≡ false
        → (ended ≡ true → (fifos.done (2 * m + 2) ≡ true) × (fifos.done (2 * m + 3) ≡ true))
        → (ended ≡ true
            → ((later (2 * m + 2) ≡ []) × (later (2 * m + 3) ≡ []))
              × ((a.children.right'.count ≡ 0) × (a.children.left'.count ≡ 0)))
        → IsTree f nfifos after_merge later_merge
    unfolding merge
    after_merge-IsTree undone children empty = record {
      ring = IsRing-after_merge;
      inner = inner-after_merge;
      leaf =
          λ i lt le. set_at_other m i coming later (λ q. omega (arith, q, le)) ∙ tree.leaf i lt le;
      ended = λ i lt d. elim (eq_cases i m) [
        | inl e ↦
            let ((no_r, no_l), (none_r, none_l)) =
              empty (sym (set_at_same m i ended fifos.done e) ∙ d) in
            set_at_same m i coming later e
            ∙ rw
                (
                  stream-nil f a.children.right' (later (2 * m + 2)) a.children.right_ring none_r
                      no_r,
                  stream-nil f a.children.left' (later (2 * m + 3)) a.children.left_ring none_l
                      no_l,
                )
                refl
        | inr n ↦
            set_at_other m i coming later n
            ∙ tree.ended i lt (sym (set_at_other m i ended fifos.done n) ∙ d)
      ];
      small = tree.small;
      closed = λ i lt d. elim (eq_cases i m) [
        | inl e ↦
            let (right, left) = children (sym (set_at_same m i ended fifos.done e) ∙ d) in
            (
              set_at_other m (2 * i + 2) ended fifos.done (λ q. omega arith)
                  ∙ ap (λ k. fifos.done (2 * k + 2)) e
                  ∙ right,
              set_at_other m (2 * i + 3) ended fifos.done (λ q. omega arith)
                  ∙ ap (λ k. fifos.done (2 * k + 3)) e
                  ∙ left,
            )
        | inr n ↦
            let (right, left) = tree.closed i lt (sym (set_at_other m i ended fifos.done n) ∙ d) in
            (
              set_at_other m (2 * i + 2) ended fifos.done
                    (λ q. done-undone (fifos.done m) (ap fifos.done (sym q) ∙ right) undone)
                  ∙ right,
              set_at_other m (2 * i + 3) ended fifos.done
                    (λ q. done-undone (fifos.done m) (ap fifos.done (sym q) ∙ left) undone)
                  ∙ left,
            )
      ];
    }
