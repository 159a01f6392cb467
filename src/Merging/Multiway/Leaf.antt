-- ===== src/Merging/Multiway/Leaf.antt =====
-- A leaf that reads keeps the streams.
use mathlib.Core.List.{append_assoc}
use hashing_old_archive.Prelude.{
  ℕ, ◌+◌, ◌-◌, ◌*◌, ◌^◌, ◌<◌, ◌≤◌, ◌≡◌, ◌≢◌, refl, Bool, true, false, [], ◌++◌, arith, inl, inr,
  sym, ◌∙◌, ap, length, eq_cases,
}
use hashing_old_archive.Merging.{Relation}
use hashing_old_archive.Merging.Reference.{merge}
use hashing_old_archive.Merging.Ring.{MergeNode}
use hashing_old_archive.Merging.Ring.Steps.{tuples}
use hashing_old_archive.Merging.Kernels.Read.{Fed}
use hashing_old_archive.Merging.Multiway.{Fifos, set_at}
use hashing_old_archive.Merging.Multiway.State.{
  done-undone, IsTree, stream, set_at_same, set_at_other,
}

module _ {ℓ} {V : Type ℓ} (f nfifos : ℕ) where
  -- The state after a leaf has read.
  abbrev pub after_read :
      ℕ
      → ℕ
      → Bool
      → {node : MergeNode V} {xs ys : Relation V} → Fed f node xs ys
      → Fifos V
      → Fifos V
  after_read c m ended a fifos = record {
    nodes = set_at m a.node' fifos.nodes;
    done = set_at m ended fifos.done;
    parts = set_at (c + 1) a.ys' (set_at c a.xs' fifos.parts);
  }

  module _ (c m : ℕ) (inside : m < nfifos) (low : nfifos ≤ 2 * m + 2)
      (at : c ≡ 2 * (nfifos - 1 - m)) (fifos : Fifos V) (later : ℕ → Relation V)
      (tree : IsTree f nfifos fifos later)
      (a : Fed f (fifos.nodes m) (fifos.parts c) (fifos.parts (c + 1))) (ended : Bool) where
    abbrev pub later_read : ℕ → Relation V
    later_read = set_at m (merge a.xs' a.ys') later

    pub stream-after_read :
        (i : ℕ) → stream f (after_read c m ended a fifos) later_read i ≡ stream f fifos later i
    stream-after_read i = elim (eq_cases i m) [
      | inl e ↦
          rw (set_at_same m i a.node' fifos.nodes e, set_at_same m i (merge a.xs' a.ys') later e)
            (ap (λ l. l ++ merge a.xs' a.ys') a.gained
              ∙ append_assoc (tuples f (fifos.nodes m)) a.taken (merge a.xs' a.ys')
              ∙ ap (λ l. tuples f (fifos.nodes m) ++ l)
                  (sym a.stream
                    ∙ ap (λ k. merge (fifos.parts k) (fifos.parts (k + 1))) at
                    ∙ sym (tree.leaf m inside low))
              ∙ ap (λ k. stream f fifos later k) (sym e))
      | inr n ↦
          rw (set_at_other m i a.node' fifos.nodes n, set_at_other m i (merge a.xs' a.ys') later n)
            refl
    ]

    leaf-other :
        (i : ℕ)
        → i < nfifos
        → i ≢ m
        → (set_at (c + 1) a.ys' (set_at c a.xs' fifos.parts) (2 * (nfifos - 1 - i))
            ≡ fifos.parts (2 * (nfifos - 1 - i)))
          × (set_at (c + 1) a.ys' (set_at c a.xs' fifos.parts) (2 * (nfifos - 1 - i) + 1)
              ≡ fifos.parts (2 * (nfifos - 1 - i) + 1))
    leaf-other i lt n = (
      set_at_other (c + 1) _ a.ys' _ (λ e. omega (arith, e, at))
          ∙ set_at_other c _ a.xs' fifos.parts (λ e. n (omega (arith, e, at))),
      set_at_other (c + 1) _ a.ys' _ (λ e. n (omega (arith, e, at)))
          ∙ set_at_other c _ a.xs' fifos.parts (λ e. omega (arith, e, at)),
    )

    small-after_read :
        (j : ℕ) → length (set_at (c + 1) a.ys' (set_at c a.xs' fifos.parts) j) < 2 ^ 32
    small-after_read j = elim (eq_cases j (c + 1)) [
      | inl e ↦
          rw (set_at_same (c + 1) j a.ys' (set_at c a.xs' fifos.parts) e)
            (omega (arith, a.less_ys, tree.small (c + 1)))
      | inr n ↦
          rw (set_at_other (c + 1) j a.ys' (set_at c a.xs' fifos.parts) n) (elim (eq_cases j c) [
            | inl e ↦
                rw (set_at_same c j a.xs' fifos.parts e) (omega (arith, a.less_xs, tree.small c))
            | inr n' ↦ rw (set_at_other c j a.xs' fifos.parts n') (tree.small j)
          ])
    ]

    pub after_read-IsTree :
        fifos.done m ≡ false
        → (ended ≡ true → (a.xs' ≡ []) × (a.ys' ≡ []))
        → IsTree f nfifos (after_read c m ended a fifos) later_read
    unfolding merge
    after_read-IsTree undone empty = record {
      ring = λ i lt. elim (eq_cases i m) [
        | inl e ↦ rw (set_at_same m i a.node' fifos.nodes e) a.ring
        | inr n ↦ rw (set_at_other m i a.node' fifos.nodes n) (tree.ring i lt)
      ];
      inner = λ i lt.
          set_at_other m i (merge a.xs' a.ys') later (λ e. omega (arith, e, low, lt))
          ∙ tree.inner i lt
          ∙ ap (λ l. merge l (stream f fifos later (2 * i + 3)))
              (sym (stream-after_read (2 * i + 2)))
          ∙ ap (merge (stream f (after_read c m ended a fifos) later_read (2 * i + 2)))
              (sym (stream-after_read (2 * i + 3)));
      leaf = λ i lt le. elim (eq_cases i m) [
        | inl e ↦
            let here : 2 * (nfifos - 1 - i) ≡ c = omega (arith, at, e) in
            let next : 2 * (nfifos - 1 - i) + 1 ≡ c + 1 = omega (arith, at, e) in
            rw
              (
                set_at_same m i (merge a.xs' a.ys') later e,
                set_at_other (c + 1) (2 * (nfifos - 1 - i)) a.ys' (set_at c a.xs' fifos.parts)
                    (λ q. omega (arith, q, here)),
                set_at_same c (2 * (nfifos - 1 - i)) a.xs' fifos.parts here,
                set_at_same (c + 1) (2 * (nfifos - 1 - i) + 1) a.ys' (set_at c a.xs' fifos.parts)
                    next,
              )
              refl
        | inr n ↦
            rw
              (
                set_at_other m i (merge a.xs' a.ys') later n,
                (leaf-other i lt n).0,
                (leaf-other i lt n).1,
              )
              (tree.leaf i lt le)
      ];
      ended = λ i lt d. elim (eq_cases i m) [
        | inl e ↦
            let (no_xs, no_ys) = empty (sym (set_at_same m i ended fifos.done e) ∙ d) in
            rw (set_at_same m i (merge a.xs' a.ys') later e, no_xs, no_ys) refl
        | inr n ↦
            rw (set_at_other m i (merge a.xs' a.ys') later n)
              (tree.ended i lt (sym (set_at_other m i ended fifos.done n) ∙ d))
      ];
      small = small-after_read;
      closed = λ i lt d.
          let n : i ≢ m = λ e. omega (arith, e, low, lt) in
          let old : fifos.done i ≡ true = sym (set_at_other m i ended fifos.done n) ∙ d in
          let (right, left) = tree.closed i lt old in
          (
            set_at_other m (2 * i + 2) ended fifos.done
                  (λ e. done-undone (fifos.done m) (ap fifos.done (sym e) ∙ right) undone)
                ∙ right,
            set_at_other m (2 * i + 3) ended fifos.done
                  (λ e. done-undone (fifos.done m) (ap fifos.done (sym e) ∙ left) undone)
                ∙ left,
          );
    }
