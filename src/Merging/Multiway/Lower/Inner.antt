-- ===== src/Merging/Multiway/Lower/Inner.antt =====
-- A merge at an inner node or at the roots lowers the work or leaves the shape.
use hashing_old_archive.Prelude.{
  ℕ, ◌+◌, ◌*◌, ◌<◌, ◌≡◌, refl, Bool, true, false, arith, inl, inr, sym, ◌∙◌, ap, length, ◌⊎◌,
  eq_cases,
}
use hashing_old_archive.Merging.{Relation}
use hashing_old_archive.Merging.Kernels.Streams.{Merged}
use hashing_old_archive.Merging.Kernels.Idle.{taken-count}
use hashing_old_archive.Merging.Multiway.{Fifos, set_at}
use hashing_old_archive.Merging.Multiway.State.{IsTree, set_at_same, set_at_other}
use hashing_old_archive.Merging.Multiway.Work.{sum, sum-set_at, work, shape, shape-eq, undone}
use hashing_old_archive.Merging.Multiway.Inner.{
  after_merge, nodes_after_node, nodes_after_right, nodes_after_left, nodes_after_other,
}
use hashing_old_archive.Merging.Multiway.Lower.{inner_arith, undone-le}

module _ {ℓ} {V : Type ℓ} (f nfifos m : ℕ) (is_inner : 2 * m + 3 < nfifos) (fifos : Fifos V)
    (later : ℕ → Relation V) (tree : IsTree f nfifos fifos later)
    (a : Merged f
      (later (2 * m + 2))
      (later (2 * m + 3))
      (fifos.nodes m)
      (fifos.nodes (2 * m + 2))
      (fifos.nodes (2 * m + 3)))
    (ended : Bool) (not_done : fifos.done m ≡ false) where
  lost :
      a.children.right'.count + a.children.left'.count + length a.children.taken
      ≡ (fifos.nodes (2 * m + 2)).count + (fifos.nodes (2 * m + 3)).count
  lost =
      taken-count f (later (2 * m + 2)) (later (2 * m + 3)) (fifos.nodes (2 * m + 2))
        (fifos.nodes (2 * m + 3)) (tree.ring (2 * m + 2) (omega arith))
        (tree.ring (2 * m + 3) is_inner) a.children

  pub after_merge-work :
      (0 < length a.children.taken) ⊎ (ended ≡ true)
      → work nfifos (shape (after_merge f nfifos m is_inner fifos later tree a ended))
        < work nfifos (shape fifos)
  unfolding work
  after_merge-work moves =
      let one = set_at m a.node' fifos.nodes in
      let two = set_at (2 * m + 2) a.children.right' one in
      let less =
        inner_arith _ _ _ _ _ _ (fifos.nodes m).count (fifos.nodes (2 * m + 2)).count
          (fifos.nodes (2 * m + 3)).count a.children.right'.count a.children.left'.count
          (length a.children.taken) m (undone ended)
          (sum-set_at (λ node i. node.count * (i + 1)) nfifos m a.node' fifos.nodes (omega arith)
            ∙ ap (λ k. sum nfifos (λ j. (fifos.nodes j).count * (j + 1)) + k * (m + 1)) a.count)
          (ap
              (λ node.
                sum nfifos (λ j.
                  (set_at (2 * m + 2) a.children.right' (set_at m a.node' fifos.nodes) j).count
                  * (j + 1))
                + node.count * (2 * m + 2 + 1))
              (sym (set_at_other m (2 * m + 2) a.node' fifos.nodes (λ e. omega arith)))
            ∙ sum-set_at (λ node i. node.count * (i + 1)) nfifos (2 * m + 2) a.children.right'
                (set_at m a.node' fifos.nodes) (omega arith))
          (ap
              (λ node.
                sum nfifos (λ j.
                  (set_at (2 * m + 3) a.children.left'
                    (set_at (2 * m + 2) a.children.right' (set_at m a.node' fifos.nodes)) j).count
                  * (j + 1))
                + node.count * (2 * m + 3 + 1))
              (sym (
                set_at_other (2 * m + 2) (2 * m + 3) a.children.right'
                  (set_at m a.node' fifos.nodes) (λ e. omega arith)
                ∙ set_at_other m (2 * m + 3) a.node' fifos.nodes (λ e. omega arith)))
            ∙ sum-set_at (λ node i. node.count * (i + 1)) nfifos (2 * m + 3) a.children.left'
                (set_at (2 * m + 2) a.children.right' (set_at m a.node' fifos.nodes)) is_inner)
          (ap (λ b. sum nfifos (λ j. undone (set_at m ended fifos.done j)) + undone b)
              (sym not_done)
            ∙ sum-set_at (λ b i. undone b) nfifos m ended fifos.done (omega arith))
          lost a.children.right_less a.children.left_less (undone-le ended)
          (elim moves [ inl taken ↦ inl taken | inr e ↦ inr (ap undone e) ]) in
      omega (arith, less)

  pub after_merge-shape :
      length a.children.taken ≡ 0
      → ended ≡ false
      → shape (after_merge f nfifos m is_inner fifos later tree a ended) ≡ shape fifos
  after_merge-shape nothing unfinished =
      shape-eq (shape (after_merge f nfifos m is_inner fifos later tree a ended)) (shape fifos)
        (λ i. elim (eq_cases i m) [
          | inl e ↦
              ap (λ node. node.count)
                (nodes_after_node f nfifos m is_inner fifos.nodes a.node' a.children.right'
                  a.children.left' i e)
              ∙ omega (arith, a.count, nothing)
              ∙ ap (λ k. (fifos.nodes k).count) (sym e)
          | inr n ↦ elim (eq_cases i (2 * m + 2)) [
            | inl e ↦
                ap (λ node. node.count)
                  (nodes_after_right f nfifos m is_inner fifos.nodes a.node' a.children.right'
                    a.children.left' i e)
                ∙ omega (arith, lost, nothing, a.children.right_less, a.children.left_less)
                ∙ ap (λ k. (fifos.nodes k).count) (sym e)
            | inr n' ↦ elim (eq_cases i (2 * m + 3)) [
              | inl e ↦
                  ap (λ node. node.count)
                    (nodes_after_left f nfifos m is_inner fifos.nodes a.node' a.children.right'
                      a.children.left' i e)
                  ∙ omega (arith, lost, nothing, a.children.right_less, a.children.left_less)
                  ∙ ap (λ k. (fifos.nodes k).count) (sym e)
              | inr n'' ↦
                  ap (λ node. node.count)
                    (nodes_after_other f nfifos m is_inner fifos.nodes a.node' a.children.right'
                      a.children.left' i n n' n'')
            ]
          ]
        ])
        (λ i. elim (eq_cases i m) [
          | inl e ↦
              set_at_same m i ended fifos.done e ∙ unfinished ∙ sym not_done ∙ ap fifos.done (sym e)
          | inr n ↦ set_at_other m i ended fifos.done n
        ])
        (λ i. refl)
