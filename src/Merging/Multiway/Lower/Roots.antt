-- ===== src/Merging/Multiway/Lower/Roots.antt =====
-- What is written from the roots lowers the work.
use hashing_old_archive.Prelude.{
  ℕ, ◌+◌, ◌*◌, ◌<◌, ◌≡◌, refl, false, arith, inl, inr, sym, ◌∙◌, ap, length, ◌⊎◌, eq_cases,
  lt_cases,
}
use hashing_old_archive.Merging.{Relation}
use hashing_old_archive.Merging.Kernels.Streams.{Taken}
use hashing_old_archive.Merging.Kernels.Idle.{taken-count, IsIdle}
use hashing_old_archive.Merging.Multiway.{Fifos, set_at}
use hashing_old_archive.Merging.Multiway.State.{IsTree, set_at_other}
use hashing_old_archive.Merging.Multiway.Work.{
  sum, sum-set_at, work, shape, Shape, shape-eq, Lowers,
}
use hashing_old_archive.Merging.Multiway.Store.{after_store, store_right, store_left, store_other}

-- Why nothing is written.
abbrev pub RootsFound : Shape → Type 0
RootsFound t =
    ((t.counts 0 ≡ 0) × (t.counts 1 ≡ 0))
    ⊎ (((t.counts 0 ≡ 0) × (t.done 0 ≡ false)) ⊎ ((t.counts 1 ≡ 0) × (t.done 1 ≡ false)))

module _ {ℓ} {V : Type ℓ} (f nfifos : ℕ) where
  module _ (two : 1 < nfifos) (fifos : Fifos V) (later : ℕ → Relation V)
      (tree : IsTree f nfifos fifos later)
      (a : Taken f (later 0) (later 1) (fifos.nodes 0) (fifos.nodes 1)) where
    lost :
        a.right'.count + a.left'.count + length a.taken
        ≡ (fifos.nodes 0).count + (fifos.nodes 1).count
    lost =
        taken-count f (later 0) (later 1) (fifos.nodes 0) (fifos.nodes 1)
          (tree.ring 0 (omega arith)) (tree.ring 1 two) a

    after_store-work :
        0 < length a.taken
        → work nfifos (shape (after_store f nfifos two fifos later tree a))
          < work nfifos (shape fifos)
    unfolding work
    after_store-work taken =
        let right =
          sum-set_at (λ node i. node.count * (i + 1)) nfifos 0 a.right' fifos.nodes (omega arith) in
        let left =
          ap
            (λ node.
              sum nfifos (λ j. (set_at 1 a.left' (set_at 0 a.right' fifos.nodes) j).count * (j + 1))
              + node.count * (1 + 1))
            (sym (set_at_other 0 1 a.right' fifos.nodes (λ e. omega arith)))
          ∙ sum-set_at (λ node i. node.count * (i + 1)) nfifos 1 a.left'
              (set_at 0 a.right' fifos.nodes) two in
        omega (arith, right, left, lost, a.right_less, a.left_less)

    after_store-shape :
        length a.taken ≡ 0 → shape (after_store f nfifos two fifos later tree a) ≡ shape fifos
    after_store-shape nothing =
        shape-eq (shape (after_store f nfifos two fifos later tree a)) (shape fifos)
          (λ i. elim (eq_cases i 0) [
            | inl e ↦
                ap (λ k. ((after_store f nfifos two fifos later tree a).nodes k).count) e
                ∙ ap (λ node. node.count) (store_right f nfifos two fifos later tree a)
                ∙ omega (arith, lost, nothing, a.right_less, a.left_less)
                ∙ ap (λ k. (fifos.nodes k).count) (sym e)
            | inr n ↦ elim (eq_cases i 1) [
              | inl e ↦
                  ap (λ k. ((after_store f nfifos two fifos later tree a).nodes k).count) e
                  ∙ ap (λ node. node.count) (store_left f nfifos two fifos later tree a)
                  ∙ omega (arith, lost, nothing, a.right_less, a.left_less)
                  ∙ ap (λ k. (fifos.nodes k).count) (sym e)
              | inr n' ↦
                  ap (λ node. node.count)
                    (store_other f nfifos two fifos later tree a i (omega arith))
            ]
          ])
          (λ i. refl) (λ i. refl)

    pub after_store-Lowers :
        (0 < length a.taken) ⊎ IsIdle (fifos.done 0) (fifos.done 1) (fifos.nodes 0) (fifos.nodes 1)
        → Lowers nfifos RootsFound
            (shape fifos)
            (shape (after_store f nfifos two fifos later tree a))
    after_store-Lowers (inl taken) = inl (after_store-work taken)
    after_store-Lowers (inr idle) = elim (lt_cases 0 (length a.taken)) [
      | inl taken ↦ inl (after_store-work taken)
      | inr nothing ↦ inr (after_store-shape (omega arith), idle)
    ]
