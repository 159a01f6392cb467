-- ===== src/Merging/Multiway/Store.antt =====
-- What is written from the two roots.
use hashing_old_archive.Prelude.{
  ℕ, ◌+◌, ◌*◌, ◌<◌, ◌≤◌, ◌≡◌, refl, true, [], ◌++◌, arith, inl, inr, ◌∙◌, eq_cases,
}
use hashing_old_archive.Merging.{Relation}
use hashing_old_archive.Merging.Reference.{merge}
use hashing_old_archive.Merging.Ring.Steps.{tuples}
use hashing_old_archive.Merging.Kernels.First.{stream-nil}
use hashing_old_archive.Merging.Kernels.Streams.{Taken}
use hashing_old_archive.Merging.Multiway.{Fifos, set_at}
use hashing_old_archive.Merging.Multiway.State.{IsTree, stream, set_at_same, set_at_other}

module _ {ℓ} {V : Type ℓ} (f nfifos : ℕ) where
  -- The merge of the streams of the two roots.
  abbrev pub remaining : Fifos V → (ℕ → Relation V) → Relation V
  remaining fifos later = merge (stream f fifos later 0) (stream f fifos later 1)

  module _ (two : 1 < nfifos) (fifos : Fifos V) (later : ℕ → Relation V)
      (tree : IsTree f nfifos fifos later)
      (a : Taken f (later 0) (later 1) (fifos.nodes 0) (fifos.nodes 1)) where
    abbrev pub after_store : Fifos V
    after_store = record fifos { nodes = set_at 1 a.left' (set_at 0 a.right' fifos.nodes) }

    pub store_right : after_store.nodes 0 ≡ a.right'
    store_right =
        set_at_other 1 0 a.left' _ (λ q. omega arith) ∙ set_at_same 0 0 a.right' fifos.nodes refl

    pub store_left : after_store.nodes 1 ≡ a.left'
    store_left = set_at_same 1 1 a.left' _ refl

    pub store_other : (i : ℕ) → 2 ≤ i → after_store.nodes i ≡ fifos.nodes i
    store_other i le =
        set_at_other 1 i a.left' _ (λ q. omega arith)
        ∙ set_at_other 0 i a.right' fifos.nodes (λ q. omega arith)

    pub after_store-IsTree : IsTree f nfifos after_store later
    after_store-IsTree = record {
      ring = λ i lt. elim (eq_cases i 0) [
        | inl e ↦ rw (e, store_right) a.right_ring
        | inr n ↦ elim (eq_cases i 1) [
          | inl e ↦ rw (e, store_left) a.left_ring
          | inr n' ↦ rw (store_other i (omega arith)) (tree.ring i lt)
        ]
      ];
      inner = λ i lt.
          rw (store_other (2 * i + 2) (omega arith), store_other (2 * i + 3) (omega arith))
            (tree.inner i lt);
      leaf = tree.leaf;
      ended = tree.ended;
      closed = tree.closed;
      small = tree.small;
    }

    pub after_store-remaining :
        remaining after_store later
        ≡ merge (tuples f a.right' ++ later 0) (tuples f a.left' ++ later 1)
    after_store-remaining = rw (store_right, store_left) refl

    pub after_store-nil :
        fifos.done 0 ≡ true
        → fifos.done 1 ≡ true
        → (a.right'.count ≡ 0) × (a.left'.count ≡ 0)
        → remaining after_store later ≡ []
    unfolding merge
    after_store-nil d d' (none_r, none_l) =
        after_store-remaining
        ∙ rw
            (
              stream-nil f a.right' (later 0) a.right_ring none_r (tree.ended 0 (omega arith) d),
              stream-nil f a.left' (later 1) a.left_ring none_l (tree.ended 1 two d'),
            )
            refl
