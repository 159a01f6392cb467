-- ===== src/Merging/Kernels/First.antt =====
-- When the tuples of one child come first.
use mathlib.Core.List.{append_assoc}
use hashing_old_archive.Prelude.{ℕ, ◌≡◌, refl, [], ◌∷◌, ◌++◌, arith, inl, inr, ◌∙◌, ap, length, ◌⊎◌}
use hashing_old_archive.Merging.{Relation}
use hashing_old_archive.Merging.Reference.{merge, merge-nil}
use hashing_old_archive.Merging.Ring.{MergeNode}
use hashing_old_archive.Merging.Ring.Steps.{IsRing, tuples, length-tuples}
use hashing_old_archive.Merging.Copy.Moves.{Moves}
use hashing_old_archive.Merging.Kernels.Streams.{both, moved_length}

module _ {ℓ} {V : Type ℓ} where
  pub nil_of_length : (xs : Relation V) → length xs ≡ 0 → xs ≡ []
  nil_of_length [] e = refl
  nil_of_length (x ∷ xs) e = absurd (omega arith)

  module _ (f : ℕ) where
    pub tuples-nil : (node : MergeNode V) → IsRing f node → node.count ≡ 0 → tuples f node ≡ []
    tuples-nil node r e = nil_of_length (tuples f node) (length-tuples f node r ∙ e)

    -- The stream of a child that holds nothing and gets nothing.
    pub stream-nil :
        (node : MergeNode V) (after : Relation V)
        → IsRing f node
        → node.count ≡ 0
        → after ≡ []
        → tuples f node ++ after ≡ []
    stream-nil node after r e none_after = rw (tuples-nil node r e) none_after

    module _ (after_r after_l : Relation V) where
      -- No tuple is moved, or the other stream has ended.
      pub right_first :
          (n : ℕ) (node right left : MergeNode V)
          → IsRing f right
          → (m : Moves f n node right) → (n ≡ 0) ⊎ (tuples f left ++ after_l ≡ [])
          → both f after_r after_l right left ≡ m.moved ++ both f after_r after_l m.src' left
      right_first n node right left rr m (inl nothing) =
          let e =
            nil_of_length m.moved (moved_length f after_r after_l n node right rr m ∙ nothing) in
          let same : tuples f right ≡ tuples f m.src' = m.lost ∙ ap (λ l. l ++ tuples f m.src') e in
          rw (e, same) refl
      right_first n node right left rr m (inr ended) =
          rw (ended, merge-nil (tuples f right ++ after_r), merge-nil (tuples f m.src' ++ after_r))
            (ap (λ l. l ++ after_r) m.lost ∙ append_assoc m.moved (tuples f m.src') after_r)

      pub left_first :
          (n : ℕ) (node right left : MergeNode V)
          → IsRing f left
          → (m : Moves f n node left) → (n ≡ 0) ⊎ (tuples f right ++ after_r ≡ [])
          → both f after_r after_l right left ≡ m.moved ++ both f after_r after_l right m.src'
      unfolding merge
      left_first n node right left rl m (inl nothing) =
          let e =
            nil_of_length m.moved (moved_length f after_r after_l n node left rl m ∙ nothing) in
          let same : tuples f left ≡ tuples f m.src' = m.lost ∙ ap (λ l. l ++ tuples f m.src') e in
          rw (e, same) refl
      left_first n node right left rl m (inr ended) =
          rw ended (ap (λ l. l ++ after_l) m.lost ∙ append_assoc m.moved (tuples f m.src') after_l)
