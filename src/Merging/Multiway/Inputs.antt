-- ===== src/Merging/Multiway/Inputs.antt =====
-- The inputs below the nodes are all the inputs.
use mathlib.Core.List.{Perm, append_assoc, append-nil, perm_middle}
use mathlib.Core.Path.{subst}
use mathlib.Core.List.Perm
use hashing_old_archive.Prelude.{
  ℕ, zero, suc, ◌+◌, ◌-◌, ◌*◌, ◌<◌, ◌≤◌, ◌≡◌, [], ◌∷◌, ◌++◌, arith, sym, ◌∙◌, ap,
}
use hashing_old_archive.Merging.{Relation}
use hashing_old_archive.Merging.Reference.{merge, merge-perm}
use hashing_old_archive.Merging.Multiway.Start.{
  expected, expected-leaf, expected-inner, expected-stable,
}

module _ {ℓ} {V : Type ℓ} where
  -- The first inputs, one after the other.
  abbrev pub gather : ℕ → (ℕ → Relation V) → Relation V
  gather zero parts = []
  gather (suc n) parts = gather n parts ++ parts n

  -- `n` runs from an index on.
  abbrev span : ℕ → ℕ → (ℕ → Relation V) → Relation V
  span i zero g = []
  span i (suc n) g = g i ++ span (suc i) n g

  span-suc : (i n : ℕ) (g : ℕ → Relation V) → span i (suc n) g ≡ span i n g ++ g (i + n)
  span-suc i zero g = let e : i ≡ i + 0 = omega arith in rw (append-nil (g i)) (ap g e)
  span-suc i (suc n) g =
      let e : suc i + n ≡ i + suc n = omega arith in
      ap (λ l. g i ++ l) (span-suc (suc i) n g ∙ ap (λ k. span (suc i) n g ++ g k) e)
      ∙ sym (append_assoc (g i) (span (suc i) n g) (g (i + suc n)))

  perm-eq : {xs ys : Relation V} → xs ≡ ys → Perm xs ys
  perm-eq {xs} e = subst (Perm xs) e (Perm.refl xs)

  perm_comm : (xs ys : Relation V) → Perm (xs ++ ys) (ys ++ xs)
  perm_comm [] ys = perm-eq (sym (append-nil ys))
  perm_comm (x ∷ xs) ys =
      Perm.trans (Perm.cons x (perm_comm xs ys)) (Perm.symm (perm_middle {a = x} ys xs))

  module _ (nfifos h : ℕ) (even : nfifos ≡ 2 * h) (parts : ℕ → Relation V) where
    abbrev below : ℕ → Relation V
    below i = expected nfifos parts nfifos i

    below-merge :
        (i : ℕ) → 2 * i + 3 < nfifos → below i ≡ merge (below (2 * i + 2)) (below (2 * i + 3))
    below-merge i lt =
        expected-stable nfifos parts h even nfifos (suc nfifos) i (omega arith) (omega arith)
          (omega arith)
        ∙ expected-inner nfifos parts nfifos i lt

    -- A node makes way for its children.
    descend :
        (i : ℕ)
        → 2 * i + 3 < nfifos
        → Perm (span i (suc (suc i)) below) (span (suc i) (suc (suc (suc i))) below)
    descend i lt =
        let rest = span (suc i) (suc i) below in
        let right = below (2 * i + 2) in
        let left = below (2 * i + 3) in
        let e : 2 * i + 2 ≡ suc i + suc i = omega arith in
        let e' : 2 * i + 3 ≡ suc i + suc (suc i) = omega arith in
        Perm.trans
          (Perm.append_right (span (suc i) (suc i) below) (
            Perm.trans (perm-eq (below-merge i lt))
              (merge-perm (below (2 * i + 2)) (below (2 * i + 3)))))
          (Perm.trans
            (perm_comm (below (2 * i + 2) ++ below (2 * i + 3)) (span (suc i) (suc i) below))
            (perm-eq (
              sym
                (append_assoc (span (suc i) (suc i) below) (below (2 * i + 2)) (below (2 * i + 3)))
              ∙ ap (λ k. (span (suc i) (suc i) below ++ below k) ++ below (2 * i + 3)) e
              ∙ ap (λ k. (span (suc i) (suc i) below ++ below (suc i + suc i)) ++ below k) e'
              ∙ ap (λ l. l ++ below (suc i + suc (suc i))) (sym (span-suc (suc i) (suc i) below))
              ∙ sym (span-suc (suc i) (suc (suc i)) below))))

    below-parts :
        (i n : ℕ)
        → i + suc n ≡ nfifos
        → n ≤ h
        → below i ≡ merge (parts (2 * n)) (parts (suc (2 * n)))
    below-parts i n e le =
        let last : nfifos - 1 - i ≡ n = omega arith in
        expected-stable nfifos parts h even nfifos (suc nfifos) i (omega arith) (omega arith)
          (omega arith)
        ∙ expected-leaf nfifos parts nfifos i (omega arith)
        ∙ ap (λ k. merge (parts (2 * k)) (parts (2 * k + 1))) last
        ∙ (let one : 2 * n + 1 ≡ suc (2 * n) = omega arith in
            ap (λ k. merge (parts (2 * n)) (parts k)) one)

    -- The leaves from an index on have the inputs before another.
    leaves-gather :
        (n i : ℕ) → i + n ≡ nfifos → n ≤ h + 1 → Perm (span i n below) (gather (2 * n) parts)
    leaves-gather zero i e le = Perm.refl []
    leaves-gather (suc n) i e le =
        let two : suc (suc (2 * n)) ≡ 2 * suc n = omega arith in
        Perm.trans
          (Perm.append
            (Perm.trans (perm-eq (below-parts i n e (omega arith)))
              (merge-perm (parts (2 * n)) (parts (suc (2 * n)))))
            (leaves-gather n (suc i) (omega arith) (omega arith)))
          (Perm.trans (perm_comm (parts (2 * n) ++ parts (suc (2 * n))) (gather (2 * n) parts)) (
            perm-eq (
              sym (append_assoc (gather (2 * n) parts) (parts (2 * n)) (parts (suc (2 * n))))
              ∙ ap (λ k. gather k parts) two)))

    descend-all : (i : ℕ) → i < h → Perm (span 0 2 below) (span i (suc (suc i)) below)
    descend-all zero lt = Perm.refl (span 0 2 below)
    descend-all (suc i) lt = Perm.trans (descend-all i (omega arith)) (descend i (omega arith))

    -- What the two roots merge to is a permutation of all the inputs.
    pub merge-gather : 0 < h → Perm (merge (below 0) (below 1)) (gather (nfifos + 2) parts)
    merge-gather some_leaf =
        let last : suc (suc (h - 1)) ≡ h + 1 = omega arith in
        let whole : 2 * (h + 1) ≡ nfifos + 2 = omega arith in
        Perm.trans (merge-perm (below 0) (below 1)) (
          Perm.trans (perm-eq (ap (λ l. below 0 ++ l) (sym (append-nil (below 1))))) (
            Perm.trans (descend-all (h - 1) (omega arith)) (
              Perm.trans (perm-eq (ap (λ k. span (h - 1) k below) last)) (
                Perm.trans (leaves-gather (h + 1) (h - 1) (omega arith) (omega arith))
                  (perm-eq (ap (λ k. gather k parts) whole))))))
