-- ===== src/Merging/Reference.antt =====
-- The merge of two runs that the code is compared with: the smaller head first, and of two equal
-- heads the one of the second run.
use mathlib.Core.List.{Perm, perm_middle, append-nil}
use mathlib.Core.List.Perm
use hashing_old_archive.Prelude.{
  ℕ, ◌≤◌, ◌≡◌, refl, true, false, [], ◌∷◌, ◌++◌, ltb, arith, All, Bool-cases, inl, inr, length, ◌+◌,
}
use hashing_old_archive.Merging.{Tuple, Relation}

module _ {ℓ} {V : Type ℓ} where
  unfoldable pub merge : Relation V → Relation V → Relation V
  merge [] ys = ys
  merge (a ∷ xs) [] = a ∷ xs
  merge (a ∷ xs) (b ∷ ys) = elim (ltb a.key b.key) [
    | true ↦ a ∷ merge xs (b ∷ ys)
    | false ↦ b ∷ merge (a ∷ xs) ys
  ]

  abbrev pub IsSorted : Relation V → Type 0
  IsSorted [] = Unit
  IsSorted (a ∷ xs) = All (λ b. a.key ≤ b.key) xs × IsSorted xs

  pub merge-nil : (xs : Relation V) → merge xs [] ≡ xs
  unfolding merge
  merge-nil [] = refl
  merge-nil (a ∷ xs) = refl

  pub merge-less :
      (a b : Tuple V) (xs ys : Relation V)
      → ltb a.key b.key ≡ true
      → merge (a ∷ xs) (b ∷ ys) ≡ a ∷ merge xs (b ∷ ys)
  unfolding merge
  merge-less a b xs ys e = rw (merge, e, merge) refl

  pub merge-not-less :
      (a b : Tuple V) (xs ys : Relation V)
      → ltb a.key b.key ≡ false
      → merge (a ∷ xs) (b ∷ ys) ≡ b ∷ merge (a ∷ xs) ys
  unfolding merge
  merge-not-less a b xs ys e = rw (merge, e, merge) refl

  pub All-merge {κ} :
      (P : Tuple V → Type κ) (xs ys : Relation V) → All P xs → All P ys → All P (merge xs ys)
  unfolding merge
  All-merge P [] ys pa pb = pb
  All-merge P (a ∷ xs) [] pa pb = pa
  All-merge P (a ∷ xs) (b ∷ ys) pa pb = elim (Bool-cases (ltb a.key b.key)) [
    | inl e ↦ rw (merge-less a b xs ys e) (pa.0, All-merge P xs (b ∷ ys) pa.1 pb)
    | inr e ↦ rw (merge-not-less a b xs ys e) (pb.0, All-merge P (a ∷ xs) ys pa pb.1)
  ]

  All-weaken :
      (m n : ℕ) (xs : Relation V) → m ≤ n → All (λ a. n ≤ a.key) xs → All (λ a. m ≤ a.key) xs
  All-weaken m n [] le h = tt
  All-weaken m n (a ∷ xs) le h = (omega (arith, h.0), All-weaken m n xs le h.1)

  pub merge-IsSorted : (xs ys : Relation V) → IsSorted xs → IsSorted ys → IsSorted (merge xs ys)
  unfolding merge
  merge-IsSorted [] ys sa sb = sb
  merge-IsSorted (a ∷ xs) [] sa sb = sa
  merge-IsSorted (a ∷ xs) (b ∷ ys) sa sb = elim (Bool-cases (ltb a.key b.key)) [
    | inl e ↦
        let le : a.key ≤ b.key = ground arith in
        rw (merge-less a b xs ys e) (
          All-merge _ xs (b ∷ ys) sa.0 (le, All-weaken a.key b.key ys le sb.0),
          merge-IsSorted xs (b ∷ ys) sa.1 sb,
        )
    | inr e ↦
        let le : b.key ≤ a.key = ground arith in
        rw (merge-not-less a b xs ys e) (
          All-merge _ (a ∷ xs) ys (le, All-weaken b.key a.key xs le sa.0) sb.0,
          merge-IsSorted (a ∷ xs) ys sa sb.1,
        )
  ]

  pub merge-perm : (xs ys : Relation V) → Perm (merge xs ys) (xs ++ ys)
  unfolding merge
  merge-perm [] ys = Perm.refl ys
  merge-perm (a ∷ xs) [] = rw (append-nil (a ∷ xs)) (Perm.refl (a ∷ xs))
  merge-perm (a ∷ xs) (b ∷ ys) = elim (Bool-cases (ltb a.key b.key)) [
    | inl e ↦ rw (merge-less a b xs ys e) (Perm.cons a (merge-perm xs (b ∷ ys)))
    | inr e ↦
        let moved = Perm.symm (perm_middle {a = b} (a ∷ xs) ys) in
        rw (merge-not-less a b xs ys e) (Perm.trans (Perm.cons b (merge-perm (a ∷ xs) ys)) moved)
  ]

  pub length-merge : (xs ys : Relation V) → length (merge xs ys) ≡ length xs + length ys
  unfolding merge
  length-merge [] ys = omega arith
  length-merge (a ∷ xs) [] = omega arith
  length-merge (a ∷ xs) (b ∷ ys) = elim (Bool-cases (ltb a.key b.key)) [
    | inl e ↦ rw (merge-less a b xs ys e) (omega (arith, length-merge xs (b ∷ ys)))
    | inr e ↦ rw (merge-not-less a b xs ys e) (omega (arith, length-merge (a ∷ xs) ys))
  ]
