-- ===== src/Merging/Scalar.antt =====
-- `scalar_merge_tuples` and `scalar_merge_int64` of merge.h.
use mathlib.Core.List.{Perm}
use hashing_old_archive.Prelude.{
  refl, ◌++◌, ℕ, suc, ◌+◌, ◌≡◌, Bool, true, false, List, [], ◌∷◌, ltb, length, arith, Bool-cases,
  inl, inr, ap,
}
use hashing_old_archive.Merging.{Relation}
use hashing_old_archive.Merging.Reference.{
  IsSorted, merge-IsSorted, merge-perm, merge, merge-less, merge-not-less, length-merge,
}

-- What is written from `outp[k]` on, and the last `k`. An input is the part of its array from the
-- index on.
module _ {ℓ} {A : Type ℓ} where
  -- One of the two loops over what one input still has.
  unfoldable pub copy_rest : List A → ℕ → List A × ℕ
  copy_rest [] k = ([], k)
  copy_rest (a ∷ xs) k = let (out, k') = copy_rest xs (k + 1) in (a ∷ out, k')

  module _ (less : A → A → Bool) where
    unfoldable pub scalar_merge_from : List A → List A → ℕ → List A × ℕ
    scalar_merge_from [] ys k = copy_rest ys k
    scalar_merge_from (a ∷ xs) [] k = copy_rest (a ∷ xs) k
    scalar_merge_from (a ∷ xs) (b ∷ ys) k = elim (less a b) [
      | true ↦ (let (out, k') = scalar_merge_from xs (b ∷ ys) (k + 1) in (a ∷ out, k'))
      | false ↦ (let (out, k') = scalar_merge_from (a ∷ xs) ys (k + 1) in (b ∷ out, k'))
    ]

-- A signed 64-bit number xs its distance from the smallest one, which keeps the order.
unfoldable pub scalar_merge_int64 : List ℕ → List ℕ → List ℕ × ℕ
scalar_merge_int64 xs ys = scalar_merge_from ltb xs ys 0

module _ {ℓ} {V : Type ℓ} where
  unfoldable pub scalar_merge_tuples : Relation V → Relation V → Relation V × ℕ
  scalar_merge_tuples xs ys = scalar_merge_from (λ a b. ltb a.key b.key) xs ys 0

  copy_rest_lem : (xs : Relation V) (k : ℕ) → copy_rest xs k ≡ (xs, k + length xs)
  unfolding copy_rest
  copy_rest_lem [] k = ap (λ n. ([], n)) (let e : k ≡ k + 0 = omega arith in e)
  copy_rest_lem (a ∷ xs) k =
      rw (copy_rest_lem xs (k + 1))
        (ap (λ n. (a ∷ xs, n)) (let e : k + 1 + length xs ≡ k + suc (length xs) = omega arith in e))

  scalar_merge_from-merge :
      (xs ys : Relation V) (k : ℕ)
      → scalar_merge_from (λ a b. ltb a.key b.key) xs ys k ≡ (merge xs ys, k + length (merge xs ys))
  unfolding scalar_merge_from merge
  scalar_merge_from-merge [] ys k = copy_rest_lem ys k
  scalar_merge_from-merge (a ∷ xs) [] k = copy_rest_lem (a ∷ xs) k
  scalar_merge_from-merge (a ∷ xs) (b ∷ ys) k = elim (Bool-cases (ltb a.key b.key)) [
    | inl e ↦
        rw
          (
            scalar_merge_from,
            e,
            scalar_merge_from,
            merge-less a b xs ys e,
            scalar_merge_from-merge xs (b ∷ ys) (k + 1),
          )
          (ap (λ n. (a ∷ merge xs (b ∷ ys), n))
            (let q : k + 1 + length (merge xs (b ∷ ys)) ≡ k + suc (length (merge xs (b ∷ ys))) =
                omega arith in
              q))
    | inr e ↦
        rw
          (
            scalar_merge_from,
            e,
            scalar_merge_from,
            merge-not-less a b xs ys e,
            scalar_merge_from-merge (a ∷ xs) ys (k + 1),
          )
          (ap (λ n. (b ∷ merge (a ∷ xs) ys, n))
            (let q : k + 1 + length (merge (a ∷ xs) ys) ≡ k + suc (length (merge (a ∷ xs) ys)) =
                omega arith in
              q))
  ]

  pub scalar_merge_tuples-merge :
      (xs ys : Relation V) → scalar_merge_tuples xs ys ≡ (merge xs ys, length xs + length ys)
  unfolding scalar_merge_tuples
  scalar_merge_tuples-merge xs ys =
      rw (scalar_merge_from-merge xs ys 0)
        (ap (λ n. (merge xs ys, n)) (omega (arith, length-merge xs ys)))

  -- From two sorted runs `scalar_merge_tuples` writes a sorted run with the same tuples, and returns how many
  -- there are.
  pub scalar_merge_tuples-IsSorted :
      (xs ys : Relation V)
      → IsSorted xs
      → IsSorted ys
      → IsSorted (scalar_merge_tuples xs ys).0
        × Perm (scalar_merge_tuples xs ys).0 (xs ++ ys)
        × ((scalar_merge_tuples xs ys).1 ≡ length xs + length ys)
  scalar_merge_tuples-IsSorted xs ys sorted_xs sorted_ys =
      rw (scalar_merge_tuples-merge xs ys)
        (merge-IsSorted xs ys sorted_xs sorted_ys, merge-perm xs ys, refl)
