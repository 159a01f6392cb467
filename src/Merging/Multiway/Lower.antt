-- ===== src/Merging/Multiway/Lower.antt =====
-- Each step that changes the shape of the state lowers the work.
pub mod Inner
pub mod Roots
use native.Mathlib.Nat.{mul-le-mul_left}
use hashing_old_archive.Prelude.{
  ℕ, ◌+◌, ◌-◌, ◌*◌, ◌/◌, ◌<◌, ◌≤◌, ◌≡◌, ◌≢◌, refl, Bool, true, false, [], ◌++◌, ◌==◌, ◌&&◌, ◌||◌,
  arith, inl, inr, sym, ◌∙◌, ap, length, length-append, ◌⊎◌, eq_cases, Bool-cases,
}
use hashing_old_archive.Merging.{Relation}
use hashing_old_archive.Merging.Reference.{merge, length-merge}
use hashing_old_archive.Merging.Ring.{MergeNode}
use hashing_old_archive.Merging.Kernels.Read.{Fed}
use hashing_old_archive.Merging.Kernels.Streams.{Merged, Taken}
use hashing_old_archive.Merging.Kernels.Idle.{taken-count}
use hashing_old_archive.Merging.Multiway.{Fifos, set_at}
use hashing_old_archive.Merging.Multiway.State.{IsTree, set_at_same, set_at_other}
use hashing_old_archive.Merging.Multiway.Work.{sum, sum-set_at, work, shape, undone}
use hashing_old_archive.Merging.Multiway.Leaf.{after_read}
use hashing_old_archive.Merging.Multiway.Inner.{after_merge}

-- `t` tuples that weigh `big` become tuples that weigh less.
leaf_arith :
    (s0 s1 s2 c0 c1 u0 u1 x y x' y' t k m n e : ℕ)
    → m < n
    → s1 + x * (n + 1) ≡ s0 + x' * (n + 1)
    → s2 + y * (n + 1) ≡ s1 + y' * (n + 1)
    → c1 + k * (m + 1) ≡ c0 + (k + t) * (m + 1)
    → u1 + 1 ≡ u0 + e
    → x + y ≡ t + (x' + y')
    → e ≤ 1
    → (0 < t) ⊎ (e ≡ 0)
    → s2 + c1 + u1 < s0 + c0 + u0
leaf_arith s0 s1 s2 c0 c1 u0 u1 x y x' y' t k m n e lt h1 h2 h3 h4 h5 h6 h7 =
    let big : t * (m + 1) ≤ t * n = mul-le-mul_left t (omega arith) in
    let whole : (x + y) * (n + 1) ≡ (t + (x' + y')) * (n + 1) = ap (λ z. z * (n + 1)) h5 in
    elim h7 [
      | inl some_taken ↦ omega (arith, big, whole)
      | inr none_left ↦ omega (arith, big, whole)
    ]

pub inner_arith :
    (c0 c1 c2 c3 u0 u1 k r l r' l' t m e : ℕ)
    → c1 + k * (m + 1) ≡ c0 + (k + t) * (m + 1)
    → c2 + r * (2 * m + 2 + 1) ≡ c1 + r' * (2 * m + 2 + 1)
    → c3 + l * (2 * m + 3 + 1) ≡ c2 + l' * (2 * m + 3 + 1)
    → u1 + 1 ≡ u0 + e
    → r' + l' + t ≡ r + l
    → r' ≤ r
    → l' ≤ l
    → e ≤ 1
    → (0 < t) ⊎ (e ≡ 0)
    → c3 + u1 < c0 + u0
inner_arith c0 c1 c2 c3 u0 u1 k r l r' l' t m e h1 h2 h3 h4 h5 less_r less_l h6 h7 =
    let right : r * (2 * m + 2 + 1) ≡ (r' + (r - r')) * (2 * m + 2 + 1) =
      ap (λ z. z * (2 * m + 2 + 1)) (omega arith) in
    let left : l * (2 * m + 3 + 1) ≡ (l' + (l - l')) * (2 * m + 3 + 1) =
      ap (λ z. z * (2 * m + 3 + 1)) (omega arith) in
    let whole : t * (m + 1) ≡ (r - r' + (l - l')) * (m + 1) = ap (λ z. z * (m + 1)) (omega arith) in
    elim h7 [
      | inl some_taken ↦ omega (arith, right, left, whole)
      | inr none_left ↦ omega (arith, right, left, whole)
    ]

pub undone-le : (flag : Bool) → undone flag ≤ 1
undone-le true = omega arith
undone-le false = omega arith

module _ {ℓ} {V : Type ℓ} (f nfifos : ℕ) where
  pub after_read-work :
      (c m : ℕ) (fifos : Fifos V) (a : Fed f (fifos.nodes m) (fifos.parts c) (fifos.parts (c + 1)))
      (ended : Bool)
      → m < nfifos
      → c + 1 < nfifos + 2
      → fifos.done m ≡ false
      → (0 < length a.taken) ⊎ (ended ≡ true)
      → work nfifos (shape (after_read f nfifos c m ended a fifos)) < work nfifos (shape fifos)
  unfolding work
  after_read-work c m fifos a ended inside in_parts not_done moves =
      leaf_arith _ _ _ _ _ _ _ (length (fifos.parts c)) (length (fifos.parts (c + 1)))
        (length a.xs') (length a.ys') (length a.taken) (fifos.nodes m).count m nfifos (undone ended)
        inside
        (sum-set_at (λ l i. length l * (nfifos + 1)) (nfifos + 2) c a.xs' fifos.parts (omega arith))
        (ap
            (λ l.
              sum (nfifos + 2)
                (λ j. length (set_at (c + 1) a.ys' (set_at c a.xs' fifos.parts) j) * (nfifos + 1))
              + length l * (nfifos + 1))
            (sym (set_at_other c (c + 1) a.xs' fifos.parts (λ e. omega arith)))
          ∙ sum-set_at (λ l i. length l * (nfifos + 1)) (nfifos + 2) (c + 1) a.ys'
              (set_at c a.xs' fifos.parts) in_parts)
        (sum-set_at (λ node i. node.count * (i + 1)) nfifos m a.node' fifos.nodes inside
          ∙ ap (λ k. sum nfifos (λ j. (fifos.nodes j).count * (j + 1)) + k * (m + 1)) a.count)
        (ap (λ b. sum nfifos (λ j. undone (set_at m ended fifos.done j)) + undone b) (sym not_done)
          ∙ sum-set_at (λ b i. undone b) nfifos m ended fifos.done inside)
        (omega (
          arith,
          ap length a.stream,
          length-append a.taken (merge a.xs' a.ys'),
          length-merge (fifos.parts c) (fifos.parts (c + 1)),
          length-merge a.xs' a.ys',
        ))
        (undone-le ended) (elim moves [ inl taken ↦ inl taken | inr e ↦ inr (ap undone e) ])
