-- ===== src/RadixSpline/Builder/Table.antt =====
-- The radix table after each new point of the spline.
use hashing_old_archive.Prelude.{
  ℕ, zero, suc, ◌+◌, ◌<◌, ◌≤◌, ◌≡◌, ◌≢◌, refl, List, [], ◌∷◌, some, length, get_elem?, set, arith,
  inl, inr, ◌∙◌, sym, ap, eq_cases, length-set,
}
use hashing_old_archive.RadixSpline.Search.{get-some}
use hashing_old_archive.RadixSpline.Builder.{fill}

get_elem?-set_self {ℓ} :
    {A : Type ℓ} (l : List A) (i : ℕ) (a : A) → i < length l → get_elem? (set l i a) i ≡ some a
get_elem?-set_self [] i a h = absurd (omega arith)
get_elem?-set_self (b ∷ l) zero a h = refl
get_elem?-set_self (b ∷ l) (suc i) a h = get_elem?-set_self l i a (omega arith)

get_elem?-set_ne {ℓ} :
    {A : Type ℓ} (l : List A) (i j : ℕ) (a : A) → i ≢ j → get_elem? (set l i a) j ≡ get_elem? l j
get_elem?-set_ne [] i j a n = refl
get_elem?-set_ne (b ∷ l) zero zero a n = absurd (n refl)
get_elem?-set_ne (b ∷ l) zero (suc j) a n = refl
get_elem?-set_ne (b ∷ l) (suc i) zero a n = refl
get_elem?-set_ne (b ∷ l) (suc i) (suc j) a n = get_elem?-set_ne l i j a (λ e. n (ap suc e))

-- What the writes of one value leave.
pub record Filled (n index v : ℕ) (table table' : List ℕ) : Type 0 where
  pub sized : length table' ≡ length table
  pub written : (p : ℕ) → index ≤ p → p < index + n → get_elem? table' p ≡ some v
  pub kept : (p : ℕ) → p < index → get_elem? table' p ≡ get_elem? table p

pub fill-Filled :
    (n index v : ℕ) (table : List ℕ)
    → index + n ≤ length table
    → (table' : List ℕ) × (fill n index v table ≡ some table') × Filled n index v table table'
unfolding fill
fill-Filled zero index v table fits = (
  table,
  refl,
  record { sized = refl; written = λ p a b. absurd (omega arith); kept = λ p a. refl },
)
fill-Filled (suc n) index v table fits =
    let (old, e) = get-some table index (omega arith) in
    let (table', f, g) =
      fill-Filled n (index + 1) v (set table index v) (rw length-set (omega arith)) in
    (
      table',
      rw (fill, e, fill) f,
      record {
        sized = g.sized ∙ length-set table index v;
        written = λ p a b. elim (eq_cases index p) [
          | inl here ↦
              g.kept p (omega arith)
              ∙ ap (get_elem? (set table index v)) (sym here)
              ∙ get_elem?-set_self table index v (omega arith)
          | inr there ↦ g.written p (omega arith) (omega arith)
        ];
        kept = λ p a. g.kept p (omega arith) ∙ get_elem?-set_ne table index p v (λ e. omega arith);
      },
    )
