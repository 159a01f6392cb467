-- ===== src/Merging/Multiway/Work.antt =====
-- The work that is left: each tuple counts once for each node it may still go through, and each node
-- that is not done counts once.
use hashing_old_archive.Prelude.{
  ℕ, zero, suc, ◌+◌, ◌*◌, ◌<◌, ◌≡◌, ◌≢◌, refl, Bool, true, false, length, arith, inl, inr, sym, ◌∙◌,
  ap, eq_cases, ◌⊎◌,
}
use mathlib.Core.Path.{subst}
use hashing_old_archive.Merging.Multiway.{Fifos, set_at}
use hashing_old_archive.Merging.Multiway.State.{set_at_same, set_at_other}

-- The sum over the indices below a bound.
unfoldable pub sum : ℕ → (ℕ → ℕ) → ℕ
sum zero g = 0
sum (suc n) g = sum n g + g n

pub sum-ap : (n : ℕ) (g h : ℕ → ℕ) → ((i : ℕ) → i < n → g i ≡ h i) → sum n g ≡ sum n h
unfolding sum
sum-ap zero g h same = refl
sum-ap (suc n) g h same =
    omega (arith, sum-ap n g h (λ i lt. same i (omega arith)), same n (omega arith))

-- A change at one index changes the sum by as much.
pub sum_change :
    (n i : ℕ) (g h : ℕ → ℕ) → i < n → ((j : ℕ) → j ≢ i → h j ≡ g j) → sum n h + g i ≡ sum n g + h i
unfolding sum
sum_change zero i g h lt same = absurd (omega arith)
sum_change (suc n) i g h lt same = elim (eq_cases i n) [
  | inl e ↦
      let below : sum n h ≡ sum n g = sum-ap n h g (λ j l. same j (λ q. omega arith)) in
      rw e (omega (arith, below))
  | inr n' ↦ omega (arith, sum_change n i g h (omega arith) same, same n (λ q. n' (sym q)))
]

pub sum-set_at {ℓ} :
    {A : Type ℓ} (weight : A → ℕ → ℕ) (n i : ℕ) (x : A) (array : ℕ → A)
    → i < n
    → sum n (λ j. weight (set_at i x array j) j) + weight (array i) i
      ≡ sum n (λ j. weight (array j) j) + weight x i
sum-set_at weight n i x array lt =
    sum_change n i (λ j. weight (array j) j) (λ j. weight (set_at i x array j) j) lt
      (λ j other. ap (λ y. weight y j) (set_at_other i j x array other))
    ∙ ap (λ y. sum n (λ j. weight (array j) j) + weight y i) (set_at_same i i x array refl)

-- What the work that is left depends on: how many tuples each node holds, which nodes are done, and how
-- many tuples each input has.
pub record Shape : Type 0 where
  pub counts : ℕ → ℕ
  pub done : ℕ → Bool
  pub lengths : ℕ → ℕ

abbrev pub shape {ℓ} : {V : Type ℓ} → Fifos V → Shape
shape fifos = record {
  counts = λ i. (fifos.nodes i).count;
  done = fifos.done;
  lengths = λ i. length (fifos.parts i);
}

pub shape-eq :
    (s t : Shape)
    → ((i : ℕ) → s.counts i ≡ t.counts i)
    → ((i : ℕ) → s.done i ≡ t.done i)
    → ((i : ℕ) → s.lengths i ≡ t.lengths i)
    → s ≡ t
shape-eq s t counts done lengths =
    λ j. record { counts = λ i. counts i j; done = λ i. done i j; lengths = λ i. lengths i j }

abbrev pub undone : Bool → ℕ
undone true = 0
undone false = 1

-- A tuple of an input weighs more than one of any node, and one of a node more than one of its parent.
unfoldable pub work : ℕ → Shape → ℕ
work nfifos s =
    sum (nfifos + 2) (λ c. s.lengths c * (nfifos + 1))
    + sum nfifos (λ i. s.counts i * (i + 1))
    + sum nfifos (λ i. undone (s.done i))

-- A step lowers the work, or leaves the shape and finds a property of it.
abbrev pub Lowers {κ} : ℕ → (Shape → Type κ) → Shape → Shape → Type κ
Lowers nfifos P s s' = (work nfifos s' < work nfifos s) ⊎ ((s' ≡ s) × P s)

-- Two steps, one after the other.
pub Lowers-then {κ} :
    (nfifos : ℕ) (P Q R : Shape → Type κ) (s s' s'' : Shape)
    → ((t : Shape) → P t → Q t → R t)
    → Lowers nfifos P s s'
    → Lowers nfifos Q s' s''
    → Lowers nfifos R s s''
Lowers-then nfifos P Q R s s' s'' join (inl less) (inl less') = inl (omega arith)
Lowers-then nfifos P Q R s s' s'' join (inl less) (inr (same, q)) =
    inl (omega (arith, ap (work nfifos) same))
Lowers-then nfifos P Q R s s' s'' join (inr (same, p)) (inl less) =
    inl (omega (arith, ap (work nfifos) same))
Lowers-then nfifos P Q R s s' s'' join (inr (same, p)) (inr (same', q)) =
    inr (same' ∙ same, join s p (subst Q same q))
