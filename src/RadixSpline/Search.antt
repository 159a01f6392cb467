-- ===== src/RadixSpline/Search.antt =====
-- The two searches of `GetSplineSegment` against the number of elements in front that pass the
-- test.
use hashing_old_archive.Prelude.{
  ℕ, zero, suc, ◌+◌, ◌-◌, ◌/◌, ◌<◌, ◌≤◌, ◌≡◌, refl, Bool, true, false, List, [], ◌∷◌, some, ◌==◌,
  if◌then◌else◌, length, get_elem?, arith, All, Bool-cases, inl, inr, lt_cases, ap,
}
use hashing_old_archive.RadixSpline.{linear_search, lower_bound}

-- How many elements at the front pass the test.
unfoldable pub leading {ℓ} : {A : Type ℓ} → (A → Bool) → List A → ℕ
leading test [] = 0
leading test (a ∷ l) = let rest = leading test l in if test a then suc rest else 0

module _ {ℓ} {A : Type ℓ} where
  pub leading-le-length : (test : A → Bool) (l : List A) → leading test l ≤ length l
  unfolding leading
  leading-le-length test [] = omega arith
  leading-le-length test (a ∷ l) = ground (arith, leading-le-length test l)

  -- An element in front passes the test, and the one behind them does not.
  pub leading-passes :
      (test : A → Bool) (l : List A) (i : ℕ)
      → i < leading test l
      → (a : A) × (get_elem? l i ≡ some a) × (test a ≡ true)
  unfolding leading
  leading-passes test [] i h = absurd (omega arith)
  leading-passes test (a ∷ l) zero h = elim (Bool-cases (test a)) [
    | inl e ↦ (a, refl, e)
    | inr e ↦ absurd (ground arith)
  ]
  leading-passes test (a ∷ l) (suc i) h = elim (Bool-cases (test a)) [
    | inl e ↦ leading-passes test l i (ground arith)
    | inr e ↦ absurd (ground arith)
  ]

  pub leading-fails :
      (test : A → Bool) (l : List A) (a : A)
      → get_elem? l (leading test l) ≡ some a
      → test a ≡ false
  unfolding leading
  leading-fails test [] a h = cc
  leading-fails test (b ∷ l) a h = elim (Bool-cases (test b)) [
    | inl e ↦ leading-fails test l a (rw e at h)
    | inr e ↦ let g : some b ≡ some a = rw e at h in cc
  ]

  -- A weaker test is passed by no fewer elements in front.
  pub leading_mono {κ} :
      (P : A → Type κ) (strong weak : A → Bool)
      → ((a : A) → P a → strong a ≡ true → weak a ≡ true)
      → (l : List A) → All P l
      → leading strong l ≤ leading weak l
  unfolding leading
  leading_mono P strong weak h [] all = omega arith
  leading_mono P strong weak h (a ∷ l) all = elim (Bool-cases (strong a)) [
    | inl e ↦ rw (e, h a all.0 e) (omega (arith, leading_mono P strong weak h l all.1))
    | inr e ↦ rw e (omega arith)
  ]

  pub get-some : (l : List A) (i : ℕ) → i < length l → (a : A) × (get_elem? l i ≡ some a)
  get-some [] i h = absurd (omega arith)
  get-some (a ∷ l) zero h = (a, refl)
  get-some (a ∷ l) (suc i) h = get-some l i (omega arith)

  -- The linear search from anywhere in front finds the first element that fails the test.
  pub linear_search-leading :
      (test : A → Bool) (l : List A) (fuel current : ℕ)
      → current ≤ leading test l
      → leading test l < length l
      → leading test l < current + fuel
      → linear_search test fuel l current ≡ some (leading test l)
  unfolding linear_search
  linear_search-leading test l zero current le lt enough = absurd (omega arith)
  linear_search-leading test l (suc fuel) current le lt enough =
      elim (lt_cases current (leading test l)) [
        | inl before ↦
            let (a, got, passed) = leading-passes test l current before in
            rw (got, linear_search, passed)
              (linear_search-leading test l fuel (current + 1) (omega arith) lt (omega arith))
        | inr behind ↦
            let here : current ≡ leading test l = omega arith in
            let (a, got) = get-some l (leading test l) lt in
            rw (here, got, linear_search, leading-fails test l a got) (ap (λ x. some x) here)
      ]

  -- Behind the first element that fails the test no element passes it.
  abbrev pub IsPartitioned : (A → Bool) → List A → Type ℓ
  IsPartitioned test l =
      (i : ℕ) (a : A) → get_elem? l i ≡ some a → leading test l ≤ i → test a ≡ false

  -- The binary search finds it as well, if it is in the range or at its end.
  pub lower_bound-leading :
      (test : A → Bool) (l : List A)
      → IsPartitioned test l
      → (fuel first len : ℕ) → first ≤ leading test l
      → leading test l ≤ first + len
      → first + len ≤ length l
      → len ≤ fuel
      → lower_bound test fuel l first len ≡ some (leading test l)
  unfolding lower_bound
  lower_bound-leading test l part zero first len low high fits enough =
      ap (λ x. some x) (omega arith)
  lower_bound-leading test l part (suc fuel) first len low high fits enough =
      elim (lt_cases 0 len) [
        | inr empty ↦
            let e : len ≡ 0 = omega arith in
            let f : first ≡ leading test l = omega arith in rw e (ap (λ x. some x) f)
        | inl some_left ↦
            let (a, got) = get-some l (first + len / 2) (omega arith) in
            let filled : (len == 0) ≡ false = ground arith in
            elim (lt_cases (first + len / 2) (leading test l)) [
              | inl before ↦
                  let (b, got', passed) = leading-passes test l (first + len / 2) before in
                  rw (filled, got', lower_bound, passed)
                    (lower_bound-leading test l part fuel (first + len / 2 + 1) (len - len / 2 - 1)
                      (omega arith) (omega arith) (omega arith) (omega arith))
              | inr behind ↦
                  rw (filled, got, lower_bound, part (first + len / 2) a got behind)
                    (lower_bound-leading test l part fuel first (len / 2) (omega arith)
                      (omega arith) (omega arith) (omega arith))
            ]
      ]
