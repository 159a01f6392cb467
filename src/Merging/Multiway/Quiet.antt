-- ===== src/Merging/Multiway/Quiet.antt =====
-- A state in which a round changes nothing.
use hashing_old_archive.Prelude.{
  ℕ, zero, suc, ◌+◌, ◌-◌, ◌*◌, ◌/◌, ◌<◌, ◌≤◌, ◌≡◌, Bool, true, false, arith, inl, inr, ◌∙◌, ap, ◌⊎◌,
  eq_cases, lt_cases,
}
use hashing_old_archive.Merging.Multiway.State.{done-undone}
use hashing_old_archive.Merging.Multiway.Work.{Shape}

module _ (f : ℕ) where
  -- A node that is done or holds enough.
  abbrev pub Settled : ℕ → Shape → Type 0
  Settled m t = (t.done m ≡ true) ⊎ (f / 2 ≤ t.counts m)

  -- A node that still gets tuples and holds few.
  abbrev pub Lacks : ℕ → Shape → Type 0
  Lacks k t = (t.done k ≡ false) × (t.counts k < f / 2)

module _ (f nfifos : ℕ) where
  Settled-Lacks : (k : ℕ) (t : Shape) → Settled f k t → Lacks f k t → ⊥
  Settled-Lacks k t (inl done) (undone, few) = done-undone (t.done k) done undone
  Settled-Lacks k t (inr enough) (undone, few) = omega arith

  -- From the leaves up, every node is done or holds enough.
  pub all-Settled :
      (left fuel m : ℕ) (t : Shape)
      → nfifos ≤ m + fuel
      → m < nfifos
      → 2 * left + 1 < nfifos
      → ((k : ℕ) → left ≤ k → k < nfifos → Settled f k t)
      → ((k : ℕ)
          → k < left
          → (t.done k ≡ true)
            ⊎ ((f / 2 ≤ t.counts k) ⊎ (Lacks f (2 * k + 2) t ⊎ Lacks f (2 * k + 3) t)))
      → Settled f m t
  all-Settled left zero m t enough inside low leaves inners = absurd (omega arith)
  all-Settled left (suc fuel) m t enough inside low leaves inners = elim (lt_cases m left) [
    | inr leaf ↦ leaves m leaf inside
    | inl inner ↦ elim (inners m inner) [
      | inl done ↦ inl done
      | inr (inl full) ↦ inr full
      | inr (inr (inl lacks)) ↦ absurd (
          Settled-Lacks (2 * m + 2) t
            (all-Settled left fuel (2 * m + 2) t (omega arith) (omega arith) low leaves inners)
            lacks)
      | inr (inr (inr lacks)) ↦ absurd (
          Settled-Lacks (2 * m + 3) t
            (all-Settled left fuel (2 * m + 3) t (omega arith) (omega arith) low leaves inners)
            lacks)
    ]
  ]

  -- From the roots down, every node is done.
  pub all_done :
      (h fuel m : ℕ) (done : ℕ → Bool)
      → nfifos ≡ 2 * h
      → m < fuel
      → m < nfifos
      → ((k : ℕ)
          → 2 * k + 3 < nfifos
          → done k ≡ true
          → (done (2 * k + 2) ≡ true) × (done (2 * k + 3) ≡ true))
      → done 0 ≡ true
      → done 1 ≡ true
      → done m ≡ true
  all_done h zero m done even enough inside closed d0 d1 = absurd (omega arith)
  all_done h (suc fuel) m done even enough inside closed d0 d1 = elim (lt_cases m 2) [
    | inl root ↦ elim (eq_cases m 0) [
      | inl e ↦ ap done e ∙ d0
      | inr n ↦ let e : m ≡ 1 = omega arith in ap done e ∙ d1
    ]
    | inr below ↦
        let parent =
          all_done h fuel ((m - 2) / 2) done even (omega arith) (omega arith) closed d0 d1 in
        let (right, left) = closed ((m - 2) / 2) (omega arith) parent in
        elim (eq_cases m (2 * ((m - 2) / 2) + 2)) [
          | inl e ↦ ap done e ∙ right
          | inr n ↦ let e : m ≡ 2 * ((m - 2) / 2) + 3 = omega arith in ap done e ∙ left
        ]
  ]
