-- ===== src/Hashtable/Probing/Invariant.antt =====
-- The invariant of the probing table: every key stands where its own walk finds it.
use hashing_old_archive.Prelude.{
  ℕ, ◌+◌, ◌<◌, ◌≡◌, ◌≢◌, ◌∙◌, sym, none, length, arith, inl, inr, ◌⊎◌, lt_cases, Option-cases, ap,
}
use hashing_old_archive.Hashtable.Contents.{bucket_at, scan, scan-absent, scan-only}
use hashing_old_archive.Hashtable.Probing.{Prober, Directory, home}
use hashing_old_archive.Hashtable.Probing.Walk.{Walked, visited}
use hashing_old_archive.Hashtable.Slots.{seek, IsPacked}

module _ {ℓ} {V : Type ℓ} (p : Prober) (sentinel : ℕ) (hashfn reductionfn : ℕ → ℕ) where
  -- A key stands in bucket `j` where its own walk finds it.
  pub record IsReached (t : Directory V) (q j : ℕ) : Type ℓ where
    pub step : ℕ
    pub bounded : step < p.directory_size
    pub lands : p.probe (home hashfn reductionfn q) step ≡ j
    pub walked : Walked p sentinel hashfn reductionfn t q step

  -- The invariant of the table.
  pub record IsValid (t : Directory V) : Type ℓ where
    pub width : length t ≡ p.directory_size
    pub packed : (i : ℕ) → IsPacked sentinel (bucket_at t i)
    pub placed : (q j : ℕ) → q ≢ sentinel → seek q (bucket_at t j) ≢ none → IsReached t q j

  module _ {t : Directory V} (valid : IsValid t) where
    reached_once :
        (q i j : ℕ)
        → q ≢ sentinel
        → seek q (bucket_at t i) ≢ none
        → seek q (bucket_at t j) ≢ none
        → i ≡ j
    reached_once q i j ne hi hj =
        let a = valid.placed q i ne hi in
        let b = valid.placed q j ne hj in
        elim (lt_cases a.step b.step) [
          | inl l ↦ absurd (hi (rw a.lands at (b.walked.absent a.step l)))
          | inr m ↦ elim (lt_cases b.step a.step) [
            | inl l ↦ absurd (hj (rw b.lands at (a.walked.absent b.step l)))
            | inr n ↦
                let e : a.step ≡ b.step = omega arith in
                sym a.lands ∙ ap (p.probe (home hashfn reductionfn q)) e ∙ b.lands
          ]
        ]

    -- The one bucket that holds a key decides what the table holds for it.
    pub scan-held :
        (q j : ℕ) → q ≢ sentinel → seek q (bucket_at t j) ≢ none → scan q t ≡ seek q (bucket_at t j)
    scan-held q j ne h = scan-only q t j λ i n. elim (Option-cases (seek q (bucket_at t i))) [
      | inl e ↦ e
      | inr (w, e) ↦ absurd (n (reached_once q i j ne (λ z. cc) h))
    ]

    -- A walk that meets room or its start again, and not the key, has shown the key absent.
    pub walk-absent :
        (k s : ℕ)
        → k ≢ sentinel
        → Walked p sentinel hashfn reductionfn t k s
        → seek k (visited p sentinel hashfn reductionfn t k s) ≡ none
        → (seek sentinel (visited p sentinel hashfn reductionfn t k s) ≢ none)
          ⊎ (p.probe (home hashfn reductionfn k) (s + 1) ≡ home hashfn reductionfn k)
        → scan k t ≡ none
    walk-absent k s ne w a stop = scan-absent k t λ i.
        elim (Option-cases (seek k (bucket_at t i))) [
          | inl e ↦ e
          | inr (v, e) ↦
              let r = valid.placed k i ne (λ z. cc) in
              elim (lt_cases r.step s) [
                | inl l ↦ rw r.lands at (w.absent r.step l)
                | inr m ↦ elim (lt_cases s r.step) [
                  | inl l ↦ elim stop [
                    | inl room ↦ absurd (room (r.walked.crowded s l))
                    | inr back ↦ absurd (r.walked.fresh (s + 1) (omega arith) (omega arith) back)
                  ]
                  | inr n ↦
                      let e : s ≡ r.step = omega arith in
                      ap (λ x. seek k (bucket_at t x))
                        (sym r.lands ∙ ap (p.probe (home hashfn reductionfn k)) (sym e))
                      ∙ a
                ]
              ]
        ]
