-- ===== src/Hashtable/Chained/Whole.antt =====
-- The constructor and `clear` of the chained table.
use hashing_old_archive.Prelude.{
  ℕ, zero, suc, ◌≡◌, refl, ◌∙◌, ap, [], ◌∷◌, none, arith, length, replicate, eq_cases, inl, inr,
  ◌⊎◌, length-replicate,
}
use hashing_old_archive.Hashtable.Chained.{Directory, new, clear}
use hashing_old_archive.Hashtable.Contents.{
  bucket_at, contents, scan-absent, contents-key, contents-sentinel,
}
use hashing_old_archive.Hashtable.Slots.{seek, IsPacked}
use hashing_old_archive.Hashtable.Chained.Lookup.{rows, IsValid}

module _ {ℓ} {V : Type ℓ} (sentinel : ℕ) (hashfn reductionfn : ℕ → ℕ) where
  -- First-level slots that are free and have no chain.
  abbrev IsVacant : Directory V → Type ℓ
  IsVacant [] = Unit
  IsVacant (s ∷ t) = (s.key ≡ sentinel) × (s.buckets ≡ []) × IsVacant t

  row-IsVacant :
      (t : Directory V) (i q : ℕ)
      → IsVacant t
      → IsPacked sentinel (bucket_at (rows t) i)
        × ((q ≡ sentinel) ⊎ (seek q (bucket_at (rows t) i) ≡ none))
  unfolding seek
  row-IsVacant [] i q h = (tt, inr refl)
  row-IsVacant (s ∷ t) zero q h = rw h.1 ((λ _. tt, tt), ground arith)
  row-IsVacant (s ∷ t) (suc i) q h = row-IsVacant t i q h.2

  vacant-IsValid :
      (t : Directory V)
      → IsVacant t
      → IsValid sentinel hashfn reductionfn t × ((q : ℕ) → contents sentinel (rows t) q ≡ none)
  vacant-IsValid t h = (
    record {
      packed = λ i. (row-IsVacant t i 0 h).0;
      placed = λ q i nq away. ground (arith, row-IsVacant t i q h);
    },
    λ q. elim (eq_cases q sentinel) [
      | inl e ↦ rw (e, contents-sentinel)
      | inr nq ↦
          contents-key sentinel (rows t) q nq
          ∙ scan-absent q (rows t) λ i. ground (arith, row-IsVacant t i q h)
    ],
  )

  new-IsVacant :
      (n : ℕ) (u : V)
      → IsVacant (replicate n (record { key = sentinel; payload = u; buckets = [] }))
  new-IsVacant zero u = tt
  new-IsVacant (suc n) u = (refl, refl, new-IsVacant n u)

  -- The constructor makes a valid table of the given capacity without contents.
  pub chained_new-IsValid :
      (uninitialised : V) (capacity : ℕ)
      → IsValid sentinel hashfn reductionfn (new sentinel uninitialised capacity)
        × (length (new sentinel uninitialised capacity) ≡ capacity)
        × ((q : ℕ) → contents sentinel (rows (new sentinel uninitialised capacity)) q ≡ none)
  unfolding new
  chained_new-IsValid u capacity =
      let (valid, empty) = vacant-IsValid _ (new-IsVacant capacity u) in
      (valid, length-replicate capacity _, empty)

  clear-IsVacant : (t : Directory V) → IsVacant (clear sentinel t)
  unfolding clear
  clear-IsVacant [] = tt
  clear-IsVacant (s ∷ t) = (refl, refl, clear-IsVacant t)

  length-clear : (t : Directory V) → length (clear sentinel t) ≡ length t
  unfolding clear
  length-clear [] = refl
  length-clear (s ∷ t) = ap suc (length-clear t)

  -- `clear` makes a valid table without contents of any table, and keeps its size.
  pub chained_clear-IsValid :
      (t : Directory V)
      → IsValid sentinel hashfn reductionfn (clear sentinel t)
        × (length (clear sentinel t) ≡ length t)
        × ((q : ℕ) → contents sentinel (rows (clear sentinel t)) q ≡ none)
  chained_clear-IsValid t =
      let (valid, empty) = vacant-IsValid _ (clear-IsVacant t) in (valid, length-clear t, empty)
