-- ===== src/Hashtable/Vacant.antt =====
-- Arrays of buckets with free slots only, as the constructors and `clear` make them.
use native.Mathlib.Nat.{div-mul-le_self, lt-div-mul-add}
use hashing_old_archive.Prelude.{
  ℕ, zero, suc, ◌+◌, ◌-◌, ◌*◌, ◌/◌, ◌%◌, ◌^◌, ◌<◌, ◌≤◌, arith, ◌≡◌, refl, ◌∙◌, List, [], ◌∷◌, none,
  map, replicate, length, eq_cases, inl, inr, ap,
}
use hashing_old_archive.Hashtable.Contents.{
  bucket_at, scan-absent, contents, contents-key, contents-sentinel,
}
use hashing_old_archive.Hashtable.Slots.{Slot, AllFree, seek-AllFree, release}

-- Rounding up to whole buckets.
pub rounded_up :
    (bucket_size capacity : ℕ)
    → 0 < bucket_size
    → capacity + bucket_size ≤ 2 ^ 64
    → (capacity ≤ (capacity + bucket_size + 2 ^ 64 - 1) % 2 ^ 64 / bucket_size * bucket_size)
      × ((capacity + bucket_size + 2 ^ 64 - 1) % 2 ^ 64 / bucket_size * bucket_size
          < capacity + bucket_size)
rounded_up bucket_size capacity some_slots fit =
    let whole : (capacity + bucket_size + 2 ^ 64 - 1) % 2 ^ 64 ≡ capacity + bucket_size - 1 =
      omega arith in
    let below = div-mul-le_self (capacity + bucket_size - 1) bucket_size in
    let above = lt-div-mul-add {a = capacity + bucket_size - 1} some_slots in
    rw whole (omega (arith, above), omega (arith, below))

module _ {ℓ} {V : Type ℓ} (sentinel : ℕ) where
  -- Every slot of every bucket is free.
  abbrev pub IsVacant : List (List (Slot V)) → Type 0
  IsVacant [] = Unit
  IsVacant (b ∷ t) = AllFree sentinel b × IsVacant t

  pub bucket-IsVacant :
      (t : List (List (Slot V))) (i : ℕ) → IsVacant t → AllFree sentinel (bucket_at t i)
  bucket-IsVacant [] i h = tt
  bucket-IsVacant (b ∷ t) zero h = h.0
  bucket-IsVacant (b ∷ t) (suc i) h = bucket-IsVacant t i h.1

  pub contents-IsVacant :
      (t : List (List (Slot V))) (q : ℕ) → IsVacant t → contents sentinel t q ≡ none
  contents-IsVacant t q h = elim (eq_cases q sentinel) [
    | inl e ↦ rw e (contents-sentinel sentinel t)
    | inr ne ↦
        contents-key sentinel t q ne
        ∙ scan-absent q t λ i. seek-AllFree sentinel q (bucket_at t i) ne (bucket-IsVacant t i h)
  ]

  pub fresh-AllFree :
      (n : ℕ) (v : V) → AllFree sentinel (replicate n (record { key = sentinel; payload = v }))
  fresh-AllFree zero v = tt
  fresh-AllFree (suc n) v = (refl, fresh-AllFree n v)

  pub replicate-IsVacant :
      (n : ℕ) (b : List (Slot V)) → AllFree sentinel b → IsVacant (replicate n b)
  replicate-IsVacant zero b h = tt
  replicate-IsVacant (suc n) b h = (h, replicate-IsVacant n b h)

  release-AllFree : (b : List (Slot V)) → AllFree sentinel (map (release sentinel) b)
  unfolding release
  release-AllFree [] = tt
  release-AllFree (s ∷ b) = (refl, release-AllFree b)

  pub released-IsVacant : (t : List (List (Slot V))) → IsVacant (map (map (release sentinel)) t)
  released-IsVacant [] = tt
  released-IsVacant (b ∷ t) = (release-AllFree b, released-IsVacant t)

  pub length-released :
      (t : List (List (Slot V))) → length (map (map (release sentinel)) t) ≡ length t
  length-released [] = refl
  length-released (b ∷ t) = ap suc (length-released t)

  row_width : (c : List (Slot V)) → length (map (release sentinel) c) ≡ length c
  row_width [] = refl
  row_width (s ∷ c) = ap suc (row_width c)

  pub width-released :
      (t : List (List (Slot V))) (i : ℕ)
      → length (bucket_at (map (map (release sentinel)) t) i) ≡ length (bucket_at t i)
  width-released [] i = refl
  width-released (b ∷ t) zero = row_width b
  width-released (b ∷ t) (suc i) = width-released t i

  pub width-replicate :
      (n i : ℕ) (b : List (Slot V)) → i < n → length (bucket_at (replicate n b) i) ≡ length b
  width-replicate zero i b h = absurd (omega arith)
  width-replicate (suc n) zero b h = refl
  width-replicate (suc n) (suc i) b h = width-replicate n i b (omega arith)
