-- ===== src/Hashtable/Contents.antt =====
-- What an array of buckets holds, whatever hash and probing function placed it there: the abstract
-- map that the probing and cuckoo tables are compared with.
use mathlib.Core.Option.{or_else}
use hashing_old_archive.Prelude.{
  ℕ, zero, suc, ◌<◌, ◌≡◌, ◌≢◌, refl, List, [], ◌∷◌, Option, none, some, arith, ◌==◌, if◌then◌else◌,
  length, get_or, set, ==_refl, ==_of_ne, Option-cases, inl, inr,
}
use hashing_old_archive.Hashtable.Slots.{Slot, seek}

module _ {ℓ} {V : Type ℓ} where
  abbrev pub bucket_at : List (List (Slot V)) → ℕ → List (Slot V)
  bucket_at t i = get_or t i []

  -- The first payload that any bucket holds under a key.
  unfoldable pub scan : ℕ → List (List (Slot V)) → Option V
  scan q [] = none
  scan q (b ∷ t) = or_else (seek q b) (scan q t)

  -- The contents as a map; the sentinel is no key.
  unfoldable pub contents : ℕ → List (List (Slot V)) → ℕ → Option V
  contents sentinel t q = if q == sentinel then none else scan q t

  pub scan-none :
      (q : ℕ) (t : List (List (Slot V))) (i : ℕ) → scan q t ≡ none → seek q (bucket_at t i) ≡ none
  unfolding scan or_else seek
  scan-none q [] i h = refl
  scan-none q (b ∷ t) zero h = ground arith
  scan-none q (b ∷ t) (suc i) h = ground (arith, scan-none q t i)

  pub scan-absent :
      (q : ℕ) (t : List (List (Slot V)))
      → ((i : ℕ) → seek q (bucket_at t i) ≡ none)
      → scan q t ≡ none
  unfolding scan or_else
  scan-absent q [] h = refl
  scan-absent q (b ∷ t) h = ground (arith, h 0, scan-absent q t (λ i. h (suc i)))

  -- A key that one bucket alone may hold has there the payload of the scan.
  pub scan-only :
      (q : ℕ) (t : List (List (Slot V))) (j : ℕ)
      → ((i : ℕ) → i ≢ j → seek q (bucket_at t i) ≡ none)
      → scan q t ≡ seek q (bucket_at t j)
  unfolding scan or_else seek
  scan-only q [] j h = refl
  scan-only q (b ∷ t) zero h = ground (arith, scan-absent q t (λ i. h (suc i) (omega arith)))
  scan-only q (b ∷ t) (suc j) h =
      ground (arith, h 0, scan-only q t j (λ i n. h (suc i) (omega arith)))

  -- Where the scan finds a payload, a bucket holds it.
  pub scan-some :
      (q : ℕ) (t : List (List (Slot V))) (v : V)
      → scan q t ≡ some v
      → (j : ℕ) × (j < length t) × (seek q (bucket_at t j) ≡ some v)
  unfolding scan or_else
  scan-some q [] v h = absurd (cc)
  scan-some q (b ∷ t) v h = elim (Option-cases (seek q b)) [
    | inr (w, e) ↦ (0, omega arith, ground arith)
    | inl e ↦ let (j, lt, g) = scan-some q t v (ground arith) in (suc j, omega arith, g)
  ]

  -- A write that changes nothing for a key leaves its scan; one that adds a key is found.
  pub scan-set_same :
      (q : ℕ) (t : List (List (Slot V))) (j : ℕ) (b : List (Slot V))
      → seek q b ≡ seek q (bucket_at t j)
      → scan q (set t j b) ≡ scan q t
  unfolding scan
  scan-set_same q [] j b h = refl
  scan-set_same q (c ∷ t) zero b h = rw h
  scan-set_same q (c ∷ t) (suc j) b h = rw (scan-set_same q t j b h)

  pub scan-set_new :
      (q : ℕ) (t : List (List (Slot V))) (j : ℕ) (b : List (Slot V)) (v : V)
      → j < length t
      → scan q t ≡ none
      → seek q b ≡ some v
      → scan q (set t j b) ≡ some v
  unfolding scan or_else
  scan-set_new q [] j b v lt a h = absurd (omega arith)
  scan-set_new q (c ∷ t) zero b v lt a h = ground arith
  scan-set_new q (c ∷ t) (suc j) b v lt a h = ground (arith, scan-set_new q t j b v (omega arith))

  pub contents-sentinel :
      (sentinel : ℕ) (t : List (List (Slot V))) → contents sentinel t sentinel ≡ none
  unfolding contents
  contents-sentinel sentinel t = rw ==_refl

  pub contents-key :
      (sentinel : ℕ) (t : List (List (Slot V))) (q : ℕ)
      → q ≢ sentinel
      → contents sentinel t q ≡ scan q t
  unfolding contents
  contents-key sentinel t q ne = rw (==_of_ne q sentinel ne)
