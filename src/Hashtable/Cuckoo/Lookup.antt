-- ===== src/Hashtable/Cuckoo/Lookup.antt =====
-- The buckets of a key in the cuckoo table, and `lookup`.
use hashing_old_archive.Prelude.{
  ℕ, ◌<◌, ◌≡◌, ◌≢◌, [], none, some, arith, get_elem?, ◌⊎◌, inl, inr, Option-cases,
  get_elem?-eq-get_or,
}
use hashing_old_archive.Hashtable.Contents.{bucket_at, scan, contents, contents-key, scan-absent}
use hashing_old_archive.Hashtable.Cuckoo.Move.{IsValid, scan-held}
use hashing_old_archive.Hashtable.Cuckoo.Rows.{find_key-seek}
use hashing_old_archive.Hashtable.Cuckoo.{Directory, first, second, lookup}
use hashing_old_archive.Hashtable.Outcome.{done}
use hashing_old_archive.Hashtable.Slots.{seek}

module _ (hashfn1 : ℕ → ℕ) (hashfn2 : ℕ → ℕ → ℕ) (reductionfn1 reductionfn2 : ℕ → ℕ) (size : ℕ)
    (in_range1 : (h : ℕ) → reductionfn1 h < size)
    (in_range2 : (h : ℕ) → reductionfn2 h < size) where
  abbrev bucket1 : ℕ → ℕ
  bucket1 = first hashfn1 hashfn2 reductionfn1 reductionfn2

  abbrev bucket2 : ℕ → ℕ
  bucket2 = second hashfn1 hashfn2 reductionfn1 reductionfn2 size

  -- With reductions into the directory, the second bucket of a key is in the directory and, if there are
  -- two buckets, another than the first.
  pub second_bounds : (k : ℕ) → (bucket2 k < size) × ((size ≡ 1) ⊎ (bucket2 k ≢ bucket1 k))
  unfolding second
  second_bounds k = ground (arith, in_range1 (hashfn1 k), in_range2 (hashfn2 k (hashfn1 k)))

  module _ {ℓ} {V : Type ℓ} (sentinel bucket_size : ℕ) {t : Directory V}
      (valid : IsValid sentinel bucket_size size bucket1 bucket2 t) where
    pub read : (i : ℕ) → i < size → get_elem? t i ≡ some (bucket_at t i)
    read i lt = get_elem?-eq-get_or t i [] (rw valid.sized lt)

    -- What neither of its buckets holds is nowhere in the table.
    pub scan-either :
        (k : ℕ)
        → k ≢ sentinel
        → seek k (bucket_at t (bucket1 k)) ≡ none
        → seek k (bucket_at t (bucket2 k)) ≡ none
        → scan k t ≡ none
    scan-either k ne a b = scan-absent k t λ i. elim (Option-cases (seek k (bucket_at t i))) [
      | inl e ↦ e
      | inr (w, e) ↦ elim (valid.placed k i ne (λ z. cc)) [
        | inl at1 ↦ rw at1 a
        | inr at2 ↦ rw at2 b
      ]
    ]

    -- With reductions into the directory, a lookup in a valid table of a key other than the sentinel reads
    -- inside the directory and returns what the table holds for the key.
    pub cuckoo_lookup-contents :
        (k : ℕ)
        → k ≢ sentinel
        → lookup hashfn1 hashfn2 reductionfn1 reductionfn2 k t ≡ done (contents sentinel t k)
    unfolding lookup
    cuckoo_lookup-contents k ne =
        let b1 = bucket_at t (bucket1 k) in
        let b2 = bucket_at t (bucket2 k) in
        rw (contents-key sentinel t k ne) (elim (Option-cases (seek k b1)) [
          | inr (v, e) ↦ ground (
            arith,
            valid.sized,
            read (bucket1 k) (in_range1 (hashfn1 k)),
            find_key-seek k b1,
            e,
            scan-held sentinel bucket_size size bucket1 bucket2 valid k (bucket1 k) ne (λ z. cc),
          )
          | inl e ↦ elim (Option-cases (seek k b2)) [
            | inr (v, f) ↦ ground (
              arith,
              valid.sized,
              read (bucket1 k) (in_range1 (hashfn1 k)),
              read (bucket2 k) (second_bounds k).0,
              find_key-seek k b1,
              find_key-seek k b2,
              scan-held sentinel bucket_size size bucket1 bucket2 valid k (bucket2 k) ne (λ z. cc),
            )
            | inl f ↦ ground (
              arith,
              valid.sized,
              read (bucket1 k) (in_range1 (hashfn1 k)),
              read (bucket2 k) (second_bounds k).0,
              find_key-seek k b1,
              find_key-seek k b2,
              scan-either k ne e f,
            )
          ]
        ])
