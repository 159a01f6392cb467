-- ===== src/Hashtable/Cuckoo/Kicking.antt =====
-- The contract of a kicking function, for `BalancedKicking` and `BiasedKicking`.
use hashing_old_archive.Prelude.{
  ℕ, ◌%◌, ◌<◌, ◌≤◌, ◌≡◌, ◌≢◌, refl, List, Option, none, some, arith, ◌==◌, ◌&&◌, ltb, leb, length,
  get_elem?, get_or, set, ◌⊎◌, inl, inr, Bool-cases, bit_and, ap, ◌∙◌, get_elem?-eq-get_or,
}
use hashing_old_archive.Hashtable.Contents.{bucket_at}
use hashing_old_archive.Hashtable.Cuckoo.Rows.{
  entry, used-free, used-full, used-le-length, seek-get_elem?,
}
use hashing_old_archive.Hashtable.Cuckoo.{
  Directory, Kicked, used, write, place, evict, balanced, biased,
}
use hashing_old_archive.Hashtable.Outcome.{Impossible}
use hashing_old_archive.Hashtable.Slots.{Slot, seek, IsPacked}

full-ne {ℓ} :
    {V : Type ℓ} (sentinel : ℕ) (b : List (Slot V)) (c : ℕ) (s : Slot V)
    → seek sentinel b ≡ none
    → get_elem? b c ≡ some s
    → s.key ≢ sentinel
full-ne sentinel b c s full g e = seek-get_elem? b c s g (ap (λ x. seek x b) e ∙ full)

module _ {ℓ} {V R : Type ℓ} (sentinel bucket_size : ℕ) where
  -- What a kicking function may do with an entry and the buckets `i1` and `i2`: write it to a free
  -- slot so that the bucket stays packed, or put it in the place of an entry of a full bucket.
  abbrev pub Kicks : Directory V → ℕ → ℕ → ℕ → V → Option (Kicked V R) → Type ℓ
  Kicks t i1 i2 k v none = Impossible
  Kicks t i1 i2 k v (some out) =
      (i : ℕ) × (c : ℕ) × (s : Slot V) × ((i ≡ i1) ⊎ (i ≡ i2))
      × (get_elem? (bucket_at t i) c ≡ some s)
      × (out.table ≡ write t i c k v)
      × ((s.key ≡ sentinel)
            × (out.kicked ≡ none)
            × IsPacked sentinel (set (bucket_at t i) c (entry k v))
          ⊎ (s.key ≢ sentinel) × (out.kicked ≡ some s) × (seek sentinel (bucket_at t i) ≡ none))

  module _ (sized : 0 < bucket_size) (t : Directory V) (i1 i2 k : ℕ) (v : V) where
    place-Kicks :
        (r : R) (i : ℕ)
        → (i ≡ i1) ⊎ (i ≡ i2)
        → length (bucket_at t i) ≡ bucket_size
        → IsPacked sentinel (bucket_at t i)
        → used sentinel (bucket_at t i) < bucket_size
        → Kicks t i1 i2 k v (place r t i (used sentinel (bucket_at t i)) k v)
    unfolding place
    place-Kicks r i one width packed room =
        let (s, g, free, p) = used-free sentinel (bucket_at t i) k v packed (rw width room) in
        rw (g, place) (i, used sentinel (bucket_at t i), s, one, g, refl, inl (free, refl, p))

    evict-Kicks :
        (r : R) (i n : ℕ)
        → (i ≡ i1) ⊎ (i ≡ i2)
        → length (bucket_at t i) ≡ bucket_size
        → bucket_size ≤ used sentinel (bucket_at t i)
        → Kicks t i1 i2 k v (evict r t i (n % bucket_size) k v)
    unfolding evict
    evict-Kicks r i n one width crowded =
        let b = bucket_at t i in
        let s : Slot V = get_or b (n % bucket_size) (entry k v) in
        let g = get_elem?-eq-get_or b (n % bucket_size) (entry k v) (rw width (omega arith)) in
        let full = used-full sentinel b (rw width crowded) in
        rw (g, evict)
          (
            i,
            n % bucket_size,
            s,
            one,
            g,
            refl,
            inr (full-ne sentinel b (n % bucket_size) s full g, refl, full),
          )

    module _ (random : R → ℕ × R) (r : R) (width1 : length (bucket_at t i1) ≡ bucket_size)
        (width2 : length (bucket_at t i2) ≡ bucket_size)
        (packed1 : IsPacked sentinel (bucket_at t i1))
        (packed2 : IsPacked sentinel (bucket_at t i2)) where
      abbrev c1 : ℕ
      c1 = used sentinel (bucket_at t i1)

      abbrev c2 : ℕ
      c2 = used sentinel (bucket_at t i2)

      pub balanced-Kicks : Kicks t i1 i2 k v (balanced sentinel bucket_size random r t i1 i2 k v)
      unfolding balanced
      balanced-Kicks = elim (Bool-cases (leb c1 c2 && ltb c1 bucket_size)) [
        | inl e ↦ rw e (place-Kicks r i1 (inl refl) width1 packed1 (ground arith))
        | inr n ↦ rw n (elim (Bool-cases (ltb c2 bucket_size)) [
          | inl e ↦ rw e (place-Kicks r i2 (inr refl) width2 packed2 (ground arith))
          | inr m ↦
              let le1 = used-le-length sentinel (bucket_at t i1) in
              rw m (elim (Bool-cases (bit_and (random r).0 1 == 0)) [
                | inl e ↦
                    rw e (evict-Kicks (random r).1 i2 (random r).0 (inr refl) width2 (ground arith))
                | inr e ↦
                    rw e (evict-Kicks (random r).1 i1 (random r).0 (inl refl) width1 (ground arith))
              ])
        ])
      ]

      pub biased-Kicks :
          (threshold : ℕ)
          → Kicks t i1 i2 k v (biased sentinel bucket_size random threshold r t i1 i2 k v)
      unfolding biased
      biased-Kicks threshold = elim (Bool-cases (ltb c1 bucket_size)) [
        | inl e ↦ rw e (place-Kicks r i1 (inl refl) width1 packed1 (ground arith))
        | inr n ↦ rw n (elim (Bool-cases (ltb c2 bucket_size)) [
          | inl e ↦ rw e (place-Kicks r i2 (inr refl) width2 packed2 (ground arith))
          | inr m ↦ rw m (elim (Bool-cases (ltb threshold (random r).0)) [
            | inl e ↦
                rw e (evict-Kicks (random r).1 i1 (random r).0 (inl refl) width1 (ground arith))
            | inr e ↦
                rw e (evict-Kicks (random r).1 i2 (random r).0 (inr refl) width2 (ground arith))
          ])
        ])
      ]
