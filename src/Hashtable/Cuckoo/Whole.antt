-- ===== src/Hashtable/Cuckoo/Whole.antt =====
-- The constructor, `clear`, and insertion with each of the kicking functions.
use hashing_old_archive.Prelude.{
  ℕ, ◌+◌, ◌*◌, ◌≤◌, ◌^◌, ◌<◌, ◌≡◌, ◌≢◌, ◌∙◌, List, [], ◌∷◌, none, length, inl, length-replicate,
}
use hashing_old_archive.Hashtable.Contents.{bucket_at, contents}
use hashing_old_archive.Hashtable.Cuckoo.Kicking.{balanced-Kicks, biased-Kicks}
use hashing_old_archive.Hashtable.Cuckoo.Move.{IsValid}
use hashing_old_archive.Hashtable.Cuckoo.Lookup.{second_bounds}
use hashing_old_archive.Hashtable.Cuckoo.Refine.{Inserts, insert_from-Inserts}
use hashing_old_archive.Hashtable.Cuckoo.Rows.{IsDistinct}
use hashing_old_archive.Hashtable.Cuckoo.{
  Directory, first, second, insert, balanced, biased, new, clear, directory_address_count,
}
use hashing_old_archive.Hashtable.Slots.{Slot, AllFree, AllFree-IsPacked, seek-AllFree}
use hashing_old_archive.Hashtable.Vacant.{
  IsVacant, bucket-IsVacant, contents-IsVacant, fresh-AllFree, replicate-IsVacant,
  released-IsVacant, length-released, width-released, width-replicate, rounded_up,
}

module _ {ℓ} {V : Type ℓ} (sentinel bucket_size size : ℕ) (p1 p2 : ℕ → ℕ) where
  AllFree-IsDistinct : (b : List (Slot V)) → AllFree sentinel b → IsDistinct sentinel b
  AllFree-IsDistinct [] h = tt
  AllFree-IsDistinct (s ∷ b) h = (inl h.0, AllFree-IsDistinct b h.1)

  vacant-IsValid :
      (t : Directory V)
      → length t ≡ size
      → ((i : ℕ) → i < size → length (bucket_at t i) ≡ bucket_size)
      → IsVacant sentinel t
      → IsValid sentinel bucket_size size p1 p2 t
  vacant-IsValid t sized widths h =
      let free = λ (i : ℕ). bucket-IsVacant sentinel t i h in
      record {
        sized = sized;
        widths = widths;
        packed = λ i. AllFree-IsPacked sentinel (bucket_at t i) (free i);
        distinct = λ i. AllFree-IsDistinct (bucket_at t i) (free i);
        placed = λ q i ne g. absurd (g (seek-AllFree sentinel q (bucket_at t i) ne (free i)));
        apart = λ q i j ne g g'. absurd (g (seek-AllFree sentinel q (bucket_at t i) ne (free i)));
      }

  -- The constructor makes a valid table without contents whose buckets have room for the capacity, with
  -- less than a bucket to spare. A bucket has at least one slot, and the rounding does not wrap in 64 bits.
  pub cuckoo_new-IsValid :
      (capacity : ℕ) (uninitialised : V)
      → 0 < bucket_size
      → capacity + bucket_size ≤ 2 ^ 64
      → directory_address_count bucket_size capacity ≡ size
      → IsValid sentinel bucket_size size p1 p2 (new sentinel bucket_size uninitialised capacity)
        × ((q : ℕ) → contents sentinel (new sentinel bucket_size uninitialised capacity) q ≡ none)
        × (capacity ≤ size * bucket_size)
        × (size * bucket_size < capacity + bucket_size)
  unfolding new directory_address_count
  cuckoo_new-IsValid capacity u some_slots fit e =
      let vacant =
        replicate-IsVacant sentinel (directory_address_count bucket_size capacity) _
          (fresh-AllFree sentinel bucket_size u) in
      let (enough, close) = rounded_up bucket_size capacity some_slots fit in
      (
        vacant-IsValid _ (length-replicate _ _ ∙ e)
            (λ i lt.
              width-replicate sentinel (directory_address_count bucket_size capacity) i _ (rw e lt)
              ∙ length-replicate bucket_size _)
            vacant,
        λ q. contents-IsVacant sentinel _ q vacant,
        rw e at enough,
        rw e at close,
      )

  -- `clear` makes a valid table without contents of any valid table.
  pub cuckoo_clear-IsValid :
      (t : Directory V)
      → IsValid sentinel bucket_size size p1 p2 t
      → IsValid sentinel bucket_size size p1 p2 (clear sentinel t)
        × ((q : ℕ) → contents sentinel (clear sentinel t) q ≡ none)
  unfolding clear
  cuckoo_clear-IsValid t valid = (
    vacant-IsValid _ (length-released sentinel t ∙ valid.sized)
        (λ i lt. width-released sentinel t i ∙ valid.widths i lt) (released-IsVacant sentinel t),
    λ q. contents-IsVacant sentinel _ q (released-IsVacant sentinel t),
  )

module _ (hashfn1 : ℕ → ℕ) (hashfn2 : ℕ → ℕ → ℕ) (reductionfn1 reductionfn2 : ℕ → ℕ) (size : ℕ)
    (in_range1 : (h : ℕ) → reductionfn1 h < size)
    (in_range2 : (h : ℕ) → reductionfn2 h < size) where
  abbrev home1 : ℕ → ℕ
  home1 = first hashfn1 hashfn2 reductionfn1 reductionfn2

  abbrev home2 : ℕ → ℕ
  home2 = second hashfn1 hashfn2 reductionfn1 reductionfn2 size

  home2-lt : (k : ℕ) → home2 k < size
  home2-lt k =
      (second_bounds hashfn1 hashfn2 reductionfn1 reductionfn2 size in_range1 in_range2 k).0

  module _ {ℓ} {V R : Type ℓ} (sentinel bucket_size : ℕ) (sized : 0 < bucket_size)
      (random : R → ℕ × R) where
    -- With `BalancedKicking`, buckets of at least one slot and reductions into the directory, the
    -- insertion of a key other than the sentinel into a valid table ends, whatever the random numbers
    -- are, and leaves a valid table: with the key's payload and all other keys as before or, when it
    -- throws, with one entry lost that completes the table to that.
    pub balanced-insert-Inserts :
        (max_kick_cycle_length k : ℕ) (v : V) (t : Directory V) (r : R)
        → k ≢ sentinel
        → IsValid sentinel bucket_size size home1 home2 t
        → Inserts hashfn1 hashfn2 reductionfn1 reductionfn2 size in_range1 in_range2 sentinel
            bucket_size
            (balanced sentinel bucket_size random)
            k
            v
            t
            (insert hashfn1 hashfn2 reductionfn1 reductionfn2
              (balanced sentinel bucket_size random)
              max_kick_cycle_length
              k
              v
              t
              r)
    unfolding insert
    balanced-insert-Inserts max_kick_cycle_length k v t r ne valid =
        insert_from-Inserts hashfn1 hashfn2 reductionfn1 reductionfn2 size in_range1 in_range2
          sentinel bucket_size (balanced sentinel bucket_size random)
          (λ r t k v ok.
            balanced-Kicks sentinel bucket_size sized t (home1 k) (home2 k) k v random r
              (ok.widths (home1 k) (in_range1 (hashfn1 k))) (ok.widths (home2 k) (home2-lt k))
              (ok.packed (home1 k)) (ok.packed (home2 k)))
          (max_kick_cycle_length + 1) k v t r ne valid

    -- With `BiasedKicking` of any threshold, buckets of at least one slot and reductions into the
    -- directory, the insertion of a key other than the sentinel into a valid table ends, whatever the
    -- random numbers are, and leaves a valid table: with the key's payload and all other keys as before
    -- or, when it throws, with one entry lost that completes the table to that.
    pub biased-insert-Inserts :
        (threshold max_kick_cycle_length k : ℕ) (v : V) (t : Directory V) (r : R)
        → k ≢ sentinel
        → IsValid sentinel bucket_size size home1 home2 t
        → Inserts hashfn1 hashfn2 reductionfn1 reductionfn2 size in_range1 in_range2 sentinel
            bucket_size
            (biased sentinel bucket_size random threshold)
            k
            v
            t
            (insert hashfn1 hashfn2 reductionfn1 reductionfn2
              (biased sentinel bucket_size random threshold)
              max_kick_cycle_length
              k
              v
              t
              r)
    unfolding insert
    biased-insert-Inserts threshold max_kick_cycle_length k v t r ne valid =
        insert_from-Inserts hashfn1 hashfn2 reductionfn1 reductionfn2 size in_range1 in_range2
          sentinel bucket_size (biased sentinel bucket_size random threshold)
          (λ r t k v ok.
            biased-Kicks sentinel bucket_size sized t (home1 k) (home2 k) k v random r
              (ok.widths (home1 k) (in_range1 (hashfn1 k))) (ok.widths (home2 k) (home2-lt k))
              (ok.packed (home1 k)) (ok.packed (home2 k)) threshold)
          (max_kick_cycle_length + 1) k v t r ne valid
