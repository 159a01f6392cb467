-- ===== src/Hashtable/Probing/Whole.antt =====
-- The constructor, `clear` and linear probing, for the table of hashtable/include/probing.hpp.
use hashing_old_archive.Prelude.{
  ℕ, ◌+◌, ◌*◌, ◌<◌, ◌≤◌, ◌≡◌, ◌≢◌, ◌^◌, ◌∙◌, none, length, length-replicate, Bool, true, false,
}
use hashing_old_archive.Hashtable.Contents.{bucket_at, contents}
use hashing_old_archive.Hashtable.Outcome.{Outcome, done, thrown, out_of_range, out_of_fuel}
use hashing_old_archive.Hashtable.Probing.{
  Prober, Directory, home, insert, new, clear, directory_address_count,
}
use hashing_old_archive.Hashtable.Probing.Functions.{linear_prober, linear_reaches}
use hashing_old_archive.Hashtable.Probing.Insert.{Inserts, probing_insert-Inserts}
use hashing_old_archive.Hashtable.Probing.Invariant.{IsValid}
use hashing_old_archive.Hashtable.Vacant.{
  IsVacant, bucket-IsVacant, contents-IsVacant, fresh-AllFree, replicate-IsVacant,
  released-IsVacant, length-released, width-replicate, rounded_up,
}
use hashing_old_archive.Hashtable.Slots.{seek, AllFree-IsPacked, seek-AllFree}

module _ {ℓ} {V : Type ℓ} (sentinel : ℕ) where
  -- A directory of the right width with free slots only is valid, whatever the hash functions are.
  vacant-IsValid :
      (p : Prober) (hashfn reductionfn : ℕ → ℕ) (t : Directory V)
      → length t ≡ p.directory_size
      → IsVacant sentinel t
      → IsValid p sentinel hashfn reductionfn t
  vacant-IsValid p hashfn reductionfn t width h = record {
    width = width;
    packed = λ i. AllFree-IsPacked sentinel (bucket_at t i) (bucket-IsVacant sentinel t i h);
    placed = λ q j ne g.
        absurd (g (seek-AllFree sentinel q (bucket_at t j) ne (bucket-IsVacant sentinel t j h)));
  }

  module _ (p : Prober) (hashfn reductionfn : ℕ → ℕ) where
    -- The constructor makes a valid table without contents, for a probing function of the directory's
    -- size. Its buckets have the given number of slots, at least one, and room for the capacity with less
    -- than a bucket to spare; the rounding does not wrap in 64 bits.
    pub probing_new-IsValid :
        (bucket_size capacity : ℕ) (uninitialised : V)
        → 0 < bucket_size
        → capacity + bucket_size ≤ 2 ^ 64
        → directory_address_count bucket_size capacity ≡ p.directory_size
        → IsValid p sentinel hashfn reductionfn (new sentinel bucket_size uninitialised capacity)
          × ((q : ℕ) → contents sentinel (new sentinel bucket_size uninitialised capacity) q ≡ none)
          × ((i : ℕ)
              → i < p.directory_size
              → length (bucket_at (new sentinel bucket_size uninitialised capacity) i)
                ≡ bucket_size)
          × (capacity ≤ p.directory_size * bucket_size)
          × (p.directory_size * bucket_size < capacity + bucket_size)
    unfolding new directory_address_count
    probing_new-IsValid bucket_size capacity uninitialised some_slots fit e =
        let vacant =
          replicate-IsVacant sentinel (directory_address_count bucket_size capacity) _
            (fresh-AllFree sentinel bucket_size uninitialised) in
        let (enough, close) = rounded_up bucket_size capacity some_slots fit in
        (
          vacant-IsValid p hashfn reductionfn _ (length-replicate _ _ ∙ e) vacant,
          λ q. contents-IsVacant sentinel _ q vacant,
          (λ i lt.
              width-replicate sentinel (directory_address_count bucket_size capacity) i _ (rw e lt)
              ∙ length-replicate bucket_size _),
          rw e at enough,
          rw e at close,
        )

    -- `clear` makes a valid table without contents of any table of the directory's size.
    pub probing_clear-IsValid :
        (t : Directory V)
        → length t ≡ p.directory_size
        → IsValid p sentinel hashfn reductionfn (clear sentinel t)
          × ((q : ℕ) → contents sentinel (clear sentinel t) q ≡ none)
    unfolding clear
    probing_clear-IsValid t width = (
      vacant-IsValid p hashfn reductionfn _ (length-released sentinel t ∙ width)
          (released-IsVacant sentinel t),
      λ q. contents-IsVacant sentinel _ q (released-IsVacant sentinel t),
    )

module _ {ℓ} {V : Type ℓ} (n sentinel : ℕ) (fit : n ≤ 2 ^ 63) (hashfn reductionfn : ℕ → ℕ)
    (in_range : (k : ℕ) → home hashfn reductionfn k < n) {t : Directory V}
    (valid : IsValid (linear_prober n fit) sentinel hashfn reductionfn t) where
  crowded_everywhere :
      (k : ℕ) (v : V) (r : Outcome (Bool × Directory V))
      → r ≡ thrown
      → Inserts (linear_prober n fit) sentinel hashfn reductionfn k v t r
      → (j : ℕ) → j < n
      → seek sentinel (bucket_at t j) ≡ none
  crowded_everywhere k v (done (true, u)) e h j lt = cc
  crowded_everywhere k v (done (false, u)) e h j lt = cc
  crowded_everywhere k v thrown e h j lt =
      let (s, less, crowded, back) = h.1 in
      let (r, le, lands) =
        linear_reaches n fit (home hashfn reductionfn k) s j (in_range k) lt less back in
      rw lands at (crowded r le)
  crowded_everywhere k v out_of_range e h j lt = cc
  crowded_everywhere k v out_of_fuel e h j lt = cc

  -- With linear probing in a directory of at most 2 ^ 63 buckets, the insertion of a key other than the
  -- sentinel into a valid table throws only if no bucket has a free slot.
  pub linear_insert-thrown :
      (k : ℕ) (v : V)
      → k ≢ sentinel
      → insert (linear_prober n fit) sentinel hashfn reductionfn k v t ≡ thrown
      → (j : ℕ) → j < n
      → seek sentinel (bucket_at t j) ≡ none
  linear_insert-thrown k v ne e = crowded_everywhere k v _ e (
      probing_insert-Inserts (linear_prober n fit) sentinel hashfn reductionfn in_range valid k v
        ne)
