-- ===== src/Hashtable/Chained/Grow.antt =====
-- What inserting into a slot with its chain does to the row of its slots.
use mathlib.Core.List.{append-nil, append_assoc}
use mathlib.Core.Option.{or_else}
use hashing_old_archive.Prelude.{
  ℕ, zero, suc, ◌<◌, ◌≡◌, ◌≢◌, refl, Bool, true, false, List, [], ◌∷◌, ◌++◌, Option, none, some,
  arith, ◌==◌, ◌&&◌, if◌then◌else◌, replicate, eq_cases, ==_refl, ==_of_ne, inl, inr,
}
use hashing_old_archive.Hashtable.Append.{seek-append, store-append, IsPacked-append_full, behind}
use hashing_old_archive.Hashtable.Chained.Chain.{flatten, row}
use hashing_old_archive.Hashtable.Chained.{FirstLevelSlot, new_bucket, insert_chain, insert_slot}
use hashing_old_archive.Hashtable.Slots.{
  Slot, Stored, stored, duplicate, full, store, seek, AllFree, IsPacked, seek-AllFree, seek-store,
  store-IsPacked, AllFree-IsPacked, store-full, store-duplicate, store-stored_absent,
}

module _ {ℓ} {V : Type ℓ} where
  -- A row after the walk: the entry stored, the row as it was, or a new bucket behind it.
  abbrev pub grown : List (Slot V) → List (Slot V) → Stored V → List (Slot V)
  grown c fresh (stored c') = c'
  grown c fresh duplicate = c
  grown c fresh full = c ++ fresh

  abbrev pub is_new : Stored V → Bool
  is_new (stored c) = true
  is_new duplicate = false
  is_new full = true

  grown-behind :
      (b c fresh : List (Slot V)) (r : Stored V)
      → grown (b ++ c) fresh (behind b r) ≡ b ++ grown c fresh r
  grown-behind b c fresh (stored d) = refl
  grown-behind b c fresh duplicate = refl
  grown-behind b c fresh full = append_assoc b c fresh

  is_new-behind : (b : List (Slot V)) (r : Stored V) → is_new (behind b r) ≡ is_new r
  is_new-behind b (stored d) = refl
  is_new-behind b duplicate = refl
  is_new-behind b full = refl

module _ {ℓ} {V : Type ℓ} (sentinel bucket_size : ℕ) (uninitialised : V) (k : ℕ) (v : V) where
  abbrev fresh : List (Slot V)
  fresh = new_bucket sentinel bucket_size uninitialised k v

  insert_chain-store :
      (bs : List (List (Slot V)))
      → (flatten (insert_chain sentinel bucket_size uninitialised k v bs).1
          ≡ grown (flatten bs) fresh (store sentinel k v (flatten bs)))
        × ((insert_chain sentinel bucket_size uninitialised k v bs).0
            ≡ is_new (store sentinel k v (flatten bs)))
  unfolding insert_chain store
  insert_chain-store [] = (append-nil fresh, refl)
  insert_chain-store (b ∷ bs) = rw (store-append sentinel k v b (flatten bs)) (
      ground (
        arith,
        insert_chain-store bs,
        grown-behind b (flatten bs) fresh (store sentinel k v (flatten bs)),
        is_new-behind b (store sentinel k v (flatten bs)),
      ))

-- The payload under a key once an insertion has returned: the first one that was inserted.
abbrev pub kept {ℓ} : {V : Type ℓ} → Option V → V → V
kept (some old) v = old
kept none v = v

module _ {ℓ} {V : Type ℓ} (sentinel bucket_size : ℕ) (uninitialised : V) (sized : 0 < bucket_size)
    (k : ℕ) (v : V) (ne : k ≢ sentinel) where
  free_slots :
      (n : ℕ) → AllFree sentinel (replicate n (record { key = sentinel; payload = uninitialised }))
  free_slots zero = tt
  free_slots (suc n) = (refl, free_slots n)

  new_bucket-cons :
      (n : ℕ)
      → 0 < n
      → (b : List (Slot V)) × (new_bucket sentinel n uninitialised k v
          ≡ record { key = k; payload = v } ∷ b)
        × AllFree sentinel b
  unfolding new_bucket
  new_bucket-cons zero h = absurd (omega arith)
  new_bucket-cons (suc n) h = (replicate n _, refl, free_slots n)

  abbrev chain : List (Slot V) → List (Slot V)
  chain c = grown c (new_bucket sentinel bucket_size uninitialised k v) (store sentinel k v c)

  grown-IsPacked : (c : List (Slot V)) → IsPacked sentinel c → IsPacked sentinel (chain c)
  grown-IsPacked c h =
      let (b, e, free) = new_bucket-cons bucket_size sized in
      rw e (
        ground (
          arith,
          store-IsPacked sentinel k v c h,
          store-full sentinel k v c,
          IsPacked-append_full sentinel c (record { key = k; payload = v } ∷ b),
          AllFree-IsPacked sentinel b free,
        ))

  seek-grown :
      (q : ℕ) (c : List (Slot V))
      → q ≢ sentinel
      → IsPacked sentinel c
      → seek q (chain c) ≡ (if is_new (store sentinel k v c) && (q == k) then some v else seek q c)
  unfolding seek or_else
  seek-grown q c nq h =
      let (b, e, free) = new_bucket-cons bucket_size sized in
      rw e (
        ground (
          arith,
          seek-store sentinel k v ne q c nq h,
          store-full sentinel k v c,
          seek-append q c (record { key = k; payload = v } ∷ b),
          seek-AllFree sentinel q b nq free,
        ))

  is_new-absent :
      (c : List (Slot V))
      → IsPacked sentinel c
      → is_new (store sentinel k v c) ≡ true
      → seek k c ≡ none
  is_new-absent c h e =
      ground (arith, store-stored_absent sentinel k v ne c h, store-full sentinel k v c)

  is_new_of_absent : (c : List (Slot V)) → seek k c ≡ none → is_new (store sentinel k v c) ≡ true
  is_new_of_absent c e = ground (arith, store-duplicate sentinel k v c)

  -- In the row of the chain the first payload stays.
  seek-grown_kept :
      (c : List (Slot V)) → IsPacked sentinel c → seek k (chain c) ≡ some (kept (seek k c) v)
  seek-grown_kept c h =
      rw (seek-grown k c ne h, ==_refl) (ground (arith, is_new-absent c h, is_new_of_absent c))

  seek-grown_other :
      (q : ℕ) (c : List (Slot V))
      → q ≢ sentinel
      → q ≢ k
      → IsPacked sentinel c
      → seek q (chain c) ≡ seek q c
  seek-grown_other q c nq other h = rw (seek-grown q c nq h, ==_of_ne q k other) (ground arith)

  module _ (s : FirstLevelSlot V) (packed : IsPacked sentinel (row s)) where
    abbrev result : Bool × FirstLevelSlot V
    result = insert_slot sentinel bucket_size uninitialised k v s

    pub insert_slot-IsPacked : IsPacked sentinel (row result.1)
    unfolding insert_slot
    insert_slot-IsPacked = ground (
      arith,
      insert_chain-store sentinel bucket_size uninitialised k v s.buckets,
      grown-IsPacked (flatten s.buckets) packed.1,
    )

    -- The key keeps the payload that it has, or gets the new one; other keys keep theirs.
    pub seek-insert_slot :
        (q : ℕ)
        → q ≢ sentinel
        → seek q (row result.1)
          ≡ (if q == k then some (kept (seek k (row s)) v) else seek q (row s))
    unfolding insert_slot seek
    seek-insert_slot q nq = elim (eq_cases q k) [
      | inl e ↦
          rw (e, ==_refl)
            (ground (
              arith,
              insert_chain-store sentinel bucket_size uninitialised k v s.buckets,
              seek-grown_kept (flatten s.buckets) packed.1,
              seek-AllFree sentinel k (flatten s.buckets) ne,
            ))
      | inr other ↦ rw (==_of_ne q k other) (
          ground (
            arith,
            insert_chain-store sentinel bucket_size uninitialised k v s.buckets,
            seek-grown_other q (flatten s.buckets) nq other packed.1,
          ))
    ]

    pub insert_slot_absent : seek k (row s) ≡ none → result.0 ≡ true
    unfolding insert_slot seek
    insert_slot_absent h = ground (
      arith,
      insert_chain-store sentinel bucket_size uninitialised k v s.buckets,
      is_new_of_absent (flatten s.buckets),
    )

    -- The inline slot is not compared with the key.
    pub insert_slot_again : s.key ≡ k → seek k (flatten s.buckets) ≡ none → result.0 ≡ true
    unfolding insert_slot
    insert_slot_again e h = ground (
      arith,
      insert_chain-store sentinel bucket_size uninitialised k v s.buckets,
      is_new_of_absent (flatten s.buckets),
    )
