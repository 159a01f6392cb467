-- ===== src/Hashtable/Chained/Chain.antt =====
-- One first-level slot with its chain, read as one row of slots.
use mathlib.Core.Option.{or_else}
use hashing_old_archive.Prelude.{ℕ, ◌≡◌, ◌≢◌, refl, List, [], ◌∷◌, ◌++◌, arith}
use hashing_old_archive.Hashtable.Append.{
  seek-append, IsPacked-append_left, IsPacked-append_right, free_behind_room,
}
use hashing_old_archive.Hashtable.Chained.{FirstLevelSlot, lookup_chain, lookup_slot}
use hashing_old_archive.Hashtable.Slots.{Slot, seek, IsPacked, find-seek, find-vacant, seek-AllFree}

module _ {ℓ} {V : Type ℓ} where
  abbrev pub flatten : List (List (Slot V)) → List (Slot V)
  flatten [] = []
  flatten (b ∷ bs) = b ++ flatten bs

  -- The inline slot, then the buckets of the chain.
  abbrev pub row : FirstLevelSlot V → List (Slot V)
  row s = record { key = s.key; payload = s.payload } ∷ flatten s.buckets

module _ {ℓ} {V : Type ℓ} (sentinel : ℕ) (k : ℕ) (ne : k ≢ sentinel) where
  lookup_chain-seek :
      (bs : List (List (Slot V)))
      → IsPacked sentinel (flatten bs)
      → lookup_chain sentinel k bs ≡ seek k (flatten bs)
  unfolding lookup_chain seek or_else
  lookup_chain-seek [] h = refl
  lookup_chain-seek (b ∷ bs) h = rw (seek-append k b (flatten bs)) (
      ground (
        arith,
        lookup_chain-seek bs (IsPacked-append_right sentinel b (flatten bs) h),
        find-seek sentinel k b ne (IsPacked-append_left sentinel b (flatten bs) h),
        find-vacant sentinel k b,
        free_behind_room sentinel b (flatten bs) h,
        seek-AllFree sentinel k (flatten bs) ne,
      ))

  -- A lookup from a packed slot on reads the row.
  pub lookup_slot-seek :
      (s : FirstLevelSlot V) → IsPacked sentinel (row s) → lookup_slot sentinel k s ≡ seek k (row s)
  unfolding lookup_slot seek
  lookup_slot-seek s h = ground (arith, lookup_chain-seek s.buckets h.1)
