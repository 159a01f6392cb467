-- ===== src/Hashtable/Chained.antt =====
-- `Chained` of hashtable/include/chained.hpp. A bucket chain belongs to one first-level slot and is
-- reached through it alone, so the linked list is a list and the null pointer its end.
pub mod Chain
pub mod Grow
pub mod Lookup
pub mod Refine
pub mod Whole
mod Tests
use hashing_old_archive.Prelude.{
  ℕ, zero, suc, ◌+◌, ◌^◌, ◌-◌, Bool, true, false, List, [], ◌∷◌, Option, none, some, ◌==◌,
  if◌then◌else◌, length, get_elem?, set, replicate, map, min, max,
}
use hashing_old_archive.Hashtable.Outcome.{Outcome, done, out_of_range}
use hashing_old_archive.Hashtable.Slots.{
  Slot, stored, duplicate, full, found, vacant, missed, store, find,
}

-- `FirstLevelSlot`, with the chain that its pointer leads to.
pub record FirstLevelSlot {ℓ} (V : Type ℓ) : Type ℓ where
  pub key : ℕ
  pub payload : V
  pub buckets : List (List (Slot V))

abbrev pub Directory {ℓ} : Type ℓ → Type ℓ
Directory V = List (FirstLevelSlot V)

-- `Bucket()`, whose slots are free with payloads that are not initialised, and the write to its
-- first slot.
unfoldable pub new_bucket {ℓ} : {V : Type ℓ} → ℕ → ℕ → V → ℕ → V → List (Slot V)
new_bucket sentinel bucket_size uninitialised k v =
    set (replicate bucket_size (record { key = sentinel; payload = uninitialised })) 0
      (record { key = k; payload = v })

-- The constructor; `directory_address_count` is the capacity.
unfoldable pub new {ℓ} : {V : Type ℓ} → ℕ → V → ℕ → Directory V
new sentinel uninitialised capacity =
    replicate capacity (record { key = sentinel; payload = uninitialised; buckets = [] })

-- One round of `clear`: the chain is deleted, the payload stays.
unfoldable pub clear_slot {ℓ} : {V : Type ℓ} → ℕ → FirstLevelSlot V → FirstLevelSlot V
clear_slot sentinel s = record s { key = sentinel; buckets = [] }

unfoldable pub clear {ℓ} : {V : Type ℓ} → ℕ → Directory V → Directory V
unfolding clear_slot
clear sentinel = map (clear_slot sentinel)

module _ {ℓ} {V : Type ℓ} (sentinel bucket_size : ℕ) (uninitialised : V) where
  -- The walk along the chain; at its end, and where there is no chain, a new bucket is made.
  pub insert_chain : ℕ → V → List (List (Slot V)) → Bool × List (List (Slot V))
  insert_chain k v [] = (true, new_bucket sentinel bucket_size uninitialised k v ∷ [])
  insert_chain k v (b ∷ bs) =
      let (added, bs') = insert_chain k v bs in
      elim (store sentinel k v b) [
        | stored b' ↦ (true, b' ∷ bs)
        | duplicate ↦ (false, b ∷ bs)
        | full ↦ (added, b ∷ bs')
      ]

  -- `insert`, from the first-level slot on.
  pub insert_slot : ℕ → V → FirstLevelSlot V → Bool × FirstLevelSlot V
  insert_slot k v s =
      if s.key == sentinel
      then (true, record s { key = k; payload = v })
      else (let (added, bs) = insert_chain k v s.buckets in (added, record s { buckets = bs }))

  unfoldable pub insert : (ℕ → ℕ) → (ℕ → ℕ) → ℕ → V → Directory V → Outcome (Bool × Directory V)
  unfolding insert_slot insert_chain
  insert hashfn reductionfn k v t =
      if k == sentinel then done (false, t) else elim (get_elem? t (reductionfn (hashfn k))) [
        | none ↦ out_of_range
        | some s ↦
            let (added, s') = insert_slot k v s in done (added, set t (reductionfn (hashfn k)) s')
      ]

module _ {ℓ} {V : Type ℓ} (sentinel : ℕ) where
  pub lookup_chain : ℕ → List (List (Slot V)) → Option V
  lookup_chain k [] = none
  lookup_chain k (b ∷ bs) =
      let later = lookup_chain k bs in
      elim (find sentinel k b) [ found v ↦ some v | vacant ↦ none | missed ↦ later ]

  pub lookup_slot : ℕ → FirstLevelSlot V → Option V
  lookup_slot k s = if s.key == k then some s.payload else lookup_chain k s.buckets

  -- The assertion on the sentinel is left out, as with NDEBUG; so it is in `insert`.
  unfoldable pub lookup : (ℕ → ℕ) → (ℕ → ℕ) → ℕ → Directory V → Outcome (Option V)
  unfolding lookup_slot lookup_chain
  lookup hashfn reductionfn k t =
      if k == sentinel then done none else elim (get_elem? t (reductionfn (hashfn k))) [
        | none ↦ out_of_range
        | some s ↦ done (lookup_slot k s)
      ]
