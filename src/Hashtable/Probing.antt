-- ===== src/Hashtable/Probing.antt =====
-- `Probing` of hashtable/include/probing.hpp. The hash function and the reduction are template
-- parameters of the class; the probing function is one too, with the laws of `Prober`.
pub mod Walk
pub mod Invariant
pub mod Lookup
pub mod Insert
pub mod Functions
pub mod Whole
mod Tests
use hashing_old_archive.Prelude.{
  ℕ, zero, suc, ◌+◌, ◌-◌, ◌/◌, ◌%◌, ◌^◌, ◌<◌, ◌≤◌, ◌≡◌, Bool, true, false, List, [], ◌∷◌, Option,
  none, some, ◌==◌, if◌then◌else◌, length, get_elem?, set, replicate, map,
}
use hashing_old_archive.Hashtable.Outcome.{Outcome, done, thrown, out_of_range, out_of_fuel}
use hashing_old_archive.Hashtable.Slots.{
  Slot, stored, duplicate, full, found, vacant, missed, store, find, release,
}

-- What `Probing` needs of its probing function for a directory of some size: it starts at the
-- given index, stays in the directory, and is back where it started after as many steps as there
-- are buckets.
pub record Prober : Type 0 where
  pub directory_size : ℕ
  pub probe : ℕ → ℕ → ℕ
  pub starts : (i : ℕ) → i < directory_size → probe i 0 ≡ i
  pub stays : (i s : ℕ) → i < directory_size → s ≤ directory_size → probe i s < directory_size
  pub cycles : (i : ℕ) → i < directory_size → probe i directory_size ≡ i

abbrev pub Directory {ℓ} : Type ℓ → Type ℓ
Directory V = List (List (Slot V))

-- `directory_address_count`, on a `size_t` of 64 bits.
unfoldable pub directory_address_count : ℕ → ℕ → ℕ
directory_address_count bucket_size capacity =
    (capacity + bucket_size + 2 ^ 64 - 1) % 2 ^ 64 / bucket_size

-- The constructor: the payload of a new slot is not initialised.
unfoldable pub new {ℓ} : {V : Type ℓ} → ℕ → ℕ → V → ℕ → Directory V
unfolding directory_address_count
new sentinel bucket_size uninitialised capacity =
    replicate (directory_address_count bucket_size capacity)
      (replicate bucket_size (record { key = sentinel; payload = uninitialised }))

-- `clear` frees every slot and leaves its payload.
unfoldable pub clear {ℓ} : {V : Type ℓ} → ℕ → Directory V → Directory V
clear sentinel = map (map (release sentinel))

-- `reductionfn(hashfn(key))`
abbrev pub home : (ℕ → ℕ) → (ℕ → ℕ) → ℕ → ℕ
home hashfn reductionfn k = reductionfn (hashfn k)

module _ {ℓ} {V : Type ℓ} (p : Prober) (sentinel : ℕ) (hashfn reductionfn : ℕ → ℕ) where
  -- The `for (;;)` of `insert`, at a probing step; the walk ends within `directory_size` steps, so
  -- the step does not wrap.
  pub insert_from : ℕ → ℕ → ℕ → V → ℕ → Directory V → Outcome (Bool × Directory V)
  insert_from zero step k v slot_index t = out_of_fuel
  insert_from (suc fuel) step k v slot_index t = elim (get_elem? t slot_index) [
    | none ↦ out_of_range
    | some b ↦ elim (store sentinel k v b) [
      | stored b' ↦ done (true, set t slot_index b')
      | duplicate ↦ done (false, t)
      | full ↦ elim (p.probe (home hashfn reductionfn k) (step + 1) == home hashfn reductionfn k) [
        | true ↦ thrown
        | false ↦ insert_from fuel (step + 1) k v (p.probe (home hashfn reductionfn k) (step + 1)) t
      ]
    ]
  ]

  -- The assertion on the sentinel is left out, as with NDEBUG; the theorems on `insert` exclude it.
  unfoldable pub insert : ℕ → V → Directory V → Outcome (Bool × Directory V)
  unfolding insert_from
  insert k v t =
      if k == sentinel
      then done (false, t)
      else insert_from (length t) 0 k v (home hashfn reductionfn k) t

  -- The `for (;;)` of `lookup`.
  pub lookup_from : ℕ → ℕ → ℕ → ℕ → Directory V → Outcome (Option V)
  lookup_from zero step k slot_index t = out_of_fuel
  lookup_from (suc fuel) step k slot_index t = elim (get_elem? t slot_index) [
    | none ↦ out_of_range
    | some b ↦ elim (find sentinel k b) [
      | found v ↦ done (some v)
      | vacant ↦ done none
      | missed ↦
          elim (p.probe (home hashfn reductionfn k) (step + 1) == home hashfn reductionfn k) [
            | true ↦ done none
            | false ↦
                lookup_from fuel (step + 1) k (p.probe (home hashfn reductionfn k) (step + 1)) t
          ]
    ]
  ]

  -- The assertion on the sentinel is left out, too.
  unfoldable pub lookup : ℕ → Directory V → Outcome (Option V)
  unfolding lookup_from
  lookup k t =
      if k == sentinel then done none else lookup_from (length t) 0 k (home hashfn reductionfn k) t
