-- ===== src/Hashtable/Cuckoo.antt =====
-- `Cuckoo` of hashtable/include/cuckoo.hpp with its kicking functions. The hash functions, the
-- reductions and the random number generator are parameters.
pub mod Rows
pub mod Kicking
pub mod Move
pub mod Update
pub mod Lookup
pub mod Refine
pub mod Whole
mod Tests
use hashing_old_archive.Prelude.{
  ℕ, zero, suc, ◌+◌, ◌-◌, ◌/◌, ◌%◌, ◌^◌, Bool, true, false, List, [], ◌∷◌, Option, none, some, ◌==◌,
  ◌&&◌, ltb, leb, if◌then◌else◌, length, get_elem?, set, replicate, map, bit_and,
}
use hashing_old_archive.Hashtable.Contents.{bucket_at}
use hashing_old_archive.Hashtable.Outcome.{Outcome, done, out_of_range}
use hashing_old_archive.Hashtable.Slots.{Slot, release}

abbrev pub Directory {ℓ} : Type ℓ → Type ℓ
Directory V = List (List (Slot V))

-- What a kicking function leaves: the directory, the entry that it kicked out, and the generator.
pub record Kicked {ℓ} (V R : Type ℓ) : Type ℓ where
  pub table : Directory V
  pub kicked : Option (Slot V)
  pub rng : R

-- The slots in use: `c1` and `c2`.
unfoldable pub used {ℓ} : {V : Type ℓ} → ℕ → List (Slot V) → ℕ
used sentinel [] = 0
used sentinel (s ∷ b) = let rest = used sentinel b in if s.key == sentinel then rest else suc rest

abbrev pub write {ℓ} : {V : Type ℓ} → Directory V → ℕ → ℕ → ℕ → V → Directory V
write t i c k v = set t i (set (bucket_at t i) c (record { key = k; payload = v }))

module _ {ℓ} {V R : Type ℓ} where
  -- `slots[c] = {key, payload}` in one of the buckets; none for an index out of range.
  unfoldable pub place : R → Directory V → ℕ → ℕ → ℕ → V → Option (Kicked V R)
  place r t i c k v = elim (get_elem? (bucket_at t i) c) [
    | none ↦ none
    | some s ↦ some (record { table = write t i c k v; kicked = none; rng = r })
  ]

  -- The victim of one of the buckets gives way.
  unfoldable pub evict : R → Directory V → ℕ → ℕ → ℕ → V → Option (Kicked V R)
  evict r t i c k v = elim (get_elem? (bucket_at t i) c) [
    | none ↦ none
    | some s ↦ some (record { table = write t i c k v; kicked = some s; rng = r })
  ]

module _ {ℓ} {V R : Type ℓ} (sentinel bucket_size : ℕ) (random : R → ℕ × R) where
  -- `BalancedKicking`.
  unfoldable pub balanced : R → Directory V → ℕ → ℕ → ℕ → V → Option (Kicked V R)
  balanced r t i1 i2 k v =
      let c1 = used sentinel (bucket_at t i1) in
      let c2 = used sentinel (bucket_at t i2) in
      let (rng, r') = random r in
      if leb c1 c2 && ltb c1 bucket_size
      then place r t i1 c1 k v
      else (if ltb c2 bucket_size
          then place r t i2 c2 k v
          else evict r' t (if bit_and rng 1 == 0 then i2 else i1) (rng % bucket_size) k v)

  -- `BiasedKicking`, by its threshold.
  unfoldable pub biased : ℕ → R → Directory V → ℕ → ℕ → ℕ → V → Option (Kicked V R)
  biased threshold r t i1 i2 k v =
      let c1 = used sentinel (bucket_at t i1) in
      let c2 = used sentinel (bucket_at t i2) in
      let (rng, r') = random r in
      if ltb c1 bucket_size
      then place r t i1 c1 k v
      else (if ltb c2 bucket_size
          then place r t i2 c2 k v
          else evict r' t (if ltb threshold rng then i1 else i2) (rng % bucket_size) k v)

-- On a `size_t` of 64 bits.
unfoldable pub directory_address_count : ℕ → ℕ → ℕ
directory_address_count bucket_size capacity =
    (capacity + bucket_size + 2 ^ 64 - 1) % 2 ^ 64 / bucket_size

unfoldable pub new {ℓ} : {V : Type ℓ} → ℕ → ℕ → V → ℕ → Directory V
unfolding directory_address_count
new sentinel bucket_size uninitialised capacity =
    replicate (directory_address_count bucket_size capacity)
      (replicate bucket_size (record { key = sentinel; payload = uninitialised }))

unfoldable pub clear {ℓ} : {V : Type ℓ} → ℕ → Directory V → Directory V
clear sentinel = map (map (release sentinel))

-- Where the update loop finds the key: in the bucket that is named, with the payload replaced.
pub data Updated {ℓ} (V : Type ℓ) : Type ℓ where
  in_first : List (Slot V) → Updated V
  in_second : List (Slot V) → Updated V
  nowhere : Updated V

-- How `insert` ends; a throw loses the entry that it still holds.
pub data Inserted {ℓ} (V R : Type ℓ) : Type ℓ where
  inserted : Directory V → R → Inserted V R
  thrown : Slot V → Directory V → R → Inserted V R
  bad_index : Inserted V R

module _ {ℓ} {V : Type ℓ} where
  -- The loop over both buckets at once.
  pub update_either : ℕ → V → List (Slot V) → List (Slot V) → Updated V
  update_either k v [] c = nowhere
  update_either k v (s ∷ b) [] = nowhere
  update_either k v (s ∷ b) (r ∷ c) =
      if s.key == k
      then in_first (record s { payload = v } ∷ b)
      else (if r.key == k
          then in_second (record r { payload = v } ∷ c)
          else elim (update_either k v b c) [
            | in_first b' ↦ in_first (s ∷ b')
            | in_second c' ↦ in_second (r ∷ c')
            | nowhere ↦ nowhere
          ])

  -- The loop over one bucket in `lookup`, which does not stop at a free slot.
  pub find_key : ℕ → List (Slot V) → Option V
  find_key k [] = none
  find_key k (s ∷ b) = if s.key == k then some s.payload else find_key k b

module _ (hashfn1 : ℕ → ℕ) (hashfn2 : ℕ → ℕ → ℕ) (reductionfn1 reductionfn2 : ℕ → ℕ) where
  abbrev pub first : ℕ → ℕ
  first k = reductionfn1 (hashfn1 k)

  -- The second bucket, moved to the next one if it is the first.
  unfoldable pub second : ℕ → ℕ → ℕ
  second size k =
      let i2 = reductionfn2 (hashfn2 k (hashfn1 k)) in
      if i2 == first k then (if first k == size - 1 then 0 else first k + 1) else i2

  module _ {ℓ} {V : Type ℓ} where
    unfoldable pub lookup : ℕ → Directory V → Outcome (Option V)
    unfolding find_key
    lookup k t = elim (get_elem? t (first k)) [
      | none ↦ out_of_range
      | some b1 ↦ elim (find_key k b1) [
        | some v ↦ done (some v)
        | none ↦ elim (get_elem? t (second (length t) k)) [
          | none ↦ out_of_range
          | some b2 ↦ done (find_key k b2)
        ]
      ]
    ]

  module _ {ℓ} {V R : Type ℓ}
      (kickingfn : R → Directory V → ℕ → ℕ → ℕ → V → Option (Kicked V R)) where
    -- The body behind `start:`, by the kicks that are left.
    pub insert_from : ℕ → ℕ → V → Directory V → R → Inserted V R
    insert_from zero k v t r = thrown (record { key = k; payload = v }) t r
    insert_from (suc left) k v t r = elim (get_elem? t (first k)) [
      | none ↦ bad_index
      | some b1 ↦ elim (get_elem? t (second (length t) k)) [
        | none ↦ bad_index
        | some b2 ↦ elim (update_either k v b1 b2) [
          | in_first b ↦ inserted (set t (first k) b) r
          | in_second b ↦ inserted (set t (second (length t) k) b) r
          | nowhere ↦ elim (kickingfn r t (first k) (second (length t) k) k v) [
            | none ↦ bad_index
            | some out ↦ elim out.kicked [
              | none ↦ inserted out.table out.rng
              | some s ↦ insert_from left s.key s.payload out.table out.rng
            ]
          ]
        ]
      ]
    ]

    -- `insert`: the kick counter starts at 0 and may reach `MaxKickCycleLength`.
    unfoldable pub insert : ℕ → ℕ → V → Directory V → R → Inserted V R
    unfolding insert_from update_either
    insert max_kick_cycle_length k v t r = insert_from (max_kick_cycle_length + 1) k v t r
