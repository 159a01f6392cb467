-- ===== src/Hashtable/Slots.antt =====
-- The slots of a bucket and the loops over them that the hashtables of hashtable/include share.
-- A free slot holds the sentinel as its key, so a slot is free exactly if seeking the sentinel
-- finds it.
use hashing_old_archive.Prelude.{
  ℕ, ◌≡◌, ◌≢◌, refl, List, [], ◌∷◌, Option, none, some, arith, ◌==◌, if◌then◌else◌, length, Bool,
  true, false, ◌&&◌,
}

pub record Slot {ℓ} (V : Type ℓ) : Type ℓ where
  pub key : ℕ
  pub payload : V

-- How the insertion loop leaves a bucket: the entry stored, the key met, or no room.
pub data Stored {ℓ} (V : Type ℓ) : Type ℓ where
  stored : List (Slot V) → Stored V
  duplicate : Stored V
  full : Stored V

-- How the lookup loop leaves a bucket: a payload, a free slot met, or the end.
pub data Found {ℓ} (V : Type ℓ) : Type ℓ where
  found : V → Found V
  vacant : Found V
  missed : Found V

module _ {ℓ} {V : Type ℓ} where
  abbrev pub prepend : Slot V → Stored V → Stored V
  prepend s (stored b) = stored (s ∷ b)
  prepend s duplicate = duplicate
  prepend s full = full

  unfoldable pub store : ℕ → ℕ → V → List (Slot V) → Stored V
  store sentinel k v [] = full
  store sentinel k v (s ∷ b) =
      if s.key == sentinel
      then stored (record { key = k; payload = v } ∷ b)
      else (if s.key == k then duplicate else prepend s (store sentinel k v b))

  unfoldable pub find : ℕ → ℕ → List (Slot V) → Found V
  find sentinel k [] = missed
  find sentinel k (s ∷ b) =
      if s.key == k
      then found s.payload
      else (if s.key == sentinel then vacant else find sentinel k b)

  -- The first payload under a key, whatever stands in front of it.
  unfoldable pub seek : ℕ → List (Slot V) → Option V
  seek k [] = none
  seek k (s ∷ b) = if s.key == k then some s.payload else seek k b

  -- Behind a free slot all slots are free.
  abbrev pub AllFree : ℕ → List (Slot V) → Type 0
  AllFree sentinel [] = Unit
  AllFree sentinel (s ∷ b) = (s.key ≡ sentinel) × AllFree sentinel b

  abbrev pub IsPacked : ℕ → List (Slot V) → Type 0
  IsPacked sentinel [] = Unit
  IsPacked sentinel (s ∷ b) = (s.key ≡ sentinel → AllFree sentinel b) × IsPacked sentinel b

  abbrev pub payload? : Found V → Option V
  payload? (found v) = some v
  payload? vacant = none
  payload? missed = none

  -- The bucket after the loop.
  abbrev pub after : List (Slot V) → Stored V → List (Slot V)
  after b (stored b') = b'
  after b duplicate = b
  after b full = b

  abbrev pub is_stored : Stored V → Bool
  is_stored (stored b) = true
  is_stored duplicate = false
  is_stored full = false

  -- `slot.key = Sentinel`, as `clear` does; the payload stays.
  unfoldable pub release : ℕ → Slot V → Slot V
  release sentinel s = record s { key = sentinel }

module _ {ℓ} {V : Type ℓ} (sentinel : ℕ) where
  pub seek-AllFree :
      (k : ℕ) (b : List (Slot V)) → k ≢ sentinel → AllFree sentinel b → seek k b ≡ none
  unfolding seek
  seek-AllFree k [] ne h = refl
  seek-AllFree k (s ∷ b) ne h = ground (arith, seek-AllFree k b)

  pub AllFree-IsPacked : (b : List (Slot V)) → AllFree sentinel b → IsPacked sentinel b
  AllFree-IsPacked [] h = tt
  AllFree-IsPacked (s ∷ b) h = (λ _. h.1, AllFree-IsPacked b h.1)

  pub find-seek :
      (k : ℕ) (b : List (Slot V))
      → k ≢ sentinel
      → IsPacked sentinel b
      → payload? (find sentinel k b) ≡ seek k b
  unfolding find seek
  find-seek k [] ne h = refl
  find-seek k (s ∷ b) ne h = ground (arith, find-seek k b ne h.1, seek-AllFree k b ne)

  pub find-missed :
      (k : ℕ) (b : List (Slot V))
      → find sentinel k b ≡ missed
      → (seek sentinel b ≡ none) × (seek k b ≡ none)
  unfolding find seek
  find-missed k [] h = (refl, refl)
  find-missed k (s ∷ b) h = ground (arith, find-missed k b)

  pub find-found :
      (k : ℕ) (b : List (Slot V)) (v : V) → find sentinel k b ≡ found v → seek k b ≡ some v
  unfolding find seek
  find-found k [] v h = absurd (cc)
  find-found k (s ∷ b) v h = ground (arith, find-found k b v)

  pub find-vacant :
      (k : ℕ) (b : List (Slot V)) → find sentinel k b ≡ vacant → seek sentinel b ≢ none
  unfolding find seek
  find-vacant k [] h = cc
  find-vacant k (s ∷ b) h = ground (arith, find-vacant k b)

  pub find-full :
      (k : ℕ) (b : List (Slot V))
      → seek sentinel b ≡ none
      → seek k b ≡ none
      → find sentinel k b ≡ missed
  unfolding find seek
  find-full k [] h g = refl
  find-full k (s ∷ b) h g = ground (arith, find-full k b)

  module _ (k : ℕ) (v : V) where
    store-AllFree :
        (b : List (Slot V))
        → AllFree sentinel b
        → IsPacked sentinel (after b (store sentinel k v b))
    unfolding store
    store-AllFree [] h = tt
    store-AllFree (s ∷ b) h = ground (arith, AllFree-IsPacked b)

    pub store-IsPacked :
        (b : List (Slot V))
        → IsPacked sentinel b
        → IsPacked sentinel (after b (store sentinel k v b))
    unfolding store
    store-IsPacked [] h = tt
    store-IsPacked (s ∷ b) h = ground (arith, store-IsPacked b, AllFree-IsPacked b)

    pub length-store : (b : List (Slot V)) → length (after b (store sentinel k v b)) ≡ length b
    unfolding store
    length-store [] = refl
    length-store (s ∷ b) = ground (arith, length-store b)

    pub store-stored_room :
        (b : List (Slot V)) → is_stored (store sentinel k v b) ≡ true → seek sentinel b ≢ none
    unfolding store seek
    store-stored_room [] e = cc
    store-stored_room (s ∷ b) e = ground (arith, store-stored_room b)

    pub store-full :
        (b : List (Slot V))
        → store sentinel k v b ≡ full
        → (seek k b ≡ none) × (seek sentinel b ≡ none)
    unfolding store seek
    store-full [] e = (refl, refl)
    store-full (s ∷ b) e = ground (arith, store-full b)

    pub store-duplicate : (b : List (Slot V)) → store sentinel k v b ≡ duplicate → seek k b ≢ none
    unfolding store seek
    store-duplicate [] e = cc
    store-duplicate (s ∷ b) e = ground (arith, store-duplicate b)

  module _ (k : ℕ) (v : V) (ne : k ≢ sentinel) where
    pub seek-store :
        (q : ℕ) (b : List (Slot V))
        → q ≢ sentinel
        → IsPacked sentinel b
        → seek q (after b (store sentinel k v b))
          ≡ (if is_stored (store sentinel k v b) && (q == k) then some v else seek q b)
    unfolding store seek
    seek-store q [] nq h = refl
    seek-store q (s ∷ b) nq h = ground (arith, seek-store q b nq h.1, seek-AllFree q b nq)

    pub store-stored_absent :
        (b : List (Slot V))
        → IsPacked sentinel b
        → is_stored (store sentinel k v b) ≡ true
        → seek k b ≡ none
    unfolding store seek
    store-stored_absent [] h e = refl
    store-stored_absent (s ∷ b) h e = ground (arith, store-stored_absent b h.1, seek-AllFree k b ne)
